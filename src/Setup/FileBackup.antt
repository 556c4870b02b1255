-- ===== src/Setup/FileBackup.antt =====
-- src/setup/file_backup.rs: the installer's snapshots of files, and the replacement of one file. The
-- file system, the path operations and the process number are the parameter `FileSystem`, over a state
-- T that holds the counter of names too. The texts of errors are left out.
pub mod Atomic
pub mod Exchange
pub mod Laws
pub mod Restore
pub mod Snapshot
use gdut_net.Base.{
  ℕ, zero, suc, String, Bool, true, false, not, ◌&&◌, Option, none, some, List, [], ◌∷◌, ◌++◌, any,
  ◌<+>◌, decimal, str_eq, if◌then◌else◌,
}
use gdut_net.Ipv4.{◌>>=◌}
use gdut_net.Payload.{bytes_eq}

-- The answer of `fs::read`.
pub data Contents : Type 0 where
  contents : List ℕ → Contents
  missing unreadable : Contents

-- The answer of a call that changes files: done, the error NotFound, the error AlreadyExists, any
-- other error.
pub data Answer : Type 0 where
  done not_found already_exists failed : Answer

-- The answer of `symlink_metadata`.
pub data Metadata : Type 0 where
  regular special absent unknown : Metadata

pub record FileSystem (T : Type 0) : Type 0 where
  pub process_id : ℕ
  pub parent : String → Option String
  pub join : String → String → String
  pub with_extension : String → String → String
  pub fetch_add : T → ℕ × T
  pub symlink_metadata : String → T → Metadata
  pub exists : String → T → Bool
  pub read : String → T → Contents
  pub create_new : String → T → Answer × T
  pub write_all : String → List ℕ → T → Bool × T
  pub sync_all : String → T → Bool × T
  pub rename : String → String → T → Answer × T
  pub remove_file : String → T → Answer × T

-- What a replacement returns; `unfinished` is the search for a free name that has not ended.
pub data Replaced : Type 0 where
  replaced refused unfinished : Replaced

-- The name of a staged file.
pub data Staged : Type 0 where
  staged : String → Staged
  not_staged no_name : Staged

-- FileBackup
abbrev pub FileBackup : Type 0
FileBackup = List (String × Option (List ℕ))

abbrev pub is_done : Answer → Bool
is_done done = true
is_done _ = false

abbrev pub holds : List ℕ → Contents → Bool
holds bytes (contents current) = bytes_eq current bytes
holds bytes missing = false
holds bytes unreadable = false

-- An error or a success.
abbrev pub of_bool : Bool → Replaced
of_bool b = if b then replaced else refused

module _ {T : Type 0} (fs : FileSystem T) where
  abbrev pub staged_name : String → ℕ → String
  staged_name dir n = fs.join dir (".gdut-install-" <+> decimal fs.process_id <+> "-" <+> decimal n)

  abbrev pub old_name : String → String
  old_name name = fs.with_extension name "old"

  -- The loop that looks for a name, for as many tries.
  unfoldable pub stage : ℕ → String → T → Staged × T
  stage zero dir t = (no_name, t)
  stage (suc tries) dir t =
      let (n, t1) = fs.fetch_add t in
      let name = staged_name dir n in
      let (created, t2) = fs.create_new name t1 in
      let again = stage tries dir t2 in
      elim created [
        | done ↦ (staged name, t2)
        | already_exists ↦ again
        | not_found ↦ (not_staged, t2)
        | failed ↦ (not_staged, t2)
      ]

  -- The publication of a staged file whose destination has been moved away, or was not there.
  unfoldable pub publish_staged :
      (String → String → T → Bool × T) → String → String → Bool → T → Bool × T
  publish_staged publish path name had_previous t =
      let (published, t1) = publish name path t in
      let (removed, t2) = fs.remove_file (old_name name) t1 in
      let (_, t3) = fs.rename (old_name name) path t1 in
      if published
      then (if had_previous then (is_done removed, t2) else (true, t1))
      else (if had_previous then (false, t3) else (false, t1))

  -- The closure of `replace_file_with` once the staged file is closed.
  unfoldable pub exchange : (String → String → T → Bool × T) → String → String → T → Bool × T
  unfolding publish_staged
  exchange publish path name t =
      let (moved, t1) = fs.rename path (old_name name) t in
      let with_previous = publish_staged publish path name true t1 in
      let without = publish_staged publish path name false t1 in
      if fs.exists (old_name name) t then (false, t) else elim moved [
        | done ↦ with_previous
        | not_found ↦ without
        | already_exists ↦ (false, t1)
        | failed ↦ (false, t1)
      ]

  -- The closure of `replace_file_with`.
  unfoldable pub fill : (String → String → T → Bool × T) → String → List ℕ → String → T → Bool × T
  unfolding exchange
  fill publish path bytes name t =
      let (written, t1) = fs.write_all name bytes t in
      let (synced, t2) = fs.sync_all name t1 in
      let exchanged = exchange publish path name t2 in
      if written then (if synced then exchanged else (false, t2)) else (false, t1)

  -- What comes after the checks.
  unfoldable pub replace_in :
      ℕ → (String → String → T → Bool × T) → String → List ℕ → String → T → Replaced × T
  unfolding stage fill
  replace_in tries publish path bytes dir t =
      let (found, t1) = stage tries dir t in
      elim found [
        | not_staged ↦ (refused, t1)
        | no_name ↦ (unfinished, t1)
        | staged name ↦
            let (ok, t2) = fill publish path bytes name t1 in
            let (_, t3) = fs.remove_file name t2 in (of_bool ok, t3)
      ]

  unfoldable pub replace_file_with :
      ℕ → (String → String → T → Bool × T) → String → List ℕ → T → Replaced × T
  unfolding replace_in
  replace_file_with tries publish path bytes t =
      let go : Replaced × T = elim (fs.parent path) [
        | none ↦ (refused, t)
        | some dir ↦ replace_in tries publish path bytes dir t
      ] in
      elim (fs.symlink_metadata path t) [
        | regular ↦ go
        | absent ↦ go
        | special ↦ (refused, t)
        | unknown ↦ (refused, t)
      ]

  -- `fs::rename`, as the publication.
  abbrev pub rename_ok : String → String → T → Bool × T
  rename_ok from to t = let (answer, t') = fs.rename from to t in (is_done answer, t')

  unfoldable pub replace_file : ℕ → String → List ℕ → T → Replaced × T
  unfolding replace_file_with
  replace_file tries path bytes t = replace_file_with tries rename_ok path bytes t

  -- The loop of `capture`.
  unfoldable pub capture_from : FileBackup → List String → T → Option FileBackup
  capture_from files [] t = some files
  capture_from files (path ∷ paths) t =
      let known = capture_from files paths t in
      let next =
        λ (before : Option (List ℕ)). capture_from (files ++ (path, before) ∷ []) paths t in
      let read : Option FileBackup = elim (fs.read path t) [
        | contents bytes ↦ next (some bytes)
        | missing ↦ next none
        | unreadable ↦ none
      ] in
      if any (λ f. str_eq f.0 path) files then known else read

  unfoldable pub capture : List String → T → Option FileBackup
  unfolding capture_from
  capture paths t = capture_from [] paths t

  unfoldable pub restore_file : ℕ → String → Option (List ℕ) → T → Bool × T
  unfolding replace_file
  restore_file tries path none t =
      let (removed, t') = fs.remove_file path t in
      elim removed [
        | done ↦ (true, t')
        | not_found ↦ (true, t')
        | already_exists ↦ (false, t')
        | failed ↦ (false, t')
      ]
  restore_file tries path (some bytes) t =
      let (r, t') = replace_file tries path bytes t in
      if holds bytes (fs.read path t)
      then (true, t)
      else elim r [ replaced ↦ (true, t') | refused ↦ (false, t') | unfinished ↦ (false, t') ]

  -- `restore`, from the last file to the first: whether nothing failed.
  unfoldable pub restore : ℕ → FileBackup → T → Bool × T
  unfolding restore_file
  restore tries [] t = (true, t)
  restore tries ((path, before) ∷ files) t =
      let (later, t1) = restore tries files t in
      let (ok, t2) = restore_file tries path before t1 in (later && ok, t2)
