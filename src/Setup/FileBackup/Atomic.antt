-- ===== src/Setup/FileBackup/Atomic.antt =====
-- What the replacement of a file leaves behind.
use gdut_net.Base.{
  ℕ, zero, suc, ◌≡◌, ◌≢◌, inl, refl, sym, subst, String, true, false, Option, none, some, List,
  arith,
}
use gdut_net.Setup.FileBackup.{
  FileSystem, contents, Answer, done, not_found, already_exists, failed, Metadata, regular, special,
  absent, unknown, Replaced, replaced, refused, unfinished, Staged, staged, not_staged, no_name,
  of_bool, staged_name, old_name, stage, fill, replace_in, replace_file_with, rename_ok,
  replace_file,
}
use gdut_net.Setup.FileBackup.Laws.{IsLawful, IsApart, Survives}
use gdut_net.Setup.FileBackup.Exchange.{fill-Survives}

module _ {T : Type 0} (fs : FileSystem T) (lawful : IsLawful fs) where
  -- The search for a name changes no file whose name it does not try.
  pub stage-read :
      (tries : ℕ) (dir q : String) (t : T)
      → ((n : ℕ) → q ≢ staged_name fs dir n)
      → fs.read q (stage fs tries dir t).1 ≡ fs.read q t
  unfolding stage
  stage-read zero dir q t apart = refl
  stage-read (suc tries) dir q t apart =
      let (n, t1) = fs.fetch_add t in
      let t2 = (fs.create_new (staged_name fs dir n) t1).1 in
      ground (
        arith,
        lawful.counting q t,
        lawful.creating (staged_name fs dir n) q t1 (apart n),
        stage-read tries dir q t2 apart,
      )

  created-name :
      (answer : Answer) (dir name : String) (n : ℕ) (t : T) (again : Staged × T)
      → (again.0 ≡ staged name → (m : ℕ) × (name ≡ staged_name fs dir m))
      → let r : Staged × T = elim answer [
        | done ↦ (staged (staged_name fs dir n), t)
        | already_exists ↦ again
        | not_found ↦ (not_staged, t)
        | failed ↦ (not_staged, t)
      ] in
        r.0 ≡ staged name → (m : ℕ) × (name ≡ staged_name fs dir m)
  created-name done dir name n t again later h = (n, cc h)
  created-name already_exists dir name n t again later h = later h
  created-name not_found dir name n t again later h = absurd (ground (arith, h))
  created-name failed dir name n t again later h = absurd (ground (arith, h))

  pub stage-name :
      (tries : ℕ) (dir name : String) (t : T)
      → (stage fs tries dir t).0 ≡ staged name
      → (n : ℕ) × (name ≡ staged_name fs dir n)
  unfolding stage
  stage-name zero dir name t h = absurd (ground (arith, h))
  stage-name (suc tries) dir name t h =
      let (n, t1) = fs.fetch_add t in
      let r = fs.create_new (staged_name fs dir n) t1 in
      created-name r.0 dir name n r.1 (stage fs tries dir r.1) (stage-name tries dir name r.1) h

  -- A file that was staged takes its place, or the destination survives.
  staged-Survives :
      (path name : String) (bytes : List ℕ) (t : T)
      → path ≢ name
      → path ≢ old_name fs name
      → name ≢ old_name fs name
      → let (ok, t2) = fill fs (rename_ok fs) path bytes name t in
        let t3 = (fs.remove_file name t2).1 in
        (ok ≡ true → fs.read path t3 ≡ contents bytes)
        × (ok ≡ false → Survives fs path (old_name fs name) (fs.read path t) bytes t3)
  staged-Survives path name bytes t pn po ns =
      let t2 = (fill fs (rename_ok fs) path bytes name t).1 in
      let on : old_name fs name ≢ name = λ e. ns (sym e) in
      ground (
        arith,
        fill-Survives fs lawful path name bytes t pn po ns,
        lawful.removing_other name path t2 pn,
        lawful.removing_other name (old_name fs name) t2 on,
      )

  placed :
      (found : Staged) (path : String) (bytes : List ℕ) (dir : String) (t1 t : T)
      → IsApart fs path
      → fs.read path t1 ≡ fs.read path t
      → ((name : String) → found ≡ staged name → (n : ℕ) × (name ≡ staged_name fs dir n))
      → let r : Replaced × T = elim found [
        | not_staged ↦ (refused, t1)
        | no_name ↦ (unfinished, t1)
        | staged name ↦
            let (ok, t2) = fill fs (rename_ok fs) path bytes name t1 in
            let (_, t3) = fs.remove_file name t2 in (of_bool ok, t3)
      ] in
        (r.0 ≡ replaced → fs.read path r.1 ≡ contents bytes)
        × (r.0 ≢ replaced → (old : String) × Survives fs path old (fs.read path t) bytes r.1)
  placed not_staged path bytes dir t1 t apart same named =
      (λ e. absurd (ground (arith, e)), λ _. (path, inl same))
  placed no_name path bytes dir t1 t apart same named =
      (λ e. absurd (ground (arith, e)), λ _. (path, inl same))
  placed (staged name) path bytes dir t1 t apart same named =
      let (n, e) = named name refl in
      let (pn, po, ns) = apart dir n in
      let (good, bad) = staged-Survives path name bytes t1 (rw e pn) (rw e po) (rw e ns) in
      let (ok, t2) = fill fs (rename_ok fs) path bytes name t1 in
      let t3 = (fs.remove_file name t2).1 in
      (
        λ h. good (ground (arith, h)),
        λ h. (
          old_name fs name,
          subst (λ x. Survives fs path (old_name fs name) x bytes t3) same
              (bad (ground (arith, h))),
        ),
      )

  replace_in-Survives :
      (tries : ℕ) (path : String) (bytes : List ℕ) (dir : String) (t : T)
      → IsApart fs path
      → let r = replace_in fs tries (rename_ok fs) path bytes dir t in
        (r.0 ≡ replaced → fs.read path r.1 ≡ contents bytes)
        × (r.0 ≢ replaced → (old : String) × Survives fs path old (fs.read path t) bytes r.1)
  unfolding replace_in
  replace_in-Survives tries path bytes dir t apart =
      let found = stage fs tries dir t in
      let same : fs.read path found.1 ≡ fs.read path t =
        stage-read tries dir path t (λ n. (apart dir n).0) in
      placed found.0 path bytes dir found.1 t apart same (λ name h. stage-name tries dir name t h)

  checked :
      (metadata : Metadata) (parent : Option String) (tries : ℕ) (path : String) (bytes : List ℕ)
      (t : T)
      → IsApart fs path
      → let go : Replaced × T = elim parent [
        | none ↦ (refused, t)
        | some dir ↦ replace_in fs tries (rename_ok fs) path bytes dir t
      ] in
        let r : Replaced × T = elim metadata [
          | regular ↦ go
          | absent ↦ go
          | special ↦ (refused, t)
          | unknown ↦ (refused, t)
        ] in
        (r.0 ≡ replaced → fs.read path r.1 ≡ contents bytes)
        × (r.0 ≢ replaced → (old : String) × Survives fs path old (fs.read path t) bytes r.1)
  checked regular none tries path bytes t apart =
      (λ e. absurd (ground (arith, e)), λ _. (path, inl refl))
  checked absent none tries path bytes t apart =
      (λ e. absurd (ground (arith, e)), λ _. (path, inl refl))
  checked regular (some dir) tries path bytes t apart =
      replace_in-Survives tries path bytes dir t apart
  checked absent (some dir) tries path bytes t apart =
      replace_in-Survives tries path bytes dir t apart
  checked special parent tries path bytes t apart =
      (λ e. absurd (ground (arith, e)), λ _. (path, inl refl))
  checked unknown parent tries path bytes t apart =
      (λ e. absurd (ground (arith, e)), λ _. (path, inl refl))

  -- A replacement of a file that reports success leaves the new bytes. One that reports an error, or is
  -- still looking for a name, loses nothing: the file reads as before, or holds the new bytes already,
  -- or is missing and another name holds what it held. This is where a call of the file system that
  -- fails changes nothing but the file that it writes, and the replacement's own names are not those
  -- of the file.
  pub replace_survives :
      (tries : ℕ) (path : String) (bytes : List ℕ) (t : T)
      → IsApart fs path
      → let r = replace_file fs tries path bytes t in
        (r.0 ≡ replaced → fs.read path r.1 ≡ contents bytes)
        × (r.0 ≢ replaced → (old : String) × Survives fs path old (fs.read path t) bytes r.1)
  unfolding replace_file replace_file_with
  replace_survives tries path bytes t apart =
      checked (fs.symlink_metadata path t) (fs.parent path) tries path bytes t apart
