-- ===== src/Setup/Transaction/Backed.antt =====
-- The installation over the snapshots of src/setup/file_backup.rs, which `run_install` takes of the
-- payload's names in the installation directory.
use gdut_net.Base.{
  ℕ, ◌≡◌, ◌≢◌, refl, sym, ap, ap₂, ◌∙◌, String, true, false, some, List, [], ◌∷◌, map, All,
}
use gdut_net.Setup.FileBackup
use gdut_net.Setup.FileBackup.{FileSystem, FileBackup, Contents}
use gdut_net.Setup.FileBackup.Laws.{IsLawful, IsApart}
use gdut_net.Setup.FileBackup.Snapshot.{capture_restored}
use gdut_net.Setup.Transaction.{
  Machine, Prepared, RollbackOutcome, failed, done, InstallRequest, prepare, run_install,
}
use gdut_net.Setup.Transaction.Restored.{IsFaithful, last_event, names, install_rolls_back}

-- What two readings of a list of files agree on.
map-All :
    (f g : String → Contents) (xs : List String) → All (λ x. f x ≡ g x) xs → map f xs ≡ map g xs
map-All f g [] same = refl
map-All f g (x ∷ xs) same = ap₂ (λ c cs. c ∷ cs) same.0 (map-All f g xs same.1)

first_of : List Contents → Contents
first_of [] = Contents.missing
first_of (c ∷ cs) = c

others_of : List Contents → List Contents
others_of [] = []
others_of (c ∷ cs) = cs

All-map :
    (f g : String → Contents) (xs : List String) → map f xs ≡ map g xs → All (λ x. f x ≡ g x) xs
unfolding first_of others_of
All-map f g [] same = tt
All-map f g (x ∷ xs) same = (ap first_of same, All-map f g xs (ap others_of same))

module _ {T A C S : Type 0} (fs : FileSystem T) (tries : ℕ) (dir : String)
    (os : Machine T A FileBackup C S) where
  -- What the files of these names in the directory hold.
  abbrev pub reads : List String → T → List Contents
  reads n t = map (λ name. fs.read (fs.join dir name) t) n

  All-join :
      (P : String → Type 0) (n : List String)
      → All P (map (fs.join dir) n)
      → All (λ name. P (fs.join dir name)) n
  All-join P [] all = tt
  All-join P (name ∷ n) all = (all.0, All-join P n all.1)

  -- What is asked of the system: the files are captured and restored by snapshots of the file system,
  -- and no other call but the unpacking changes these files.
  pub record IsBacked (n : List String) : Type 0 where
    pub capturing : (t : T) → os.capture_files n t ≡ FileBackup.capture fs (map (fs.join dir) n) t
    pub restoring :
        (f : FileBackup) (t : T) → os.restore_files f t ≡ FileBackup.restore fs tries f t
    pub stopping : (t : T) → reads n (os.stop_service t).1 ≡ reads n t
    pub killing : (t : T) → reads n (os.kill_tray t) ≡ reads n t
    pub starting : (t : T) → reads n (os.start_service t).1 ≡ reads n t
    pub deleting : (t : T) → reads n (os.delete_service t).1 ≡ reads n t
    pub reinstating : (a : A) (t : T) → reads n (os.restore_previous_service a t).1 ≡ reads n t
    pub core_restoring : (c : C) (t : T) → reads n (os.restore_core c t).1 ≡ reads n t
    pub shell_restoring : (s : S) (t : T) → reads n (os.restore_shell s t).1 ≡ reads n t

  restored-reads :
      (n : List String) (f : FileBackup) (t t' : T)
      → IsLawful fs
      → IsBacked n
      → All (IsApart fs) (map (fs.join dir) n)
      → os.capture_files n t ≡ some f
      → (os.restore_files f t').0 ≡ true
      → reads n (os.restore_files f t').1 ≡ reads n t
  restored-reads n f t t' lawful backed apart captured ok =
      let r = backed.restoring f t' in
      let back =
        capture_restored fs lawful tries (map (fs.join dir) n) f t t' apart
          (sym (backed.capturing t) ∙ captured) (ap (λ x. x.0) (sym r) ∙ ok) in
      ap (λ x. reads n x.1) r
      ∙ map-All (λ name. fs.read (fs.join dir name) (FileBackup.restore fs tries f t').1)
          (λ name. fs.read (fs.join dir name) t) n
          (All-join (λ p. fs.read p (FileBackup.restore fs tries f t').1 ≡ fs.read p t) n back)

  backed-IsFaithful :
      (n : List String)
      → IsLawful fs
      → IsBacked n
      → All (IsApart fs) (map (fs.join dir) n)
      → IsFaithful os reads n
  backed-IsFaithful n lawful backed apart = record {
    stopping = backed.stopping;
    killing = backed.killing;
    starting = backed.starting;
    deleting = backed.deleting;
    reinstating = backed.reinstating;
    core_restoring = backed.core_restoring;
    shell_restoring = backed.shell_restoring;
    files_restoring = λ f t t' captured ok. restored-reads n f t t' lawful backed apart captured ok;
  }

  -- An installation that fails leaves every file of its payload as it was in the installation
  -- directory, and one that was not there is not there again, unless it reports that the rollback
  -- failed too. This is where the preparation goes through, the file system is lawful, the payload's
  -- files have none of the names that replacements use, and no other call than the unpacking and the
  -- restoring of files changes them.
  pub install_restores_payload :
      (req : InstallRequest) (t : T) (b : Prepared FileBackup C S) (outcome : RollbackOutcome)
      → IsLawful fs
      → IsBacked (names b)
      → All (IsApart fs) (map (fs.join dir) (names b))
      → prepare os (os.capture_prev_service t) t ≡ some b
      → last_event (run_install os req t).0 ≡ some (done false outcome)
      → outcome ≢ failed
      → All
          (λ name.
            fs.read (fs.join dir name) (run_install os req t).1 ≡ fs.read (fs.join dir name) t)
          (names b)
  install_restores_payload req t b outcome lawful backed apart prepared ended ok =
      All-map (λ name. fs.read (fs.join dir name) (run_install os req t).1)
        (λ name. fs.read (fs.join dir name) t) (names b)
        (install_rolls_back os reads req t b outcome
          (backed-IsFaithful (names b) lawful backed apart) prepared ended ok)
