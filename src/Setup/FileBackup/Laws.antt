-- ===== src/Setup/FileBackup/Laws.antt =====
-- What the proofs about files ask of the file system, and of names.
use gdut_net.Base.{ℕ, ◌≡◌, ◌≢◌, ◌⊎◌, String, true, List}
use gdut_net.Setup.FileBackup.{
  FileSystem, Contents, contents, missing, done, not_found, staged_name, old_name,
}

module _ {T : Type 0} (fs : FileSystem T) where
  -- What is asked of the file system: a call changes the files that it names and no other, and none
  -- where it fails, but for a write; a file that was written reads as it was written, one that was
  -- moved reads as it did, and one that was removed, or that is not found, is missing.
  pub record IsLawful : Type 0 where
    pub counting : (q : String) (t : T) → fs.read q (fs.fetch_add t).1 ≡ fs.read q t
    pub creating : (p q : String) (t : T) → q ≢ p → fs.read q (fs.create_new p t).1 ≡ fs.read q t
    pub writing :
        (p : String) (bytes : List ℕ) (t : T)
        → (fs.write_all p bytes t).0 ≡ true
        → fs.read p (fs.write_all p bytes t).1 ≡ contents bytes
    pub writing_other :
        (p q : String) (bytes : List ℕ) (t : T)
        → q ≢ p
        → fs.read q (fs.write_all p bytes t).1 ≡ fs.read q t
    pub syncing : (p q : String) (t : T) → fs.read q (fs.sync_all p t).1 ≡ fs.read q t
    pub moving :
        (a b : String) (t : T)
        → (fs.rename a b t).0 ≡ done
        → a ≢ b
        → (fs.read b (fs.rename a b t).1 ≡ fs.read a t) × (fs.read a (fs.rename a b t).1 ≡ missing)
    pub moving_other :
        (a b q : String) (t : T) → q ≢ a → q ≢ b → fs.read q (fs.rename a b t).1 ≡ fs.read q t
    pub not_moving :
        (a b q : String) (t : T)
        → (fs.rename a b t).0 ≢ done
        → fs.read q (fs.rename a b t).1 ≡ fs.read q t
    pub removing :
        (p : String) (t : T)
        → (fs.remove_file p t).0 ≡ done
        → fs.read p (fs.remove_file p t).1 ≡ missing
    pub removing_missing :
        (p : String) (t : T) → (fs.remove_file p t).0 ≡ not_found → fs.read p t ≡ missing
    pub removing_other :
        (p q : String) (t : T) → q ≢ p → fs.read q (fs.remove_file p t).1 ≡ fs.read q t
    pub not_removing :
        (p q : String) (t : T)
        → (fs.remove_file p t).0 ≢ done
        → fs.read q (fs.remove_file p t).1 ≡ fs.read q t

  -- The names that the replacement uses are no names of its destination.
  abbrev pub IsApart : String → Type 0
  IsApart path =
      (dir : String) (n : ℕ)
      → (path ≢ staged_name fs dir n)
        × (path ≢ old_name fs (staged_name fs dir n))
        × (staged_name fs dir n ≢ old_name fs (staged_name fs dir n))

  -- A file after a replacement that failed: as it was, or replaced already, or moved away whole.
  abbrev pub Survives : String → String → Contents → List ℕ → T → Type 0
  Survives path old before bytes t =
      (fs.read path t ≡ before)
      ⊎ ((fs.read path t ≡ contents bytes)
          ⊎ ((fs.read path t ≡ missing) × (fs.read old t ≡ before)))
