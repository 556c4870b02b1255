-- ===== src/Setup/FileBackup/Snapshot.antt =====
-- A snapshot that is restored.
use gdut_net.Base.{
  ℕ, ◌≡◌, ◌≢◌, ◌⊎◌, inl, inr, refl, sym, ◌∙◌, subst, String, Bool, true, false, ◌||◌, Option, none,
  some, List, [], ◌∷◌, ◌++◌, arith, All, All-append, any, str_eq, eq_iff, Bool-cases,
}
use gdut_net.Setup.FileBackup.{
  FileSystem, FileBackup, Contents, contents, missing, unreadable, capture_from, capture,
  restore_file, restore,
}
use gdut_net.Setup.FileBackup.Laws.{IsLawful, IsApart}
use gdut_net.Setup.FileBackup.Restore.{as_read, restore_file-other, restore_file-read}

Contents-cases :
    (c : Contents) → ((bytes : List ℕ) × (c ≡ contents bytes)) ⊎ ((c ≡ missing) ⊎ (c ≡ unreadable))
Contents-cases (contents bytes) = inl (bytes, refl)
Contents-cases missing = inr (inl refl)
Contents-cases unreadable = inr (inr refl)

module _ {T : Type 0} (fs : FileSystem T) (lawful : IsLawful fs) where
  -- A snapshot of distinct files.
  abbrev Distinct : FileBackup → Type 0
  Distinct [] = Unit
  Distinct (f ∷ files) = All (λ g. g.0 ≢ f.0) files × Distinct files

  -- What the files of a snapshot read.
  abbrev Reads : T → FileBackup → Type 0
  Reads t files = All (λ f. fs.read f.0 t ≡ as_read f.1) files

  kept :
      (files : FileBackup) (tries : ℕ) (path : String) (before : Option (List ℕ)) (t : T)
      → All (λ g. g.0 ≢ path) files
      → All (λ f. IsApart fs f.0) files
      → Reads t files
      → Reads (restore_file fs tries path before t).1 files
  kept [] tries path before t differ apart reads = tt
  kept ((q, old) ∷ files) tries path before t differ apart reads = (
    restore_file-other fs lawful tries path q before t differ.0 apart.0 ∙ reads.0,
    kept files tries path before t differ.1 apart.1 reads.1,
  )

  restore-Reads :
      (tries : ℕ) (files : FileBackup) (t : T)
      → Distinct files
      → All (λ f. IsApart fs f.0) files
      → (restore fs tries files t).0 ≡ true
      → Reads (restore fs tries files t).1 files
  unfolding restore
  restore-Reads tries [] t distinct apart ok = tt
  restore-Reads tries ((path, before) ∷ files) t distinct apart ok =
      let (later, t1) = restore fs tries files t in
      let rest = restore-Reads tries files t distinct.1 apart.1 (ground (arith, ok)) in
      (
        restore_file-read fs lawful tries path before t1 apart.0 (ground (arith, ok)),
        kept files tries path before t1 distinct.0 apart.1 rest,
      )

  -- A path that a snapshot has.
  abbrev knows : FileBackup → String → Bool
  knows files path = any (λ f. str_eq f.0 path) files

  unknown_differs :
      (files : FileBackup) (path : String) (before : Option (List ℕ))
      → knows files path ≡ false
      → Distinct files
      → Distinct (files ++ (path, before) ∷ [])
  unknown_differs [] path before new distinct = (tt, tt)
  unknown_differs ((q, old) ∷ files) path before new distinct = (
    All-append (λ (g : String × Option (List ℕ)). g.0 ≢ q) files ((path, before) ∷ []) distinct.0
        ((λ e. ground (arith, e, new, eq_iff q path)), tt),
    unknown_differs files path before (ground (arith, new)) distinct.1,
  )

  knows-append :
      (files more : FileBackup) (path : String)
      → knows (files ++ more) path ≡ (knows files path || knows more path)
  knows-append [] more path = refl
  knows-append (f ∷ files) more path = ground (arith, knows-append files more path)

  -- What a snapshot is, that was taken.
  abbrev IsTaken : T → FileBackup → Type 0
  IsTaken t b = Distinct b × Reads t b × All (λ f. IsApart fs f.0) b

  -- What it adds to files that it had, for the paths that were left.
  abbrev Extends : T → FileBackup → List String → FileBackup → Type 0
  Extends t files paths b =
      IsTaken t b
      × ((p : String) → knows files p ≡ true → knows b p ≡ true)
      × All (λ p. knows b p ≡ true) paths

  IsTaken-snoc :
      (files : FileBackup) (path : String) (before : Option (List ℕ)) (t : T)
      → IsTaken t files
      → knows files path ≡ false
      → IsApart fs path
      → fs.read path t ≡ as_read before
      → IsTaken t (files ++ (path, before) ∷ [])
  IsTaken-snoc files path before t (distinct, reads, aparts) new apart same = (
    unknown_differs files path before new distinct,
    All-append (λ (f : String × Option (List ℕ)). fs.read f.0 t ≡ as_read f.1) files
        ((path, before) ∷ []) reads (same, tt),
    All-append (λ (f : String × Option (List ℕ)). IsApart fs f.0) files ((path, before) ∷ []) aparts
        (apart, tt),
  )

  Extends-snoc :
      (files : FileBackup) (path : String) (before : Option (List ℕ)) (paths : List String) (t : T)
      (b : FileBackup)
      → Extends t (files ++ (path, before) ∷ []) paths b
      → Extends t files (path ∷ paths) b
  Extends-snoc files path before paths t b (taken, keeps, all) = (
    taken,
    (λ p h. keeps p (ground (arith, h, knows-append files ((path, before) ∷ []) p))),
    (
      keeps path (ground (arith, knows-append files ((path, before) ∷ []) path, eq_iff path path)),
      all,
    ),
  )

  capture_from-Extends :
      (paths : List String) (files : FileBackup) (t : T) (b : FileBackup)
      → IsTaken t files
      → All (IsApart fs) paths
      → capture_from fs files paths t ≡ some b
      → Extends t files paths b
  unfolding capture_from
  capture_from-Extends [] files t b taken apart h =
      let same : files ≡ b = cc h in
      (subst (IsTaken t) same taken, (λ p k. subst (λ x. knows x p ≡ true) same k), tt)
  capture_from-Extends (path ∷ paths) files t b taken apart h =
      let step : (before : Option (List ℕ))
          → knows files path ≡ false
          → fs.read path t ≡ as_read before
          → capture_from fs (files ++ (path, before) ∷ []) paths t ≡ some b
          → Extends t files (path ∷ paths) b =
        λ before new same rest. Extends-snoc files path before paths t b (
          capture_from-Extends paths (files ++ (path, before) ∷ []) t b
            (IsTaken-snoc files path before t taken new apart.0 same) apart.1 rest) in
      elim (Bool-cases (knows files path)) [
        | inl known ↦
            let (t', keeps, all) =
              capture_from-Extends paths files t b taken apart.1 (ground (arith, h, known)) in
            (t', keeps, (keeps path known, all))
        | inr new ↦ elim (Contents-cases (fs.read path t)) [
          | inl (bytes, e) ↦ step (some bytes) new e (ground (arith, h, new, e))
          | inr (inl e) ↦ step none new e (ground (arith, h, new, e))
          | inr (inr e) ↦ absurd (ground (arith, h, new, e))
        ]
      ]

  known-Reads :
      (b : FileBackup) (path : String) (t t' : T)
      → knows b path ≡ true
      → Reads t b
      → Reads t' b
      → fs.read path t' ≡ fs.read path t
  known-Reads [] path t t' h reads reads' = absurd (ground (arith, h))
  known-Reads ((q, before) ∷ b) path t t' h reads reads' = elim (Bool-cases (str_eq q path)) [
    | inl same ↦
        subst (λ x. fs.read x t' ≡ fs.read x t) ((eq_iff q path).0 same) (reads'.0 ∙ sym reads.0)
    | inr differ ↦ known-Reads b path t t' (ground (arith, h, differ)) reads.1 reads'.1
  ]

  All-known :
      (paths : List String) (b : FileBackup) (t t' : T)
      → All (λ p. knows b p ≡ true) paths
      → Reads t b
      → Reads t' b
      → All (λ p. fs.read p t' ≡ fs.read p t) paths
  All-known [] b t t' h reads reads' = tt
  All-known (p ∷ paths) b t t' h reads reads' =
      (known-Reads b p t t' h.0 reads reads', All-known paths b t t' h.1 reads reads')

  -- A snapshot of files that is restored without an error brings them all back, whatever has happened
  -- to them: each reads as it did when the snapshot was taken, and one that was missing is missing
  -- again. This is where a call of the file system that fails changes nothing but the file that it
  -- writes, and the files have none of the names that replacements use.
  pub capture_restored :
      (tries : ℕ) (paths : List String) (b : FileBackup) (t t' : T)
      → All (IsApart fs) paths
      → capture fs paths t ≡ some b
      → (restore fs tries b t').0 ≡ true
      → All (λ path. fs.read path (restore fs tries b t').1 ≡ fs.read path t) paths
  unfolding capture
  capture_restored tries paths b t t' apart taken ok =
      let ((distinct, reads, aparts), _, all) =
        capture_from-Extends paths [] t b (tt, tt, tt) apart taken in
      All-known paths b t (restore fs tries b t').1 all reads
        (restore-Reads tries b t' distinct aparts ok)
