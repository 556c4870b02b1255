-- ===== src/Setup/FileBackup/Restore.antt =====
-- What restoring one file leaves of it and of the others.
use gdut_net.Base.{
  ℕ, ◌≡◌, ◌≢◌, inl, inr, refl, ◌∙◌, String, true, Option, none, some, List, [], ◌∷◌, arith,
  Option-cases,
}
use gdut_net.Payload.{bytes_eq}
use gdut_net.Setup.FileBackup.{
  FileSystem, Contents, contents, missing, unreadable, Replaced, refused, unfinished, Staged,
  staged, not_staged, no_name, of_bool, holds, staged_name, old_name, stage, publish_staged,
  exchange, fill, replace_in, replace_file_with, rename_ok, replace_file, restore_file,
}
use gdut_net.Setup.FileBackup.Laws.{IsLawful, IsApart}
use gdut_net.Setup.FileBackup.Atomic.{stage-read, stage-name, replace_survives}

bytes_eq-eq : (xs ys : List ℕ) → bytes_eq xs ys ≡ true → xs ≡ ys
unfolding bytes_eq
bytes_eq-eq [] [] h = refl
bytes_eq-eq [] (y ∷ ys) h = absurd (ground (arith, h))
bytes_eq-eq (x ∷ xs) [] h = absurd (ground (arith, h))
bytes_eq-eq (x ∷ xs) (y ∷ ys) h = ground (arith, h, bytes_eq-eq xs ys)

-- What a file held, as the snapshot has it.
abbrev pub as_read : Option (List ℕ) → Contents
as_read none = missing
as_read (some bytes) = contents bytes

module _ {T : Type 0} (fs : FileSystem T) (lawful : IsLawful fs) where
  exchange-other :
      (path name q : String) (t : T)
      → q ≢ path
      → q ≢ name
      → q ≢ old_name fs name
      → fs.read q (exchange fs (rename_ok fs) path name t).1 ≡ fs.read q t
  unfolding exchange publish_staged
  exchange-other path name q t qp qn qo =
      let old = old_name fs name in
      let t1 = (fs.rename path old t).1 in
      let t2 = (fs.rename name path t1).1 in
      ground (
        arith,
        lawful.moving_other path old q t qp qo,
        lawful.moving_other name path q t1 qn qp,
        lawful.removing_other old q t2 qo,
        lawful.moving_other old path q t2 qo qp,
      )

  staged-other :
      (found : Staged) (path dir q : String) (bytes : List ℕ) (t1 : T)
      → q ≢ path
      → IsApart fs q
      → ((name : String) → found ≡ staged name → (n : ℕ) × (name ≡ staged_name fs dir n))
      → let r : Replaced × T = elim found [
        | not_staged ↦ (refused, t1)
        | no_name ↦ (unfinished, t1)
        | staged name ↦
            let (ok, t2) = fill fs (rename_ok fs) path bytes name t1 in
            let (_, t3) = fs.remove_file name t2 in (of_bool ok, t3)
      ] in
        fs.read q r.1 ≡ fs.read q t1
  unfolding fill
  staged-other not_staged path dir q bytes t1 qp apart named = refl
  staged-other no_name path dir q bytes t1 qp apart named = refl
  staged-other (staged name) path dir q bytes t1 qp apart named =
      let (n, e) = named name refl in
      let (qs, qo', _) = apart dir n in
      let qn : q ≢ name = rw e qs in
      let qo : q ≢ old_name fs name = rw e qo' in
      let w = (fs.write_all name bytes t1).1 in
      let s = (fs.sync_all name w).1 in
      let filled = (fill fs (rename_ok fs) path bytes name t1).1 in
      let kept : fs.read q filled ≡ fs.read q t1 = ground (
        arith,
        lawful.writing_other name q bytes t1 qn,
        lawful.syncing name q w,
        exchange-other path name q s qp qn qo,
      ) in
      lawful.removing_other name q filled qn ∙ kept

  replace_in-other :
      (tries : ℕ) (path q : String) (bytes : List ℕ) (dir : String) (t : T)
      → q ≢ path
      → IsApart fs q
      → fs.read q (replace_in fs tries (rename_ok fs) path bytes dir t).1 ≡ fs.read q t
  unfolding replace_in
  replace_in-other tries path q bytes dir t qp apart =
      let found = stage fs tries dir t in
      staged-other found.0 path dir q bytes found.1 qp apart
        (λ name h. stage-name fs lawful tries dir name t h)
      ∙ stage-read fs lawful tries dir q t (λ n. (apart dir n).0)

  -- The replacement of a file leaves every other one that is none of its own.
  replace_file-other :
      (tries : ℕ) (path q : String) (bytes : List ℕ) (t : T)
      → q ≢ path
      → IsApart fs q
      → fs.read q (replace_file fs tries path bytes t).1 ≡ fs.read q t
  unfolding replace_file replace_file_with
  replace_file-other tries path q bytes t qp apart = elim (Option-cases (fs.parent path)) [
    | inl e ↦ ground (arith, e)
    | inr (dir, e) ↦ ground (arith, e, replace_in-other tries path q bytes dir t qp apart)
  ]

  pub restore_file-other :
      (tries : ℕ) (path q : String) (before : Option (List ℕ)) (t : T)
      → q ≢ path
      → IsApart fs q
      → fs.read q (restore_file fs tries path before t).1 ≡ fs.read q t
  unfolding restore_file
  restore_file-other tries path q none t qp apart =
      ground (arith, lawful.removing_other path q t qp)
  restore_file-other tries path q (some bytes) t qp apart =
      ground (arith, replace_file-other tries path q bytes t qp apart)

  holds_lem : (bytes : List ℕ) (c : Contents) → holds bytes c ≡ true → c ≡ contents bytes
  holds_lem bytes (contents current) h = ground (arith, bytes_eq-eq current bytes h)
  holds_lem bytes missing h = absurd (ground (arith, h))
  holds_lem bytes unreadable h = absurd (ground (arith, h))

  pub restore_file-read :
      (tries : ℕ) (path : String) (before : Option (List ℕ)) (t : T)
      → IsApart fs path
      → (restore_file fs tries path before t).0 ≡ true
      → fs.read path (restore_file fs tries path before t).1 ≡ as_read before
  unfolding restore_file
  restore_file-read tries path none t apart ok = ground (
    arith,
    ok,
    lawful.removing path t,
    lawful.not_removing path path t,
    lawful.removing_missing path t,
  )
  restore_file-read tries path (some bytes) t apart ok = ground (
    arith,
    ok,
    holds_lem bytes (fs.read path t),
    (replace_survives fs lawful tries path bytes t apart).0,
  )
