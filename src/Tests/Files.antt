-- ===== src/Tests/Files.antt =====
-- A file system as a function from names to contents, with the counter of names.
use gdut_net.Base.{
  ℕ, ◌+◌, ◌≡◌, ◌≢◌, ap, refl, String, Bool, true, false, Option, none, some, List, [], ◌∷◌, ◌<+>◌,
  arith, All, str_eq, eq_iff, if◌then◌else◌,
}
use gdut_net.Ipv4.{codes}
use gdut_net.Setup.FileBackup.{
  Contents, contents, missing, Answer, done, not_found, already_exists, regular, absent, FileSystem,
  replaced, FileBackup, replace_file, capture, capture_from, restore,
}
use gdut_net.Setup.FileBackup.Atomic.{replace_survives}
use gdut_net.Setup.FileBackup.Laws.{IsLawful, IsApart, Survives}
use gdut_net.Setup.FileBackup.Snapshot.{capture_restored}

abbrev pub Files : Type 0
Files = (String → Contents) × ℕ

abbrev pub put : String → Contents → Files → Files
put p c t = (λ q. if str_eq q p then c else t.0 q, t.1)

abbrev is_missing : Contents → Bool
is_missing missing = true
is_missing _ = false

abbrev rename : String → String → Files → Answer × Files
rename a b t =
    if is_missing (t.0 a) then (not_found, t) else (done, put a missing (put b (t.0 a) t))

abbrev pub disk : FileSystem Files
disk = record {
  process_id = 7;
  parent = λ path. some "";
  join = λ dir name. String.◌∷◌ "/" name;
  with_extension = λ name extension. String.◌∷◌ "~" name;
  fetch_add = λ t. (t.1, (t.0, t.1 + 1));
  symlink_metadata = λ p t. if is_missing (t.0 p) then absent else regular;
  exists = λ p t. if is_missing (t.0 p) then false else true;
  read = λ p t. t.0 p;
  create_new =
      λ p t. if is_missing (t.0 p) then (done, put p (contents []) t) else (already_exists, t);
  write_all = λ p bytes t. (true, put p (contents bytes) t);
  sync_all = λ p t. (true, t);
  rename = rename;
  remove_file = λ p t. if is_missing (t.0 p) then (not_found, t) else (done, put p missing t);
}

is_missing_lem : (c : Contents) → is_missing c ≡ true → c ≡ missing
is_missing_lem missing h = refl
is_missing_lem (contents bytes) h = absurd (ground (arith, h))
is_missing_lem Contents.unreadable h = absurd (ground (arith, h))

pub disk-IsLawful : IsLawful disk
disk-IsLawful = record {
  counting = λ q t. refl;
  creating = λ p q t other. ground (arith, other, eq_iff q p);
  writing = λ p bytes t ok. ground (arith, eq_iff p p);
  writing_other = λ p q bytes t other. ground (arith, other, eq_iff q p);
  syncing = λ p q t. refl;
  moving =
      λ a b t ok differ. ground (arith, ok, differ, eq_iff a a, eq_iff a b, eq_iff b a, eq_iff b b);
  moving_other = λ a b q t qa qb. ground (arith, qa, qb, eq_iff q a, eq_iff q b);
  not_moving = λ a b q t fails. ground (arith, fails);
  removing = λ p t ok. ground (arith, ok, eq_iff p p);
  removing_missing = λ p t gone. is_missing_lem (t.0 p) (ground (arith, gone));
  removing_other = λ p q t other. ground (arith, other, eq_iff q p);
  not_removing = λ p q t fails. ground (arith, fails);
}

pub path-IsApart : IsApart disk "config.toml"
path-IsApart dir n = (
  (λ e. ground (arith, ap codes e)),
  (λ e. ground (arith, ap codes e)),
  (λ e. ground (arith, ap codes e)),
)

-- A disk with one file, and the next free name.
abbrev pub before : Files
before = (λ q. if str_eq q "config.toml" then contents (1 ∷ 2 ∷ []) else missing, 0)

replace_survives_example :
    let r = replace_file disk 1 "config.toml" (3 ∷ []) before in
    (r.0 ≡ replaced → disk.read "config.toml" r.1 ≡ contents (3 ∷ []))
    × (r.0 ≢ replaced
        → (old : String) × Survives disk "config.toml" old (contents (1 ∷ 2 ∷ [])) (3 ∷ []) r.1)
replace_survives_example =
    replace_survives disk disk-IsLawful 1 "config.toml" (3 ∷ []) before path-IsApart

-- The file is overwritten after the snapshot.
abbrev after : Files
after = put "config.toml" (contents (9 ∷ [])) before

abbrev snapshot : FileBackup
snapshot = ("config.toml", some (1 ∷ 2 ∷ [])) ∷ []

taken : capture disk ("config.toml" ∷ []) before ≡ some snapshot
unfolding capture capture_from
taken = refl

restored : (restore disk 1 snapshot after).0 ≡ true
unfolding restore gdut_net.Payload.bytes_eq gdut_net.Base.decimal
restored = refl

capture_restored_example :
    (disk.read "config.toml" (restore disk 1 snapshot after).1 ≡ contents (1 ∷ 2 ∷ [])) × Unit {0}
capture_restored_example =
    capture_restored disk disk-IsLawful 1 ("config.toml" ∷ []) snapshot before after
      (path-IsApart, tt) taken restored
