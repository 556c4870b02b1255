-- ===== src/Service/Install/Restored.antt =====
-- The configuration and the phonebook after an installation that failed.
use gdut_net.Base.{
  ℕ, ◌≡◌, ◌≢◌, inl, inr, refl, ◌∙◌, subst, String, true, some, List, [], ◌∷◌, arith, All,
  Option-cases,
}
use gdut_net.Service.Control.{start_service, delete_service, restore_previous_service}
use gdut_net.Setup.FileBackup
use gdut_net.Setup.FileBackup.Laws.{IsLawful, IsApart}
use gdut_net.Setup.FileBackup.Snapshot.{capture_restored}
use gdut_net.Setup.Transaction.{
  PrevService, absent, unknown, known, RollbackOutcome, failed, rollback_install,
}
use gdut_net.Service.Install.{
  start_config, stored_password, capture, clear_new, restore_password, restore, service_back,
  roll_back, install_over, install_with_rollback, install_core, dial_entry_exists, known_files,
}
use gdut_net.Service.Request.{InstallRequest, System, InstallBackup, install_failure}

module _ {T A R : Type 0} (os : System T A R) (tries : ℕ) where
  -- What is asked of the calls that come after the files are restored: they do not change this file.
  pub record KeepsFile (q : String) : Type 0 where
    pub setting :
        (pbk entry user pass : String) (t : T)
        → os.fs.read q (os.set_credentials pbk entry user pass t).1 ≡ os.fs.read q t
    pub starting : (t : T) → os.fs.read q (os.scm.start t).1 ≡ os.fs.read q t
    pub deleting : (t : T) → os.fs.read q (os.scm.delete t).1 ≡ os.fs.read q t
    pub changing :
        (a : A) (n : ℕ) (t : T) → os.fs.read q (os.scm.change_registration a n t).1 ≡ os.fs.read q t

  -- The files that a backup has.
  abbrev pub paths : String → InstallBackup R → List String
  paths cfg_path b = cfg_path ∷ b.cfg.dial.pbk_path ∷ []

  capture-files :
      (cfg_path : String) (t : T) (b : InstallBackup R)
      → (capture os tries cfg_path t).0 ≡ some b
      → FileBackup.capture os.fs (paths cfg_path b) t ≡ some b.files
  unfolding capture
  capture-files cfg_path t b h = elim (Option-cases (start_config os tries cfg_path t)) [
    | inl e ↦ absurd (ground (arith, h, e))
    | inr (cfg, is_cfg) ↦ elim (Option-cases (dial_entry_exists os tries cfg t)) [
      | inl e ↦ absurd (ground (arith, h, is_cfg, e))
      | inr (had, is_had) ↦ elim (Option-cases (known_files os tries had cfg_path t)) [
        | inl e ↦ absurd (ground (arith, h, is_cfg, is_had, e))
        | inr (fine, is_fine) ↦ elim (Option-cases (stored_password os tries had cfg t)) [
          | inl e ↦ absurd (ground (arith, h, is_cfg, is_had, is_fine, e))
          | inr (old, is_old) ↦
              elim (Option-cases (FileBackup.capture os.fs (cfg_path ∷ cfg.dial.pbk_path ∷ []) t)) [
                | inl e ↦ absurd (ground (arith, h, is_cfg, is_had, is_fine, is_old, e))
                | inr (files, is_files) ↦ elim (Option-cases (os.capture_autostart t)) [
                  | inl e ↦ absurd (ground (arith, h, is_cfg, is_had, is_fine, is_old, is_files, e))
                  | inr (start, is_start) ↦
                      let all : InstallBackup R = record {
                        files = files;
                        cfg = cfg;
                        old_password = old;
                        had_entry = had;
                        autostart = start;
                      } in
                      let same : all ≡ b =
                        ground (arith, h, is_cfg, is_had, is_fine, is_old, is_files, is_start) in
                      subst (λ x. FileBackup.capture os.fs (paths cfg_path x) t ≡ some x.files) same
                        is_files
                ]
              ]
        ]
      ]
    ]
  ]

  start_service-read :
      (q : String) (t : T) → KeepsFile q → os.fs.read q (start_service os.scm t).1 ≡ os.fs.read q t
  unfolding start_service
  start_service-read q t keeps = ground (arith, keeps.starting t)

  service_back-read :
      (prev : PrevService (A × ℕ)) (q : String) (t : T)
      → KeepsFile q
      → os.fs.read q (service_back os tries prev t).1 ≡ os.fs.read q t
  unfolding rollback_install delete_service restore_previous_service
  service_back-read unknown q t keeps = start_service-read q t keeps
  service_back-read absent q t keeps = ground (arith, keeps.deleting t)
  service_back-read (known (a, n) running) q t keeps =
      let t1 = (restore_previous_service os.scm (a, n) t).1 in
      ground (arith, keeps.changing a n t, start_service-read q t1 keeps)

  restore_password-read :
      (b : InstallBackup R) (q : String) (t : T)
      → KeepsFile q
      → os.fs.read q (restore_password os tries b t).1 ≡ os.fs.read q t
  unfolding restore_password
  restore_password-read b q t keeps = elim (Option-cases b.old_password) [
    | inl e ↦ ground (arith, e)
    | inr (p, e) ↦ ground (
      arith,
      e,
      keeps.setting b.cfg.dial.pbk_path b.cfg.dial.entry_name b.cfg.account.student_id p t,
    )
  ]

  roll_back-read :
      (prev : PrevService (A × ℕ)) (cfg_path : String) (b : InstallBackup R) (t t' : T)
      → IsLawful os.fs
      → All KeepsFile (paths cfg_path b)
      → IsApart os.fs cfg_path
      → IsApart os.fs b.cfg.dial.pbk_path
      → FileBackup.capture os.fs (paths cfg_path b) t ≡ some b.files
      → (roll_back os tries prev b t').0 ≢ failed
      → All (λ q. os.fs.read q (roll_back os tries prev b t').1 ≡ os.fs.read q t) (paths cfg_path b)
  unfolding roll_back restore
  roll_back-read prev cfg_path b t t' lawful keeps apart apart' taken ok =
      let t2 = (os.restore_autostart b.autostart (clear_new os tries b t').1).1 in
      let (files_ok, t3) = FileBackup.restore os.fs tries b.files t2 in
      let t4 = (restore_password os tries b t3).1 in
      let is_ok : files_ok ≡ true = ground (arith, ok) in
      let (cfg_back, (pbk_back, _)) =
        capture_restored os.fs lawful tries (paths cfg_path b) b.files t t2 (apart, (apart', tt))
          taken is_ok in
      (
        service_back-read prev cfg_path t4 keeps.0
            ∙ restore_password-read b cfg_path t3 keeps.0
            ∙ cfg_back,
        (
          service_back-read prev b.cfg.dial.pbk_path t4 keeps.1.0
              ∙ restore_password-read b b.cfg.dial.pbk_path t3 keeps.1.0
              ∙ pbk_back,
          tt,
        ),
      )

  install_over-read :
      (req : InstallRequest) (prev : PrevService (A × ℕ)) (b : InstallBackup R) (t : T)
      (outcome : RollbackOutcome)
      → IsLawful os.fs
      → All KeepsFile (paths req.cfg_path b)
      → All (IsApart os.fs) (paths req.cfg_path b)
      → FileBackup.capture os.fs (paths req.cfg_path b) t ≡ some b.files
      → (install_over os tries req prev b t).0 ≡ install_failure outcome
      → outcome ≢ failed
      → All
          (λ q. os.fs.read q (install_over os tries req prev b t).1 ≡ os.fs.read q t)
          (paths req.cfg_path b)
  unfolding install_over
  install_over-read req prev b t outcome lawful keeps (apart, (apart', _)) taken failure ok =
      let (o, t1) = install_core os tries req t in
      elim (Option-cases o) [
        | inl e ↦
            let back =
              roll_back-read prev req.cfg_path b t t1 lawful keeps apart apart' taken
                (ground (arith, failure, e, ok)) in
            ground (arith, e, back.0, back.1.0)
        | inr (done, e) ↦ absurd (ground (arith, failure, e))
      ]

  -- An installation of the service that fails leaves the configuration and the phonebook as they
  -- were, unless it reports that the rollback failed too. This is where a backup could be taken, the
  -- file system is lawful, no other call of the rollback changes the two files, and they have none
  -- of the names that replacements use.
  pub install_restores :
      (req : InstallRequest) (prev : PrevService (A × ℕ)) (b : InstallBackup R) (t : T)
      (outcome : RollbackOutcome)
      → IsLawful os.fs
      → All KeepsFile (paths req.cfg_path b)
      → All (IsApart os.fs) (paths req.cfg_path b)
      → (capture os tries req.cfg_path t).0 ≡ some b
      → (install_with_rollback os tries req prev t).0 ≡ install_failure outcome
      → outcome ≢ failed
      → All
          (λ q. os.fs.read q (install_with_rollback os tries req prev t).1 ≡ os.fs.read q t)
          (paths req.cfg_path b)
  unfolding install_with_rollback
  install_restores req unknown b t outcome lawful keeps aparts taken failure ok = (refl, (refl, tt))
  install_restores req absent b t outcome lawful keeps aparts taken failure ok =
      let back =
        install_over-read req absent b t outcome lawful keeps aparts
          (capture-files req.cfg_path t b taken) (ground (arith, failure, taken)) ok in
      ground (arith, taken, back.0, back.1.0)
  install_restores req (known a running) b t outcome lawful keeps aparts taken failure ok =
      let back =
        install_over-read req (known a running) b t outcome lawful keeps aparts
          (capture-files req.cfg_path t b taken) (ground (arith, failure, taken)) ok in
      ground (arith, taken, back.0, back.1.0)
