-- ===== src/Service/Install.antt =====
-- The installation of src/service.rs: `install_core`, its backup and its rollback. The calls of the
-- operating system, the reading and writing of the configuration, and the protection of passwords are
-- the parameter `System` of Service/Request. Logging is left out.
pub mod Restored
use gdut_net.Base.{
  ℕ, String, Bool, true, false, not, ◌&&◌, ◌||◌, Option, none, some, List, [], ◌∷◌, str_eq, ◌==◌,
  is_some, unwrap_or, if◌then◌else◌,
}
use gdut_net.Config.{Config, Account, dial_default, heartbeat_default, wireless_default, is_blank}
use gdut_net.Ipv4.{codes}
use gdut_net.Service.Control.{
  Scm, create_service, set_recovery_actions, start_service, delete_service,
  restore_previous_service,
}
use gdut_net.Setup.FileBackup
use gdut_net.Setup.FileBackup.{FileSystem, FileBackup}
use gdut_net.Setup.Transaction.{
  Credential, plain, keep_existing, PrevService, absent, unknown, known, RollbackOutcome,
  not_needed, failed, rollback_install,
}
use gdut_net.Service.Request.{
  InstallRequest, InstallOutcome, System, InstallBackup, Installed, config_default, with_student_id,
  migrate, with_blob, ◌>>=◌, ◌>>◌, call, ask, ensure, attempt, pure, installed, install_failure,
}

module _ {T A R : Type 0} (os : System T A R) (tries : ℕ) where
  -- The configuration of a path, or the default where there is none.
  abbrev pub start_config : String → T → Option Config
  start_config cfg_path t =
      if os.fs.exists cfg_path t then os.load cfg_path t else some config_default

  -- The password that a request brings, or that the configuration has.
  unfoldable pub password_of : Credential → Config → T → Option String
  password_of (plain p) cfg t = if str_eq p "" then none else some p
  password_of keep_existing cfg t =
      if str_eq cfg.account.password_blob "" then none else os.unprotect cfg.account.password_blob t

  -- The blob that is saved.
  unfoldable pub blob_of : Credential → String → Config → T → Option String × T
  blob_of (plain p) password cfg t = os.protect password t
  blob_of keep_existing password cfg t = (some cfg.account.password_blob, t)

  -- The creation of the phonebook's directory, if its path has one.
  unfoldable pub create_parent : String → T → Option (Unit {0}) × T
  create_parent path = elim (os.fs.parent path) [
    | none ↦ pure tt
    | some dir ↦ call (os.create_dir_all dir)
  ]

  unfoldable pub install_core : InstallRequest → T → Option InstallOutcome × T
  unfolding password_of blob_of create_parent
  install_core req = do
    cfg ← ask (start_config req.cfg_path)
    password ← ask (password_of req.credential cfg)
    let named = with_student_id req.student_id cfg
    ensure (not (is_blank (codes named.account.student_id)))
    let migrated = migrate named
    blob ← blob_of req.credential password migrated
    let new = with_blob blob migrated
    call (os.save new req.cfg_path)
    create_parent new.dial.pbk_path
    call (os.ensure_entry new.dial.pbk_path new.dial.entry_name)
    call (os.set_credentials new.dial.pbk_path new.dial.entry_name new.account.student_id password)
    service_refreshed ← create_service os.scm req.cfg_path req.service_exe
    attempt (set_recovery_actions os.scm)
    attempt os.register_source
    call (os.register_autostart req.tray_exe)
    pure (record { cfg_path = req.cfg_path; service_refreshed = service_refreshed })

  -- 183 is ERROR_ALREADY_EXISTS.
  unfoldable pub dial_entry_exists : Config → T → Option Bool
  dial_entry_exists cfg t =
      let code = os.validate_entry cfg.dial.pbk_path cfg.dial.entry_name t in
      if not (os.fs.exists cfg.dial.pbk_path t)
      then some false
      else if code == 183
      then some true
      else if code == 0
      then some false
      else none

  -- The password of an entry that is there already.
  abbrev pub stored_password : Bool → Config → T → Option (Option String)
  stored_password true cfg t = elim (os.unprotect cfg.account.password_blob t) [
    | none ↦ none
    | some p ↦ some (some p)
  ]
  stored_password false cfg t = some none

  -- An entry without a configuration cannot be restored.
  abbrev pub known_files : Bool → String → T → Option (Unit {0})
  known_files had_entry cfg_path t =
      if had_entry && not (os.fs.exists cfg_path t) then none else some tt

  -- `InstallBackup::capture`, which changes nothing.
  unfoldable pub capture : String → T → Option (InstallBackup R) × T
  unfolding dial_entry_exists
  capture cfg_path = do
    cfg ← ask (start_config cfg_path)
    had_entry ← ask (dial_entry_exists cfg)
    safe ← ask (known_files had_entry cfg_path)
    old_password ← ask (stored_password had_entry cfg)
    files ← ask (FileBackup.capture os.fs (cfg_path ∷ cfg.dial.pbk_path ∷ []))
    autostart ← ask os.capture_autostart
    pure (record {
      files = files;
      cfg = cfg;
      old_password = old_password;
      had_entry = had_entry;
      autostart = autostart;
    })

  -- The first part of `restore`: the credentials of a new entry are cleared.
  unfoldable pub clear_new : InstallBackup R → T → Bool × T
  unfolding dial_entry_exists
  clear_new b t =
      let cleared = os.clear_credentials b.cfg.dial.pbk_path b.cfg.dial.entry_name t in
      let inspected : Bool × T = elim (dial_entry_exists b.cfg t) [
        | none ↦ (false, t)
        | some there ↦ if there then cleared else (true, t)
      ] in
      if b.had_entry then (true, t) else inspected

  -- The last part: the old credentials.
  unfoldable pub restore_password : InstallBackup R → T → Bool × T
  restore_password b t = elim b.old_password [
    | none ↦ (true, t)
    | some password ↦
        os.set_credentials b.cfg.dial.pbk_path b.cfg.dial.entry_name b.cfg.account.student_id
          password t
  ]

  -- `InstallBackup::restore`: whether nothing failed.
  unfoldable pub restore : InstallBackup R → T → Bool × T
  unfolding clear_new restore_password
  restore b t =
      let (cleared, t1) = clear_new b t in
      let (started, t2) = os.restore_autostart b.autostart t1 in
      let (files_ok, t3) = FileBackup.restore os.fs tries b.files t2 in
      let (password_ok, t4) = restore_password b t3 in
      (cleared && started && files_ok && password_ok, t4)

  -- `rollback_install` over the service manager.
  abbrev pub service_back : PrevService (A × ℕ) → T → RollbackOutcome × T
  service_back =
      rollback_install (start_service os.scm) (delete_service os.scm)
        (restore_previous_service os.scm)

  -- What follows a failure of `install_core`.
  unfoldable pub roll_back : PrevService (A × ℕ) → InstallBackup R → T → RollbackOutcome × T
  unfolding restore rollback_install
  roll_back prev b t =
      let (ok, t1) = restore b t in
      let (service, t2) = service_back prev t1 in (if ok then service else failed, t2)

  -- The installation with its backup taken.
  unfoldable pub install_over :
      InstallRequest → PrevService (A × ℕ) → InstallBackup R → T → Installed × T
  unfolding install_core roll_back
  install_over req prev b t =
      let (outcome, t1) = install_core req t in
      let (rollback, t2) = roll_back prev b t1 in
      elim outcome [ none ↦ (install_failure rollback, t2) | some o ↦ (installed o, t1) ]

  unfoldable pub install_with_rollback : InstallRequest → PrevService (A × ℕ) → T → Installed × T
  unfolding install_over capture
  install_with_rollback req unknown t = (install_failure not_needed, t)
  install_with_rollback req prev t = elim (capture req.cfg_path t).0 [
    | none ↦ (install_failure not_needed, t)
    | some b ↦ install_over req prev b t
  ]
