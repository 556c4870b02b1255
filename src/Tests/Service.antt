-- ===== src/Tests/Service.antt =====
-- A service that stops after a second, on a disk whose counter is the clock.
use gdut_net.Base.{
  ℕ, ◌+◌, ◌≤◌, ◌≡◌, ◌⊎◌, refl, ap, String, Bool, true, false, Option, none, some, List, [], ◌∷◌,
  All, arith, ltb, if◌then◌else◌,
}
use gdut_net.Backoff.{from_secs}
use gdut_net.Config.{Config}
use gdut_net.Ipv4.{codes}
use gdut_net.Service.Control.{
  ServiceState, Scm, opened, running, stopped, created, wait_stopped, wait_from, poll_stopped,
  stop_timeout,
}
use gdut_net.Service.Control.Waiting.{wait_ends}
use gdut_net.Service.Install.{install_with_rollback, capture, dial_entry_exists}
use gdut_net.Service.Request.{
  System, InstallRequest, InstallBackup, config_default, install_failure,
}
use gdut_net.Service.Install.Restored.{KeepsFile, install_restores}
use gdut_net.Service.Uninstall.{
  Cleanup, UninstallReport, PurgeStep, program_data_dir, uninstall_core,
}
use gdut_net.Service.Uninstall.Guarded.{IsNamed, IsOutside, purge_guarded}
use gdut_net.Setup.FileBackup
use gdut_net.Setup.FileBackup.{Contents, contents}
use gdut_net.Setup.FileBackup.Laws.{IsApart}
use gdut_net.Setup.Transaction.{plain, absent, restored}
use gdut_net.Tests.Files.{Files, disk, disk-IsLawful, put, path-IsApart, before}

abbrev later : ℕ → Files → Files
later d t = (t.0, t.1 + d)

abbrev manager : Scm Files ℕ
manager = record {
  connect = λ t. true;
  open_service = λ t. opened;
  query_status = λ t. some (if ltb t.1 (from_secs 1) then running else stopped);
  query_config = λ t. some (0, 2);
  stop = λ t. (true, t);
  start = λ t. (true, t);
  delete = λ t. (true, t);
  service_info = λ cfg_path exe. 1;
  create_service = λ info t. (created, t);
  change_config = λ info t. (true, t);
  change_registration = λ command start_type t. (true, t);
  update_failure_actions = λ t. (true, t);
  now = λ t. t.1;
  sleep = later;
}

sleeping : (d : ℕ) (t : Files) → t.1 + d ≤ (later d t).1
sleeping d t = omega arith

wait_ends_example :
    let (ok, t') = wait_stopped manager before in
    (ok ≡ true → manager.query_status t' ≡ some stopped)
    × (ok ≡ false
        → (manager.query_status t' ≡ none) ⊎ (manager.now before + stop_timeout ≤ manager.now t'))
wait_ends_example = wait_ends manager before sleeping

abbrev cleanup : Cleanup Files ℕ
cleanup = record {
  scm = manager;
  parent = λ path. some "gdut-net";
  file_name = λ path. some path;
  to_lowercase = λ name. name;
  unregister_source = λ t. (true, t);
  delete_entropy = λ t. (false, t);
  unregister_autostart = λ t. (true, t);
  remove_shell_integration = λ t. (true, t);
  remove_dir_all = λ dir t. (FileBackup.done, put "gdut-net" Contents.missing t);
}

-- What a file holds that is not the directory.
abbrev config_view : Files → Contents
config_view t = t.0 "config.toml"

config_view-IsOutside : IsOutside cleanup config_view
config_view-IsOutside = record {
  stopping = λ t. refl;
  deleting = λ t. refl;
  sleeping = λ d t. refl;
  unregistering = λ t. refl;
  forgetting = λ t. refl;
  silencing = λ t. refl;
  clearing = λ t. refl;
}

purge_guarded_example :
    let (report, t') = uninstall_core cleanup "gdut-net/c" true before in
    (config_view t' ≡ config_view before)
    × ((r : UninstallReport) (p : PurgeStep)
        → report ≡ some r
        → r.purge ≡ some p
        → (true ≡ true)
          × (p.dir ≡ program_data_dir cleanup "gdut-net/c")
          × IsNamed cleanup config_view p.dir)
purge_guarded_example =
    purge_guarded cleanup config_view "gdut-net/c" true before config_view-IsOutside
      (λ on safe t. refl)

-- An installation whose phonebook entry cannot be made, after the configuration has been saved.
abbrev old_config : Config
old_config = record config_default {
  account = record { student_id = "3121000000"; password_blob = "" };
  dial = record config_default.dial { pbk_path = "gdut.pbk" };
}

abbrev installer : System Files ℕ (Unit {0})
installer = record {
  scm = manager;
  fs = disk;
  load = λ path t. some old_config;
  save = λ cfg path t. (true, put path (contents (9 ∷ [])) t);
  create_dir_all = λ dir t. (true, t);
  unprotect = λ blob t. some "pw";
  protect = λ password t. (some password, t);
  ensure_entry = λ pbk name t. (false, put pbk (contents (8 ∷ [])) t);
  validate_entry = λ pbk name t. 0;
  set_credentials = λ pbk name user password t. (true, t);
  clear_credentials = λ pbk name t. (true, t);
  register_source = λ t. (true, t);
  register_autostart = λ exe t. (true, t);
  capture_autostart = λ t. some tt;
  restore_autostart = λ r t. (true, t);
}

installer-KeepsFile : (q : String) → KeepsFile installer 1 q
installer-KeepsFile q = record {
  setting = λ pbk name user password t. refl;
  starting = λ t. refl;
  deleting = λ t. refl;
  changing = λ a n t. refl;
}

abbrev request : InstallRequest
request = record {
  cfg_path = "config.toml";
  student_id = none;
  credential = plain "pw";
  service_exe = "service";
  tray_exe = "tray";
}

abbrev backup : InstallBackup (Unit {0})
backup = record {
  files = ("config.toml", some (1 ∷ 2 ∷ [])) ∷ ("gdut.pbk", none) ∷ [];
  cfg = old_config;
  old_password = none;
  had_entry = false;
  autostart = tt;
}

phonebook-IsApart : IsApart disk "gdut.pbk"
phonebook-IsApart dir n = (
  (λ e. ground (arith, ap codes e)),
  (λ e. ground (arith, ap codes e)),
  (λ e. ground (arith, ap codes e)),
)

backup_taken : (capture installer 1 "config.toml" before).0 ≡ some backup
unfolding capture dial_entry_exists gdut_net.Setup.FileBackup.capture
    gdut_net.Setup.FileBackup.capture_from
backup_taken = refl

rolled_back : (install_with_rollback installer 1 request absent before).0 ≡ install_failure restored
unfolding install_with_rollback dial_entry_exists gdut_net.Setup.FileBackup.capture_from
    gdut_net.Payload.bytes_eq gdut_net.Base.decimal gdut_net.Config.is_blank
    gdut_net.Setup.Transaction.rollback_install gdut_net.Service.Control.delete_service
    FileBackup.capture FileBackup.restore
rolled_back = refl

install_restores_example :
    let t' = (install_with_rollback installer 1 request absent before).1 in
    (disk.read "config.toml" t' ≡ contents (1 ∷ 2 ∷ []))
    × ((disk.read "gdut.pbk" t' ≡ Contents.missing) × Unit {0})
install_restores_example =
    install_restores installer 1 request absent backup before restored disk-IsLawful
      (installer-KeepsFile "config.toml", (installer-KeepsFile "gdut.pbk", tt))
      (path-IsApart, (phonebook-IsApart, tt)) backup_taken rolled_back (λ e. ground (arith, e))
