-- ===== src/Service/Uninstall.antt =====
-- The uninstallation of src/service.rs. The calls of the operating system are the parameter `Cleanup`;
-- the texts of errors are left out, and so are logging and printing.
pub mod Guarded
use gdut_net.Base.{
  ℕ, String, Bool, true, false, not, ◌&&◌, Option, none, some, str_eq, unwrap_or, if◌then◌else◌,
}
use gdut_net.Config.{Config, is_blank}
use gdut_net.Service.Control.{
  Scm, Opened, opened, not_installed, unopened, is_stopped, wait_stopped,
}
use gdut_net.Setup.FileBackup
use gdut_net.Setup.FileBackup.{Answer, not_found, already_exists}

-- How a step of the uninstallation ended.
pub data Step : Type 0 where
  done skipped failed : Step

pub record PurgeStep : Type 0 where
  pub dir : String
  pub step : Step

pub record UninstallReport : Type 0 where
  pub service : Step
  pub event_source : Step
  pub entropy : Step
  pub autostart : Step
  pub purge : Option PurgeStep

pub record Cleanup (T A : Type 0) : Type 0 where
  pub scm : Scm T A
  pub parent : String → Option String
  pub file_name : String → Option String
  pub to_lowercase : String → String
  pub unregister_source : T → Bool × T
  pub delete_entropy : T → Bool × T
  pub unregister_autostart : T → Bool × T
  pub remove_shell_integration : T → Bool × T
  pub remove_dir_all : String → T → Answer × T

abbrev pub step_of : Bool → Step
step_of ok = if ok then done else failed

module _ {T A : Type 0} (os : Cleanup T A) where
  abbrev pub program_data_dir : String → String
  program_data_dir cfg_path = unwrap_or "C:\\ProgramData\\gdut-net" (os.parent cfg_path)

  unfoldable pub ensure_purge_safe : String → Bool
  ensure_purge_safe dir = elim (os.file_name dir) [
    | none ↦ str_eq "" "gdut-net"
    | some name ↦ str_eq (os.to_lowercase name) "gdut-net"
  ]

  -- The deletion of the service, once it is stopped.
  unfoldable pub delete_stopped : T → Option Step × T
  delete_stopped t =
      let (deleted, t') = os.scm.delete t in (if deleted then some done else none, t')

  -- The first step of `uninstall_core`: none is an error.
  unfoldable pub remove_service : T → Option Step × T
  unfolding delete_stopped
  remove_service t =
      let (waited, t1) = wait_stopped os.scm (os.scm.stop t).1 in
      let stopped_first : Option Step × T = if waited then delete_stopped t1 else (none, t1) in
      let queried : Option Step × T = elim (os.scm.query_status t) [
        | none ↦ (none, t)
        | some state ↦ if is_stopped state then delete_stopped t else stopped_first
      ] in
      if os.scm.connect t
      then elim (os.scm.open_service t) [
        | opened ↦ queried
        | not_installed ↦ (some skipped, t)
        | unopened ↦ (none, t)
      ]
      else (none, t)

  -- The last step: none is an error.
  unfoldable pub purge_dir : String → T → Option PurgeStep × T
  purge_dir dir t =
      let (removed, t') = os.remove_dir_all dir t in
      if ensure_purge_safe dir
      then elim removed [
        | Answer.done ↦ (some (record { dir = dir; step = done }), t')
        | not_found ↦ (some (record { dir = dir; step = skipped }), t')
        | already_exists ↦ (none, t')
        | Answer.failed ↦ (none, t')
      ]
      else (none, t)

  -- The steps between, whose failures only count in the report.
  unfoldable pub clean : T → (Step × Step × Step) × T
  clean t =
      let (source, t1) = os.unregister_source t in
      let (entropy, t2) = os.delete_entropy t1 in
      let (autostart, t3) = os.unregister_autostart t2 in
      ((step_of source, step_of entropy, step_of autostart), (os.remove_shell_integration t3).1)

  -- The report of steps that are done.
  abbrev pub report_of : Step → Step × Step × Step → Option PurgeStep → UninstallReport
  report_of service (source, entropy, autostart) purge = record {
    service = service;
    event_source = source;
    entropy = entropy;
    autostart = autostart;
    purge = purge;
  }

  -- What comes after the service.
  unfoldable pub uninstall_rest : String → Bool → Step → T → Option UninstallReport × T
  unfolding clean purge_dir
  uninstall_rest cfg_path purge service t =
      let (steps, t1) = clean t in
      let (purged, t2) = purge_dir (program_data_dir cfg_path) t1 in
      let whole : Option UninstallReport × T = elim purged [
        | none ↦ (none, t2)
        | some p ↦ (some (report_of service steps (some p)), t2)
      ] in
      if purge then whole else (some (report_of service steps none), t1)

  unfoldable pub uninstall_core : String → Bool → T → Option UninstallReport × T
  unfolding remove_service uninstall_rest
  uninstall_core cfg_path purge t =
      let (service, t1) = remove_service t in
      elim service [ none ↦ (none, t1) | some step ↦ uninstall_rest cfg_path purge step t1 ]
