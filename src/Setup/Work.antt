-- ===== src/Setup/Work.antt =====
-- src/setup/work.rs: the workflows of the installer besides the installation, which are threads that
-- report events. The calls of the system are the parameter `Desk`, over a state T. The texts of events
-- and errors are left out, and so are the threads themselves.
pub mod Waiting
use gdut_net.Base.{
  ℕ, zero, suc, ◌+◌, ◌/◌, String, Bool, true, false, ◌||◌, Option, none, some, List, [], ◌∷◌, ◌++◌,
  leb, if◌then◌else◌,
}
use gdut_net.Backoff.{from_secs, from_millis}
use gdut_net.Protocol.{SessionStatus, idle, dialing, connected, backoff, auth_fail}
use gdut_net.Service.Control.{Scm, stop_service, start_service}
use gdut_net.Service.Uninstall.{Cleanup, Step, UninstallReport, PurgeStep, uninstall_core}
use gdut_net.Setup.Transaction.{RollbackOutcome, not_needed}

pub data WorkKey : Type 0 where
  step_uninstall_stop_service step_uninstall_service step_uninstall_event_source : WorkKey
  step_uninstall_entropy step_uninstall_autostart step_uninstall_purge : WorkKey
  step_uninstall_remove_dir step_start_service step_wait_dial : WorkKey

-- `Ev`, whose `done` has whether the result is a success.
pub data Ev : Type 0 where
  step step_done : WorkKey → Ev
  step_finished : WorkKey → Step → Ev
  finished : Bool → RollbackOutcome → Ev

-- `query_status_once` answers with the status of a snapshot.
pub record Desk (T A : Type 0) : Type 0 where
  pub cleanup : Cleanup T A
  pub config_path : String
  pub kill_tray : T → T
  pub schedule_install_dir_removal : T → Bool × T
  pub query_status_once : T → Option SessionStatus × T

-- `UninstallReport::rows`, as events.
abbrev pub rows : UninstallReport → List Ev
rows r =
    step_finished step_uninstall_service r.service
    ∷ step_finished step_uninstall_event_source r.event_source
    ∷ step_finished step_uninstall_entropy r.entropy
    ∷ step_finished step_uninstall_autostart r.autostart
    ∷ []

abbrev pub purge_row : Option PurgeStep → List Ev
purge_row none = []
purge_row (some p) = step_finished step_uninstall_purge p.step ∷ []

-- A status that ends the wait.
abbrev pub is_settled : Option SessionStatus → Bool
is_settled none = false
is_settled (some idle) = false
is_settled (some dialing) = false
is_settled (some connected) = true
is_settled (some backoff) = true
is_settled (some auth_fail) = true

-- The events of a start of the service and of the wait after it, and the state.
abbrev pub conclude_start {ℓ} : {T : Type ℓ} → Bool × T → Bool × T → List Ev × T
conclude_start (false, t1) waited = (step step_start_service ∷ finished false not_needed ∷ [], t1)
conclude_start (true, t1) (dialed, t2) = (
  step step_start_service
      ∷ step_done step_start_service
      ∷ step step_wait_dial
      ∷ (if dialed
          then step_done step_wait_dial ∷ finished true not_needed ∷ []
          else finished false not_needed ∷ []),
  t2,
)

module _ {T A : Type 0} (desk : Desk T A) where
  -- The removal of the directory, and the end.
  unfoldable pub remove_dir : Bool → T → List Ev × T
  remove_dir wanted t =
      let (scheduled, t') = desk.schedule_install_dir_removal t in
      if wanted
      then (
        step step_uninstall_remove_dir
            ∷ (if scheduled
                then step_done step_uninstall_remove_dir ∷ finished true not_needed ∷ []
                else finished false not_needed ∷ []),
        t',
      )
      else (finished true not_needed ∷ [], t)

  -- What follows the stop of the service.
  unfoldable pub report_uninstall : Bool → Bool → T → List Ev × T
  unfolding remove_dir
  report_uninstall purge removing t =
      let (report, t1) = uninstall_core desk.cleanup desk.config_path purge t in
      elim report [
        | none ↦ (finished false not_needed ∷ [], t1)
        | some r ↦
            let (events, t2) = remove_dir removing t1 in
            (rows r ++ (purge_row r.purge ++ events), t2)
      ]

  unfoldable pub run_uninstall : Bool → Bool → T → List Ev × T
  unfolding report_uninstall
  run_uninstall purge removing t =
      let (stopped, t1) = stop_service desk.cleanup.scm (from_secs 16) t in
      let (events, t2) = report_uninstall purge removing (desk.kill_tray t1) in
      let start = step step_uninstall_stop_service in
      if stopped
      then (start ∷ step_done step_uninstall_stop_service ∷ events, t2)
      else (start ∷ finished false not_needed ∷ [], t1)

  -- The loop of `spawn_start_service`, with the rounds that are left.
  unfoldable pub wait_dial : ℕ → ℕ → T → Bool × T
  wait_dial zero deadline t = (false, t)
  wait_dial (suc rounds) deadline t =
      let (status, t1) = desk.query_status_once t in
      let rest = wait_dial rounds deadline (desk.cleanup.scm.sleep (from_millis 800) t1) in
      if is_settled status
      then (true, t1)
      else if leb deadline (desk.cleanup.scm.now t1)
      then (false, t1)
      else rest

  -- What follows the start of the service.
  unfoldable pub await_dial : T → Bool × T
  unfolding wait_dial
  await_dial t =
      wait_dial (from_secs 25 / from_millis 800 + 2) (desk.cleanup.scm.now t + from_secs 25) t

  unfoldable pub run_start : T → List Ev × T
  unfolding await_dial
  run_start t =
      let started = start_service desk.cleanup.scm t in
      conclude_start started (await_dial started.1)
