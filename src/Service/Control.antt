-- ===== src/Service/Control.antt =====
-- The service control of src/service.rs. The service control manager is the parameter `Scm`, over a
-- state T in which time passes; a registration is a value of A. Times are nanoseconds.
pub mod Waiting
use gdut_net.Base.{
  ℕ, zero, suc, ◌+◌, ◌-◌, ◌*◌, ◌/◌, String, Bool, true, false, ◌&&◌, ◌||◌, Option, none, some, ltb,
  leb, if◌then◌else◌,
}
use gdut_net.Backoff.{from_secs, from_millis}
use gdut_net.HomeMode.{start_auto, tray_should_exit}
use gdut_net.Setup.Transaction.{PrevService, absent, unknown, known}

pub data ServiceState : Type 0 where
  running stopped pending : ServiceState

-- What opening the service finds: ERROR_SERVICE_DOES_NOT_EXIST is apart from all other errors.
pub data Opened : Type 0 where
  opened not_installed unopened : Opened

-- What creating the service finds: ERROR_SERVICE_EXISTS is apart from all other errors.
pub data Created : Type 0 where
  created existing uncreated : Created

pub record Scm (T A : Type 0) : Type 0 where
  pub connect : T → Bool
  pub open_service : T → Opened
  pub query_status : T → Option ServiceState
  pub query_config : T → Option (A × ℕ)
  pub stop : T → Bool × T
  pub start : T → Bool × T
  pub delete : T → Bool × T
  pub service_info : String → String → A
  pub create_service : A → T → Created × T
  pub change_config : A → T → Bool × T
  pub change_registration : A → ℕ → T → Bool × T
  pub update_failure_actions : T → Bool × T
  pub now : T → ℕ
  pub sleep : ℕ → T → T

-- STOP_TIMEOUT
abbrev pub stop_timeout : ℕ
stop_timeout = from_secs 10

abbrev pub is_stopped : ServiceState → Bool
is_stopped stopped = true
is_stopped _ = false

abbrev pub is_running : ServiceState → Bool
is_running running = true
is_running _ = false

module _ {T A : Type 0} (scm : Scm T A) where
  -- The loop of `stop_service`, with the rounds that are left.
  unfoldable pub poll_stopped : ℕ → ℕ → T → Bool × T
  poll_stopped zero deadline t = (false, t)
  poll_stopped (suc rounds) deadline t =
      let rest = poll_stopped rounds deadline (scm.sleep (from_millis 250) t) in
      let polled : Bool × T = elim (scm.query_status t) [
        | none ↦ (false, t)
        | some state ↦ if is_stopped state then (true, t) else rest
      ] in
      if ltb (scm.now t) deadline then polled else (false, t)

  unfoldable pub stop_service : ℕ → T → Bool × T
  unfolding poll_stopped
  stop_service timeout t =
      let t1 = (scm.stop t).1 in
      let polled = poll_stopped (timeout / from_millis 250 + 2) (scm.now t1 + timeout) t1 in
      let queried : Bool × T = elim (scm.query_status t) [
        | none ↦ (false, t)
        | some state ↦ if is_stopped state then (true, t) else polled
      ] in
      if scm.connect t
      then elim (scm.open_service t) [
        | opened ↦ queried
        | not_installed ↦ (true, t)
        | unopened ↦ (true, t)
      ]
      else (false, t)

  unfoldable pub start_service : T → Bool × T
  start_service t =
      let started = scm.start t in
      let queried : Bool × T = elim (scm.query_status t) [
        | none ↦ (false, t)
        | some state ↦ if is_running state then (true, t) else started
      ] in
      if scm.connect t
      then elim (scm.open_service t) [
        | opened ↦ queried
        | not_installed ↦ (false, t)
        | unopened ↦ (false, t)
      ]
      else (false, t)

  unfoldable pub delete_service : T → Bool × T
  delete_service t =
      let deleted = scm.delete t in
      if scm.connect t
      then elim (scm.open_service t) [
        | opened ↦ deleted
        | not_installed ↦ (true, t)
        | unopened ↦ (false, t)
      ]
      else (false, t)

  unfoldable pub restore_previous_service : A × ℕ → T → Bool × T
  restore_previous_service (command, start_type) t =
      let changed = scm.change_registration command start_type t in
      if scm.connect t
      then elim (scm.open_service t) [
        | opened ↦ changed
        | not_installed ↦ (false, t)
        | unopened ↦ (false, t)
      ]
      else (false, t)

  unfoldable pub capture_prev_service : T → PrevService (A × ℕ)
  capture_prev_service t =
      let read : PrevService (A × ℕ) = elim (scm.query_config t) [
        | none ↦ unknown
        | some cfg ↦ elim (scm.query_status t) [
          | none ↦ unknown
          | some state ↦
              if is_running state || is_stopped state then known cfg (is_running state) else unknown
        ]
      ] in
      if scm.connect t
      then elim (scm.open_service t) [ opened ↦ read | not_installed ↦ absent | unopened ↦ unknown ]
      else unknown

  unfoldable pub home_mode_standby : T → Option Bool
  home_mode_standby t =
      let runs : Bool = elim (scm.query_status t) [
        | none ↦ false
        | some state ↦ is_running state
      ] in
      let start_type : ℕ = elim (scm.query_config t) [ none ↦ start_auto | some cfg ↦ cfg.1 ] in
      if scm.connect t
      then elim (scm.open_service t) [
        | opened ↦ some (tray_should_exit start_type runs)
        | not_installed ↦ none
        | unopened ↦ none
      ]
      else none

  -- The wait of `create_service` for the old service, of at most so many polls: an error is none.
  unfoldable pub settle : ℕ → T → Bool × T
  settle zero t = (true, t)
  settle (suc polls) t =
      let rest = settle polls (scm.sleep (from_millis 500) t) in
      elim (scm.query_status t) [
        | none ↦ (false, t)
        | some state ↦ if is_stopped state then (true, t) else rest
      ]

  -- The branch of `create_service` for a service that exists already.
  unfoldable pub refresh : A → T → Option Bool × T
  unfolding settle
  refresh info t =
      let (settled, t1) = settle 20 (scm.stop t).1 in
      let (changed, t2) = scm.change_config info t1 in
      elim (scm.open_service t) [
        | opened ↦ if settled then (if changed then some true else none, t2) else (none, t1)
        | not_installed ↦ (none, t)
        | unopened ↦ (none, t)
      ]

  -- Whether the service was there already; none is an error.
  unfoldable pub create_service : String → String → T → Option Bool × T
  unfolding refresh
  create_service cfg_path service_exe t =
      let info = scm.service_info cfg_path service_exe in
      let (outcome, t1) = scm.create_service info t in
      let refreshed = refresh info t1 in
      if scm.connect t
      then elim outcome [
        | created ↦ (some false, t1)
        | existing ↦ refreshed
        | uncreated ↦ (none, t1)
      ]
      else (none, t)

  unfoldable pub restore_service_path : String → String → T → Bool × T
  unfolding create_service
  restore_service_path cfg_path service_exe t =
      let (outcome, t') = create_service cfg_path service_exe t in
      (elim outcome [ none ↦ false | some _ ↦ true ], t')

  unfoldable pub set_recovery_actions : T → Bool × T
  set_recovery_actions t =
      let updated = scm.update_failure_actions t in
      if scm.connect t
      then elim (scm.open_service t) [
        | opened ↦ updated
        | not_installed ↦ (false, t)
        | unopened ↦ (false, t)
      ]
      else (false, t)

  -- The loop of `wait_stopped`, with the rounds that are left.
  unfoldable pub wait_from : ℕ → ℕ → T → Bool × T
  wait_from zero start t = (false, t)
  wait_from (suc rounds) start t =
      let rest = wait_from rounds start (scm.sleep (from_millis 500) t) in
      let slept : Bool × T = if leb stop_timeout (scm.now t - start) then (false, t) else rest in
      elim (scm.query_status t) [
        | none ↦ (false, t)
        | some state ↦ if is_stopped state then (true, t) else slept
      ]

  unfoldable pub wait_stopped : T → Bool × T
  unfolding wait_from
  wait_stopped t = wait_from (stop_timeout / from_millis 500 + 2) (scm.now t) t
