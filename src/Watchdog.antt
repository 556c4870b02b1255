-- ===== src/Watchdog.antt =====
-- src/watchdog.rs: the wired session, dialed, probed, dropped and redialed. The traits Dialer and
-- Prober and the wall clock are the parameter `Devices`, over a state D of the outside world; the
-- awaits of a step run one after the other. Durations are nanoseconds. Logging is left out.
pub mod Cases
pub mod Invariant
pub mod Steps
pub mod Retries
pub mod Link
use gdut_net.Base.{
  ℕ, ◌+◌, ◌*◌, ◌/◌, ◌%◌, ◌^◌, String, ◌≡◌, Bool, true, false, Option, none, some, ◌&&◌, ◌||◌, ltb,
  leb, ◌==◌, if◌then◌else◌, ◌<+>◌, decimal, saturating_add32,
}
use gdut_net.Backoff
use gdut_net.Backoff.{Backoff, from_secs, next_delay, reset}
use gdut_net.Probe.{ProbeVerdict, alive, link_down, kicked}
use gdut_net.Protocol.{SessionStatus}

-- ErrKind of src/ras.rs
pub data ErrKind : Type 0 where
  auth transient : ErrKind

-- `classify` of src/ras.rs: 691 is a refused authentication.
unfoldable pub classify : ℕ → ErrKind
classify code = if code == 691 then auth else transient

pub record DialError : Type 0 where
  pub kind : ErrKind
  pub code : ℕ
  pub msg : String

pub data DialResult : Type 0 where
  dialed : DialResult
  failed : DialError → DialResult

pub record Devices (D : Type 0) : Type 0 where
  pub dial : D → DialResult × D
  pub hangup : D → D
  pub is_connected : D → Bool × D
  pub probe : D → ProbeVerdict × D
  pub unix_now : D → ℕ

pub data Phase : Type 0 where
  idle dialing connected backoff auth_fail : Phase

-- STABLE_RESET_AFTER
abbrev pub stable_reset_after : ℕ
stable_reset_after = from_secs 300

-- LINK_DOWN_RETRY
abbrev pub link_down_retry : ℕ
link_down_retry = from_secs 5

abbrev pub link_down_reason : String
link_down_reason = "Ethernet link down"

pub record WatchdogCfg : Type 0 where
  pub redial_min : ℕ
  pub redial_max : ℕ
  pub probe_interval : ℕ
  pub auth_fail_delay : ℕ

pub record SessionView : Type 0 where
  pub status : SessionStatus
  pub since_unix : Option ℕ
  pub last_drop_reason : Option String
  pub redial_attempts : ℕ

-- `since` is kept in UNIX seconds.
pub record Watchdog (D : Type 0) : Type 0 where
  pub devices : D
  pub cfg : WatchdogCfg
  pub phase : Phase
  pub redial_backoff : Backoff
  pub attempts : ℕ
  pub since : Option ℕ
  pub probe_fails : ℕ
  pub stable_for : ℕ
  pub dial_calls : ℕ
  pub last_drop_reason : Option String
  pub redial_requested : Bool
  pub eth_link : Option Bool

-- `SessionStatus::from`
unfoldable pub status_of : Phase → SessionStatus
status_of idle = SessionStatus.idle
status_of dialing = SessionStatus.dialing
status_of connected = SessionStatus.connected
status_of backoff = SessionStatus.backoff
status_of auth_fail = SessionStatus.auth_fail

-- `{bad:?}`
unfoldable pub verdict_text : ProbeVerdict → String
verdict_text alive = "Alive"
verdict_text link_down = "LinkDown"
verdict_text kicked = "Kicked"

abbrev pub phase_is_connected : Phase → Bool
phase_is_connected connected = true
phase_is_connected _ = false

abbrev pub is_down : Option Bool → Bool
is_down (some false) = true
is_down _ = false

module _ {D : Type 0} where
  unfoldable pub new : D → WatchdogCfg → Watchdog D
  unfolding Backoff.new
  new d cfg = record {
    devices = d;
    cfg = cfg;
    phase = idle;
    redial_backoff = Backoff.new cfg.redial_min cfg.redial_max;
    attempts = 0;
    since = none;
    probe_fails = 0;
    stable_for = 0;
    dial_calls = 0;
    last_drop_reason = none;
    redial_requested = false;
    eth_link = none;
  }

  unfoldable pub set_eth_link : Option Bool → Watchdog D → Watchdog D
  set_eth_link up w = record w { eth_link = up }

  unfoldable pub request_redial : Watchdog D → Watchdog D
  request_redial w = record w { redial_requested = true }

  unfoldable pub view : Watchdog D → SessionView
  unfolding status_of
  view w = record {
    status = status_of w.phase;
    since_unix = w.since;
    last_drop_reason = w.last_drop_reason;
    redial_attempts = w.attempts;
  }

  unfoldable pub record_drop : String → Watchdog D → Watchdog D
  record_drop reason w = record w {
    since = none;
    probe_fails = 0;
    stable_for = 0;
    last_drop_reason = some reason;
  }

module _ {D : Type 0} (io : Devices D) where
  -- `shutdown`, and every call of `hangup`.
  unfoldable pub shutdown : Watchdog D → Watchdog D
  shutdown w = record w { devices = io.hangup w.devices }

  -- An error of the dialer: a refused authentication waits a fixed time, any other backs off.
  unfoldable pub on_dial_error : ErrKind → DialError → Watchdog D → Watchdog D × ℕ
  unfolding next_delay saturating_add32
  on_dial_error auth e w = (
    record w {
      phase = auth_fail;
      last_drop_reason = some ("Auth failed " <+> decimal e.code <+> ": " <+> e.msg);
    },
    w.cfg.auth_fail_delay,
  )
  on_dial_error transient e w =
      let (b, delay) = next_delay w.redial_backoff in
      (
        record w {
          redial_backoff = b;
          attempts = saturating_add32 w.attempts 1;
          phase = backoff;
          last_drop_reason = some ("Dial failed " <+> decimal e.code <+> ": " <+> e.msg);
        },
        delay,
      )

  -- The outcome of a dial, and the wait that it asks for.
  unfoldable pub on_dial_result : DialResult → Watchdog D → Watchdog D × ℕ
  unfolding on_dial_error
  on_dial_result dialed w = (
    record w {
      phase = connected;
      since = some (io.unix_now w.devices);
      probe_fails = 0;
      stable_for = 0;
    },
    w.cfg.probe_interval,
  )
  on_dial_result (failed e) w = on_dial_error e.kind e w

  unfoldable pub do_dial : Watchdog D → Watchdog D × ℕ
  unfolding on_dial_result
  do_dial w =
      let (result, d) = io.dial w.devices in
      if is_down w.eth_link
      then (record w { phase = backoff; last_drop_reason = some link_down_reason }, link_down_retry)
      else on_dial_result result
          (record w { phase = dialing; dial_calls = (w.dial_calls + 1) % 2 ^ 32; devices = d })

  -- The match on the verdict of a probe.
  unfoldable pub on_verdict : ProbeVerdict → Watchdog D → Watchdog D × ℕ
  unfolding reset record_drop shutdown do_dial verdict_text
  on_verdict alive w =
      let stable = w.stable_for + w.cfg.probe_interval in
      let settled = leb stable_reset_after stable && ltb 0 w.attempts in
      (
        record w {
          probe_fails = 0;
          stable_for = stable;
          redial_backoff = if settled then reset w.redial_backoff else w.redial_backoff;
          attempts = if settled then 0 else w.attempts;
        },
        w.cfg.probe_interval,
      )
  on_verdict bad w =
      let fails = (w.probe_fails + 1) % 256 in
      if ltb fails 2
      then (record w { probe_fails = fails }, w.cfg.probe_interval / 4)
      else do_dial (
          shutdown (
            record_drop
              ("Probe failed " <+> decimal fails <+> " times (" <+> verdict_text bad <+> ")")
              (record w { probe_fails = fails })))

  unfoldable pub step_connected : Watchdog D → Watchdog D × ℕ
  unfolding on_verdict do_dial shutdown record_drop
  step_connected w =
      let (up, d) = io.is_connected w.devices in
      let (verdict, d') = io.probe d in
      if up
      then on_verdict verdict (record w { devices = d' })
      else do_dial (shutdown (record_drop "RAS session not found" (record w { devices = d })))

  -- `self.phase == Phase::Connected || self.dialer.is_connected()`: the dialer is asked only if the
  -- phase does not decide.
  unfoldable pub session_alive : Watchdog D → Bool × Watchdog D
  session_alive w =
      let (up, d) = io.is_connected w.devices in
      if phase_is_connected w.phase then (true, w) else (up, record w { devices = d })

  unfoldable pub run_once : Watchdog D → Watchdog D × ℕ
  unfolding session_alive step_connected do_dial shutdown record_drop
  run_once w =
      let (live, w') = session_alive (record w { redial_requested = false }) in
      if w.redial_requested
      then do_dial (if live then shutdown (record_drop "Manual redial" w') else w')
      else if phase_is_connected w.phase
      then step_connected w
      else do_dial w
