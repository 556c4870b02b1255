-- ===== src/Runtime/Dialer.antt =====
-- RealDialer of src/runtime.rs, the dialer of the watchdog, over the calls of src/ras.rs. These are
-- the parameter `Ras`: they act on a system S and give out session handles H.
pub mod Wedge
pub mod Handles
use gdut_net.Base.{
  ◌⊎◌, inl, inr, ℕ, ◌+◌, String, Bool, true, false, Option, none, some, ◌||◌, leb, ◌==◌,
  if◌then◌else◌, ◌<+>◌,
}
use gdut_net.Config.{Config}
use gdut_net.Probe.{ProbeVerdict}
use gdut_net.Watchdog.{auth, transient, DialError, DialResult, dialed, failed, Devices}

-- RasError
pub data RasError : Type 0 where
  refused : RasError
  other : ℕ → String → RasError

-- The end of the blocking task that dials: the task failed with a text, or `ras::dial` returned.
pub data DialTask (H : Type 0) : Type 0 where
  join_failed : String → DialTask H
  session : H → DialTask H
  ras_error : RasError → DialTask H

pub record Ras (S H : Type 0) : Type 0 where
  pub dial : String → String → String → String → S → DialTask H × S
  pub restart_rasman : S → S
  pub hangup : H → S → S
  pub is_connected : H → S → Bool × S

pub record RealDialer (H : Type 0) : Type 0 where
  pub pbk : String
  pub entry : String
  pub user : String
  pub pass : String
  pub held : Option H
  pub wedge_fails : ℕ

-- WEDGE_RESTART_AFTER
abbrev pub wedge_restart_after : ℕ
wedge_restart_after = 3

-- The codes of a port that is stuck in dialing.
abbrev pub is_wedged : ℕ → Bool
is_wedged code = code == 756 || code == 813

module _ {H : Type 0} where
  unfoldable pub new : Config → String → RealDialer H
  new cfg pass = record {
    pbk = cfg.dial.pbk_path;
    entry = cfg.dial.entry_name;
    user = cfg.account.student_id;
    pass = pass;
    held = none;
    wedge_fails = 0;
  }

  -- The task's end as a result: an error, or a session.
  unfoldable pub task_result : DialTask H → DialError ⊎ H
  task_result (session h) = inr h
  task_result (join_failed e) =
      inl (record { kind = transient; code = 0; msg = "Dial task join failed: " <+> e })
  task_result (ras_error refused) = inl (record {
    kind = auth;
    code = 691;
    msg = "Authentication failed (691): invalid student ID or password";
  })
  task_result (ras_error (other code msg)) =
      inl (record { kind = transient; code = code; msg = msg })

-- The dialer and the system that it acts on.
pub record Line (S H : Type 0) : Type 0 where
  pub dialer : RealDialer H
  pub system : S

module _ {S H : Type 0} (ras : Ras S H) where
  -- An error, counted where the port is stuck; the third in a row restarts RasMan.
  unfoldable pub count_wedge : ℕ → Line S H → Line S H
  count_wedge code l =
      let fails = l.dialer.wedge_fails + 1 in
      let cleared = record (l.dialer) { wedge_fails = 0 } in
      if is_wedged code
      then (if leb wedge_restart_after fails
          then record { dialer = cleared; system = ras.restart_rasman l.system }
          else record l { dialer = record (l.dialer) { wedge_fails = fails } })
      else record l { dialer = cleared }

  unfoldable pub dial_ended : DialError ⊎ H → Line S H → DialResult × Line S H
  unfolding count_wedge
  dial_ended (inr h) l =
      (dialed, record l { dialer = record (l.dialer) { wedge_fails = 0; held = some h } })
  dial_ended (inl e) l = (failed e, count_wedge e.code l)

  unfoldable pub dial : Line S H → DialResult × Line S H
  unfolding dial_ended task_result
  dial l =
      let d = l.dialer in
      let (task, s) = ras.dial d.pbk d.entry d.user d.pass l.system in
      dial_ended (task_result task) (record l { system = s })

  unfoldable pub hangup : Line S H → Line S H
  hangup l = elim l.dialer.held [
    | none ↦ l
    | some h ↦ record { dialer = record (l.dialer) { held = none }; system = ras.hangup h l.system }
  ]

  unfoldable pub is_connected : Line S H → Bool × Line S H
  is_connected l = elim l.dialer.held [
    | none ↦ (false, l)
    | some h ↦ let (up, s) = ras.is_connected h l.system in (up, record l { system = s })
  ]

  -- The dialer as the watchdog uses it, beside a prober and a clock of the same system.
  unfoldable pub real_devices : (S → ProbeVerdict × S) → (S → ℕ) → Devices (Line S H)
  unfolding dial hangup is_connected
  real_devices probe unix_now = record {
    dial = dial;
    hangup = hangup;
    is_connected = is_connected;
    probe = λ l. let (v, s) = probe l.system in (v, record l { system = s });
    unix_now = λ l. unix_now l.system;
  }
