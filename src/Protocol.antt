-- ===== src/Protocol.antt =====
-- src/ipc/protocol.rs: the states that the service publishes, and the commands of its clients.
-- JSON encoding (serde) is not modelled.
pub mod EventLog
pub mod Frame
use native.Mathlib.Decide.{ℕ_discrete}
use gdut_net.Base.{
  ℕ, ◌-◌, ◌/◌, ◌%◌, ◌<+>◌, decimal, decimal2, String, Bool, true, false, Option, none, some, List,
  [], ◌∷◌, String-discrete,
}

pub data SessionStatus : Type 0 where
  idle dialing connected backoff auth_fail : SessionStatus

pub data HeartbeatStatus : Type 0 where
  off running : HeartbeatStatus
  error : String → HeartbeatStatus

pub data NetMode : Type 0 where
  wired_exclusive wired_plus_standby : NetMode

pub data WPhase : Type 0 where
  off joining authing online error : WPhase

pub record WirelessSnapshot : Type 0 where
  pub phase : WPhase
  pub ip : Option String
  pub last_error : Option String

-- WirelessSnapshot::default()
abbrev pub wireless_snapshot_default : WirelessSnapshot
wireless_snapshot_default = record { phase = WPhase.off; ip = none; last_error = none }

pub record StateSnapshot : Type 0 where
  pub status : SessionStatus
  pub since_unix : Option ℕ
  pub ip : Option String
  pub last_drop_reason : Option String
  pub redial_attempts : ℕ
  pub heartbeat : HeartbeatStatus
  pub mode : NetMode
  pub wireless : WirelessSnapshot
  pub events : List String

pub data Command : Type 0 where
  redial : Command
  set_mode : NetMode → Command

pub SessionStatus-discrete : Discrete SessionStatus
SessionStatus-discrete = hlevel

pub NetMode-discrete : Discrete NetMode
NetMode-discrete = hlevel

pub WPhase-discrete : Discrete WPhase
WPhase-discrete = hlevel

unfoldable pub format_uptime : ℕ → String
format_uptime secs =
    decimal (secs / 3600) <+> ":" <+> decimal2 (secs % 3600 / 60) <+> ":" <+> decimal2 (secs % 60)

-- `uptime_text`, at a time of the system clock.
unfoldable pub uptime_text : ℕ → StateSnapshot → String
unfolding format_uptime
uptime_text now s = elim s.since_unix [ none ↦ "—" | some t ↦ format_uptime (now - t) ]

-- The derived `PartialEq` of a snapshot, as a decision.
pub StateSnapshot-discrete : Discrete StateSnapshot
StateSnapshot-discrete = hlevel (ℕ_discrete, String-discrete)

pub OptionStateSnapshot-discrete : Discrete (Option StateSnapshot)
OptionStateSnapshot-discrete = hlevel StateSnapshot-discrete

-- `==` on statuses, modes and phases.
abbrev pub is_connected : SessionStatus → Bool
is_connected connected = true
is_connected _ = false

abbrev pub is_exclusive : NetMode → Bool
is_exclusive wired_exclusive = true
is_exclusive wired_plus_standby = false

abbrev pub is_off : WPhase → Bool
is_off WPhase.off = true
is_off _ = false

abbrev pub is_joining : WPhase → Bool
is_joining WPhase.joining = true
is_joining _ = false
