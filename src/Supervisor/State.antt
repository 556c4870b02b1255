-- ===== src/Supervisor/State.antt =====
-- The state of src/supervisor.rs: `new`, and the snapshot that it composes.
pub mod Validated
use gdut_net.Base.{
  ℕ, String, Bool, true, false, Option, none, some, List, [], u64_max, if◌then◌else◌,
}
use gdut_net.Config.{Config}
use gdut_net.Http.{probe_target_ip}
use gdut_net.Ipv4.{Ipv4Addr, codes, parse_ipv4}
use gdut_net.Probe.{ProbeVerdict}
use gdut_net.Protocol.{
  SessionStatus, HeartbeatStatus, NetMode, wired_exclusive, wired_plus_standby, WirelessSnapshot,
  StateSnapshot, wireless_snapshot_default,
}
use gdut_net.Protocol.EventLog
use gdut_net.Protocol.EventLog.{EventLog}
use gdut_net.Supervisor.Notification
use gdut_net.Supervisor.Notification.{NotificationLedger}
use gdut_net.Supervisor.Types.{WlanSample}
use gdut_net.Watchdog.{SessionView}
use gdut_net.Wireless.Brain
use gdut_net.Wireless.Brain.{Brain}

-- The clock is no field: a reaction is given the time that it reads, once.
pub record Supervisor : Type 0 where
  pub cfg : Config
  pub started : Bool
  pub stopped : Bool
  pub mode : NetMode
  pub events : EventLog
  pub last_snapshot : Option StateSnapshot
  pub eth_link : Option Bool
  pub link_sample_seen : Bool
  pub sample_in_flight : Bool
  pub step_pending : Bool
  pub watchdog_deadline : Option ℕ
  pub link_poll_at : ℕ
  pub session : SessionView
  pub ppp_ip : Option String
  pub heartbeat : HeartbeatStatus
  pub failing_since_ms : Option ℕ
  pub notifications : NotificationLedger
  pub brain : Option Brain
  pub wireless_died : Bool
  pub wireless_stopped_reported : Bool
  pub wireless_sample_in_flight : Bool
  pub wireless_tick_at : ℕ
  pub wlan : Option WlanSample
  pub wireless_ip : Option String
  pub verdict : Option ProbeVerdict
  pub associate_in_flight : Bool
  pub auth_in_flight : Bool
  pub probe_in_flight : Bool
  pub join_since_ms : Option ℕ
  pub portal_ip : Option Ipv4Addr
  pub probe_ip : Option Ipv4Addr

abbrev pub idle_session : SessionView
idle_session = record {
  status = SessionStatus.idle;
  since_unix = none;
  last_drop_reason = none;
  redial_attempts = 0;
}

-- The state before the wireless section is looked at.
unfoldable pub without_wireless : Config → Supervisor
unfolding EventLog.new
without_wireless cfg = record {
  cfg = cfg;
  started = false;
  stopped = false;
  mode = cfg.wireless.mode;
  events = EventLog.new;
  last_snapshot = none;
  eth_link = none;
  link_sample_seen = false;
  sample_in_flight = false;
  step_pending = false;
  watchdog_deadline = none;
  link_poll_at = u64_max;
  session = idle_session;
  ppp_ip = none;
  heartbeat = HeartbeatStatus.off;
  failing_since_ms = none;
  notifications = Notification.empty;
  brain = none;
  wireless_died = false;
  wireless_stopped_reported = false;
  wireless_sample_in_flight = false;
  wireless_tick_at = u64_max;
  wlan = none;
  wireless_ip = none;
  verdict = none;
  associate_in_flight = false;
  auth_in_flight = false;
  probe_in_flight = false;
  join_since_ms = none;
  portal_ip = none;
  probe_ip = none;
}

-- The wireless manager, where both of its addresses parse.
unfoldable pub with_targets : Option Ipv4Addr → Option Ipv4Addr → Supervisor → Supervisor
unfolding Brain.new
with_targets (some portal_ip) (some probe_ip) s = record s {
  brain = some (
      Brain.new s.mode s.cfg.wireless.takeover_after_secs s.cfg.wireless.release_after_secs
        s.cfg.dial.probe_interval_secs);
  portal_ip = some portal_ip;
  probe_ip = some probe_ip;
}
with_targets _ _ s = s

unfoldable pub new : Config → Supervisor
unfolding without_wireless with_targets
new cfg =
    if cfg.wireless.enabled
    then with_targets (probe_target_ip (codes cfg.wireless.portal_url))
        (parse_ipv4 (codes cfg.wireless.probe_host)) (without_wireless cfg)
    else without_wireless cfg

pub wireless_view : Option Brain → Option String → WirelessSnapshot
unfolding Brain.snapshot
wireless_view none ip = wireless_snapshot_default
wireless_view (some b) wireless_ip = let w = Brain.snapshot b in record w { ip = wireless_ip }

unfoldable pub compose : Supervisor → StateSnapshot
unfolding wireless_view
compose s = record {
  status = s.session.status;
  since_unix = s.session.since_unix;
  ip = s.ppp_ip;
  last_drop_reason = s.session.last_drop_reason;
  redial_attempts = s.session.redial_attempts;
  heartbeat = s.heartbeat;
  mode = s.mode;
  wireless = wireless_view s.brain s.wireless_ip;
  events = s.events.ring;
}
