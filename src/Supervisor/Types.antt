-- ===== src/Supervisor/Types.antt =====
-- The events and effects of src/supervisor.rs. Durations are nanoseconds.
use gdut_net.Base.{ℕ, String, Bool, Option}
use gdut_net.Backoff.{from_secs}
use gdut_net.Ipv4.{Ipv4Addr}
use gdut_net.Probe.{ProbeVerdict}
use gdut_net.Protocol.{Command, HeartbeatStatus, NetMode}
use gdut_net.Watchdog.{SessionView}

-- LINK_POLL_MS
abbrev pub link_poll_ms : ℕ
link_poll_ms = 2000

-- WIRELESS_TICK_MS
abbrev pub wireless_tick_ms : ℕ
wireless_tick_ms = 2000

-- SAMPLE_RETRY_MS
abbrev pub sample_retry_ms : ℕ
sample_retry_ms = 2000

-- REDIAL_FAILING_TOAST_AFTER_MS
abbrev pub redial_failing_toast_after_ms : ℕ
redial_failing_toast_after_ms = 600000

-- ROUTE_SETTLE of src/wireless/egress.rs
abbrev pub route_settle : ℕ
route_settle = from_secs 3

pub record WlanSample : Type 0 where
  pub ipv4 : Ipv4Addr
  pub gateway : Option Ipv4Addr
  pub ifindex : ℕ

pub record WirelessSample : Type 0 where
  pub associated : Bool
  pub wlan : Option WlanSample

pub record WlanEndpoint : Type 0 where
  pub gateway : Ipv4Addr
  pub ifindex : ℕ

pub data PortalAttempt : Type 0 where
  replied : ℕ → String → PortalAttempt
  no_reply timed_out : PortalAttempt
  failed : String → PortalAttempt

pub record WatchdogStep : Type 0 where
  pub delay : ℕ
  pub session : SessionView
  pub ppp_ip : Option String

pub data ToastKey : Type 0 where
  heartbeat_error redial_failing : ToastKey

-- `AssociateFinished` carries the error of a failure.
pub data Event : Type 0 where
  started wake stop wireless_died : Event
  command : Command → Event
  link_sampled : Option Bool → Option String → Event
  watchdog_stepped : WatchdogStep → Event
  wireless_sampled : WirelessSample → Event
  associate_finished : Option String → Event
  portal_finished : PortalAttempt → Event
  wlan_probe_finished : ProbeVerdict → Event
  heartbeat : HeartbeatStatus → Event
  notify_result : ToastKey → Bool → Event

pub data Effect : Type 0 where
  step_watchdog request_redial hangup sample_link sample_wireless : Effect
  set_watchdog_link : Option Bool → Effect
  cleanup_stale_routes disassociate release_metric teardown_routes : Effect
  associate : String → Effect
  acquire_wireless_egress : WlanEndpoint → Effect
  suppress_metric : ℕ → ℕ → Effect
  settle : ℕ → Effect
  portal_auth : Ipv4Addr → ℕ → Effect
  wlan_probe : Ipv4Addr → Option Ipv4Addr → String → Effect
  persist_mode : NetMode → Effect
  notify : ToastKey → String → String → Effect

pub data Lane : Type 0 where
  main wireless : Lane

-- Effect::lane
unfoldable pub lane : Effect → Lane
lane step_watchdog = main
lane request_redial = main
lane (set_watchdog_link up) = main
lane hangup = main
lane sample_link = main
lane sample_wireless = main
lane (persist_mode m) = main
lane (notify k t b) = main
lane cleanup_stale_routes = wireless
lane (associate p) = wireless
lane disassociate = wireless
lane (acquire_wireless_egress e) = wireless
lane (suppress_metric i t) = wireless
lane release_metric = wireless
lane teardown_routes = wireless
lane (settle d) = wireless
lane (portal_auth ip t) = wireless
lane (wlan_probe ip g u) = wireless
