-- ===== src/Config.antt =====
-- src/config.rs: the configuration, its defaults and its validation. Reading and writing TOML and the
-- log section are not modelled.
use gdut_net.Base.{
  ℕ, String, Bool, true, false, not, Option, none, some, ◌&&◌, ◌||◌, ltb, if◌then◌else◌, is_none,
  List, [], ◌∷◌, str_eq,
}
use gdut_net.Ipv4.{codes, is_space, parse_ipv4}
use gdut_net.Http.{probe_target_ip}
use gdut_net.Protocol.{NetMode, wired_exclusive}

pub record Account : Type 0 where
  pub student_id : String
  pub password_blob : String

pub record Dial : Type 0 where
  pub entry_name : String
  pub pbk_path : String
  pub interface : String
  pub probe_interval_secs : ℕ
  pub http_probe_url : String

pub record HeartbeatCfg : Type 0 where
  pub enabled : Bool
  pub module_name : String
  pub server : String
  pub port : ℕ
  pub interval_secs : ℕ

pub record WirelessCfg : Type 0 where
  pub enabled : Bool
  pub mode : NetMode
  pub profile : String
  pub portal_url : String
  pub wlan_ac_ip : String
  pub probe_host : String
  pub takeover_after_secs : ℕ
  pub release_after_secs : ℕ
  pub standby_metric : ℕ

pub record Config : Type 0 where
  pub account : Account
  pub dial : Dial
  pub heartbeat : HeartbeatCfg
  pub wireless : WirelessCfg

-- Dial::default(), HeartbeatCfg::default(), WirelessCfg::default()
abbrev pub dial_default : Dial
dial_default = record {
  entry_name = "gdut";
  pbk_path = "C:\\ProgramData\\gdut-net\\gdut.pbk";
  interface = "";
  probe_interval_secs = 30;
  http_probe_url = "http://223.5.5.5";
}

abbrev pub heartbeat_default : HeartbeatCfg
heartbeat_default = record {
  enabled = false;
  module_name = "gdut";
  server = "10.0.3.2";
  port = 61440;
  interval_secs = 20;
}

abbrev pub wireless_default : WirelessCfg
wireless_default = record {
  enabled = true;
  mode = wired_exclusive;
  profile = "gdut";
  portal_url = "http://10.0.3.2:801/eportal/portal/login";
  wlan_ac_ip = "172.16.254.2";
  probe_host = "223.5.5.5";
  takeover_after_secs = 8;
  release_after_secs = 10;
  standby_metric = 100;
}

-- The reasons for which `validate` bails, in the order of its tests.
pub data ConfigError : Type 0 where
  empty_student_id bad_heartbeat_module probe_interval_too_short bad_http_probe_url : ConfigError
  bad_portal_url bad_probe_host debounce_too_short metric_too_large : ConfigError

-- The tests on the wireless section; `none` is success.
unfoldable pub validate_wireless : WirelessCfg → Option ConfigError
validate_wireless w =
    if is_none (probe_target_ip (codes w.portal_url))
    then some bad_portal_url
    else if is_none (parse_ipv4 (codes w.probe_host))
    then some bad_probe_host
    else if ltb w.takeover_after_secs 1 || ltb w.release_after_secs 1
    then some debounce_too_short
    else if ltb 9999 w.standby_metric
    then some metric_too_large
    else none

-- A text that `trim` leaves empty.
unfoldable pub is_blank : List ℕ → Bool
is_blank [] = true
is_blank (c ∷ cs) = is_space c && is_blank cs

-- `validate`; `none` is success.
unfoldable pub validate : Config → Option ConfigError
unfolding validate_wireless is_blank
validate cfg =
    if is_blank (codes cfg.account.student_id)
    then some empty_student_id
    else if cfg.heartbeat.enabled && not (str_eq cfg.heartbeat.module_name "gdut")
    then some bad_heartbeat_module
    else if ltb cfg.dial.probe_interval_secs 5
    then some probe_interval_too_short
    else if is_none (probe_target_ip (codes cfg.dial.http_probe_url))
    then some bad_http_probe_url
    else if cfg.wireless.enabled
    then validate_wireless cfg.wireless
    else none
