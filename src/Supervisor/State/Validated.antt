-- ===== src/Supervisor/State/Validated.antt =====
-- What `new` of src/supervisor.rs relies on of a validated configuration.
use gdut_net.Base.{◌≤◌, ◌≡◌, true, none, is_some, arith}
use gdut_net.Config.{Config, validate, validate_wireless}
use gdut_net.Supervisor.State.{without_wireless, with_targets, new}

-- A configuration that validation accepts and that enables the wireless side starts a supervisor
-- with a wireless manager, that has the addresses of the portal and of the probed host, and whose
-- two debounce times are at least a second; the watchdog then probes at most every 5 seconds.
pub validated_has_manager :
    (cfg : Config)
    → validate cfg ≡ none
    → cfg.wireless.enabled ≡ true
    → (is_some (new cfg).brain ≡ true)
      × (is_some (new cfg).portal_ip ≡ true)
      × (is_some (new cfg).probe_ip ≡ true)
      × (1 ≤ cfg.wireless.takeover_after_secs)
      × (1 ≤ cfg.wireless.release_after_secs)
      × (5 ≤ cfg.dial.probe_interval_secs)
unfolding validate validate_wireless new with_targets without_wireless
validated_has_manager cfg ok on = ground arith
