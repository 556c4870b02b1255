-- ===== src/Supervisor/Reducer/Flights.antt =====
-- Requests in flight: what the reducer asks for, the events that answer, and the flags between.
pub mod WiredSide
pub mod Tick
pub mod WirelessSide
pub mod Balance
use gdut_net.Base.{
  ℕ, String, ◌+◌, ◌/◌, ◌≤◌, ◌≡◌, ◌⊎◌, inl, inr, sym, Bool-cases, Option-cases, refl, Bool, true,
  false, not, Option, none, some, List, [], ◌∷◌, ◌++◌, ◌&&◌, arith, if◌then◌else◌,
}
use gdut_net.Ipv4.{ipv4_text}
use gdut_net.Protocol.{Command, redial, set_mode, HeartbeatStatus}
use gdut_net.Probe.{alive, link_down, kicked}
use gdut_net.Supervisor.Radio.{
  handle_wireless_sampled, handle_associate_finished, handle_portal_finished, handle_probe_finished,
  handle_wireless_died, world_of, tick_brain, after_action, handle_action, act_login, act_probe,
  update_metric, metric_effects, restart_join, login_lost,
}
use gdut_net.Supervisor.State.{Supervisor}
use gdut_net.Supervisor.Notification.{maybe_notify}
use gdut_net.Supervisor.Types.{
  WirelessSample, Event, started, wake, stop, wireless_died, command, link_sampled,
  watchdog_stepped, wireless_sampled, associate_finished, portal_finished, wlan_probe_finished,
  heartbeat, notify_result, Effect, sample_link, sample_wireless, portal_auth, associate,
  wlan_probe,
}
use gdut_net.Supervisor.Wired.{
  push_event, handle_started, handle_wake, wake_link, wake_wireless, handle_command,
  handle_link_sampled, link_changed, serve_step, handle_watchdog_stepped, handle_heartbeat,
  notify_via, after_step, step_failing,
}
use gdut_net.Supervisor.Reducer.{handle_stop, dispatch, react, on, run}
use gdut_net.Wireless.Brain
use gdut_net.Wireless.Brain.{Action, Brain}
use gdut_net.Wireless.Portal.{Json}

abbrev pub bit : Bool → ℕ
bit false = 0
bit true = 1

-- How many effects satisfy a test.
unfoldable pub count : (Effect → Bool) → List Effect → ℕ
count p [] = 0
count p (e ∷ es) = bit (p e) + count p es

-- The requests that are tracked by a flag.
pub data Kind : Type 0 where
  link_sampling wireless_sampling association login probing : Kind

-- The effect that makes the request.
unfoldable pub asks : Kind → Effect → Bool
asks link_sampling sample_link = true
asks wireless_sampling sample_wireless = true
asks association (associate p) = true
asks login (portal_auth ip t) = true
asks probing (wlan_probe ip g u) = true
asks _ _ = false

-- The event that ends it: its result or, on the wireless side, the death of the manager.
unfoldable pub ends : Kind → Event → Bool
ends link_sampling (link_sampled up ip) = true
ends wireless_sampling (wireless_sampled x) = true
ends association (associate_finished x) = true
ends login (portal_finished x) = true
ends probing (wlan_probe_finished x) = true
ends wireless_sampling wireless_died = true
ends association wireless_died = true
ends login wireless_died = true
ends probing wireless_died = true
ends _ _ = false

-- The flag.
pub in_flight : Kind → Supervisor → Bool
in_flight link_sampling s = s.sample_in_flight
in_flight wireless_sampling s = s.wireless_sample_in_flight
in_flight association s = s.associate_in_flight
in_flight login s = s.auth_in_flight
in_flight probing s = s.probe_in_flight

pub count-append :
    (p : Effect → Bool) (xs ys : List Effect) → count p (xs ++ ys) ≡ count p xs + count p ys
unfolding count
count-append p [] ys = omega arith
count-append p (x ∷ xs) ys = rw (count-append p xs ys) (omega arith)

-- The balance of one kind: the requests made, and the one that was in flight, are covered.
abbrev pub Covered : Kind → Supervisor → List Effect → ℕ → Supervisor → Type 0
Covered k s fx n s' = count (asks k) fx + bit (in_flight k s) ≤ bit (in_flight k s') + n
