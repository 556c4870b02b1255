-- ===== src/Supervisor/Reducer/Running.antt =====
-- No handler takes a started supervisor back.
use gdut_net.Base.{
  ℕ, ◌/◌, ◌≡◌, ◌∙◌, refl, Bool, true, false, not, Option, none, some, List, [], arith,
  if◌then◌else◌,
}
use gdut_net.Supervisor.Radio.{
  handle_wireless_sampled, handle_associate_finished, handle_portal_finished, handle_probe_finished,
  handle_wireless_died, world_of, with_sample, tick_brain, after_action, handle_action, act_login,
  act_probe, restart_join, login_lost,
}
use gdut_net.Supervisor.State.{Supervisor}
use gdut_net.Supervisor.Notification.{maybe_notify}
use gdut_net.Supervisor.Types.{
  WirelessSample, Event, started, wake, stop, wireless_died, command, link_sampled,
  watchdog_stepped, wireless_sampled, associate_finished, portal_finished, wlan_probe_finished,
  heartbeat, notify_result, Effect,
}
use gdut_net.Supervisor.Wired.{
  push_event, handle_wake, wake_link, wake_wireless, handle_command, handle_link_sampled,
  link_changed, serve_step, handle_watchdog_stepped, handle_heartbeat, notify_via, after_step,
  step_failing,
}
use gdut_net.Supervisor.Reducer.{handle_stop, dispatch}
use gdut_net.Wireless.Brain
use gdut_net.Wireless.Brain.{Action, Brain}
use gdut_net.Wireless.Portal.{Json}

action_started :
    (a : Action) (n wall : ℕ) (s : Supervisor) → (handle_action a n wall s).0.started ≡ s.started
unfolding handle_action act_login act_probe push_event login_lost
action_started Action.nothing n wall s = ground arith
action_started Action.associate n wall s = ground arith
action_started Action.disassociate n wall s = ground arith
action_started Action.portal_auth n wall s = ground arith
action_started Action.probe_now n wall s = ground arith

after_started :
    (now wall : ℕ) (r : Supervisor × List Effect × Bool)
    → (after_action now wall r).0.started ≡ r.0.started
unfolding after_action restart_join push_event
after_started now wall (t, fx, false) = refl
after_started now wall (t, fx, true) = ground arith

tick_started :
    (b : Brain) (associated : Bool) (now wall : ℕ) (s : Supervisor)
    → (tick_brain b associated now wall s).0.started ≡ s.started
unfolding tick_brain
tick_started b associated now wall s =
    let (next, action) =
      Brain.decide (Brain.set_mode s.mode b) (world_of s associated (now / 1000)) in
    let s1 = record s { brain = some next } in
    after_started now wall (handle_action action (now / 1000) wall s1)
    ∙ action_started action (now / 1000) wall s1

branches_started :
    (x : WirelessSample) (now wall : ℕ) (s s1 s2 : Supervisor) (flies : Bool) (o : Option Brain)
    → s1.started ≡ s.started
    → s2.started ≡ s.started
    → let r : Supervisor × List Effect =
        if not flies
        then (s, [])
        else elim o [ none ↦ (s1, []) | some b ↦ tick_brain b x.associated now wall s2 ] in
      r.0.started ≡ s.started
branches_started x now wall s s1 s2 false o h1 h2 = refl
branches_started x now wall s s1 s2 true none h1 h2 = h1
branches_started x now wall s s1 s2 true (some b) h1 h2 =
    tick_started b x.associated now wall s2 ∙ h2

sampled_started :
    (x : WirelessSample) (now wall : ℕ) (s : Supervisor)
    → (handle_wireless_sampled x now wall s).0.started ≡ s.started
unfolding handle_wireless_sampled
sampled_started x now wall s =
    branches_started x now wall s (record s { wireless_sample_in_flight = false }) (with_sample x s)
      s.wireless_sample_in_flight s.brain refl refl

pub dispatch_started :
    (J : Json) (event : Event) (now wall : ℕ) (s : Supervisor)
    → (dispatch J event now wall s).0.started ≡ s.started
unfolding dispatch handle_wake wake_link wake_wireless handle_command push_event handle_link_sampled
    link_changed serve_step handle_watchdog_stepped handle_heartbeat notify_via maybe_notify
    after_step step_failing handle_stop handle_associate_finished handle_portal_finished
    handle_probe_finished handle_wireless_died
dispatch_started J started now wall s = refl
dispatch_started J wake now wall s = ground arith
dispatch_started J (command cmd) now wall s = ground arith
dispatch_started J (link_sampled up ip) now wall s = ground arith
dispatch_started J (watchdog_stepped st) now wall s = ground arith
dispatch_started J (wireless_sampled x) now wall s = sampled_started x now wall s
dispatch_started J (associate_finished x) now wall s = ground arith
dispatch_started J (portal_finished x) now wall s = ground arith
dispatch_started J (wlan_probe_finished x) now wall s = ground arith
dispatch_started J (heartbeat x) now wall s = ground arith
dispatch_started J (notify_result key d) now wall s = refl
dispatch_started J wireless_died now wall s = ground arith
dispatch_started J stop now wall s = ground arith
