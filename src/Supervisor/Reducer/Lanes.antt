-- ===== src/Supervisor/Reducer/Lanes.antt =====
-- A supervisor without a wireless manager.
use gdut_net.Base.{
  ℕ, ◌≡◌, refl, ap, ◌∙◌, Bool, true, false, none, List, [], ◌∷◌, arith, All, All-append,
}
use gdut_net.Config.{Config}
use gdut_net.Supervisor.Radio.{
  handle_wireless_sampled, handle_associate_finished, handle_portal_finished, handle_probe_finished,
  handle_wireless_died,
}
use gdut_net.Supervisor.State
use gdut_net.Supervisor.State.{Supervisor}
use gdut_net.Supervisor.Notification.{maybe_notify}
use gdut_net.Supervisor.Types.{
  lane, main, Event, started, wake, stop, wireless_died, command, link_sampled, watchdog_stepped,
  wireless_sampled, associate_finished, portal_finished, wlan_probe_finished, heartbeat,
  notify_result, Effect,
}
use gdut_net.Supervisor.Wired.{
  push_event, handle_started, handle_wake, wake_link, wake_wireless, handle_command,
  handle_link_sampled, link_changed, serve_step, handle_watchdog_stepped, handle_heartbeat,
  notify_via, after_step, step_failing,
}
use gdut_net.Supervisor.Reducer.{
  handle_stop, dispatch, react, on, on_flags, first_event, ignore, run, Input,
}
use gdut_net.Supervisor.Reducer.Snapshots.{react_state, react_effects}
use gdut_net.Wireless.Portal.{Json}

-- An effect of the main lane.
abbrev pub OnMain : Effect → Type 0
OnMain e = lane e ≡ main

-- No manager afterwards, and no effect of its lane.
abbrev pub Wired : Supervisor × List Effect → Type 0
Wired r = (r.0.brain ≡ none) × All OnMain r.1

wake-Wired : (now : ℕ) (s : Supervisor) → s.brain ≡ none → Wired (handle_wake now s)
unfolding lane handle_wake wake_link wake_wireless
wake-Wired now s e = ground arith

dispatch-Wired :
    (J : Json) (event : Event) (now wall : ℕ) (s : Supervisor)
    → s.brain ≡ none
    → Wired (dispatch J event now wall s)
unfolding lane dispatch handle_wake wake_link wake_wireless handle_command push_event
    handle_link_sampled link_changed serve_step handle_watchdog_stepped handle_heartbeat notify_via
    maybe_notify after_step step_failing handle_stop handle_associate_finished
    handle_portal_finished handle_probe_finished handle_wireless_died handle_wireless_sampled
dispatch-Wired J started now wall s e = ground arith
dispatch-Wired J wake now wall s e = wake-Wired now s e
dispatch-Wired J (command cmd) now wall s e = ground arith
dispatch-Wired J (link_sampled up ip) now wall s e = ground arith
dispatch-Wired J (watchdog_stepped st) now wall s e = ground arith
dispatch-Wired J (wireless_sampled x) now wall s e = ground arith
dispatch-Wired J (associate_finished x) now wall s e = ground arith
dispatch-Wired J (portal_finished x) now wall s e = ground arith
dispatch-Wired J (wlan_probe_finished x) now wall s e = ground arith
dispatch-Wired J (heartbeat x) now wall s e = ground arith
dispatch-Wired J (notify_result key d) now wall s e = ground arith
dispatch-Wired J wireless_died now wall s e = ground arith
dispatch-Wired J stop now wall s e = ground arith

started-Wired : (now wall : ℕ) (s : Supervisor) → s.brain ≡ none → Wired (handle_started now wall s)
unfolding lane handle_started push_event
started-Wired now wall s e = ground arith

react-Wired :
    (J : Json) (now : ℕ) (r : Supervisor × List Effect)
    → Wired r
    → ((react J now r).0.brain ≡ none) × All OnMain (react J now r).1.effects
react-Wired J now (s, fx) (e, h) =
    (ap (λ t. t.brain) (react_state J now s fx) ∙ e, rw (react_effects J now s fx) h)

first-Wired :
    (J : Json) (event : Event) (now wall : ℕ) (s : Supervisor)
    → s.brain ≡ none
    → ((first_event J event now wall s).0.brain ≡ none)
      × All OnMain (first_event J event now wall s).1.effects
unfolding first_event ignore
first-Wired J started now wall s e =
    react-Wired J now (handle_started now wall s) (started-Wired now wall s e)
first-Wired J _ now wall s e = (e, tt)

flags-Wired :
    (J : Json) (began over : Bool) (event : Event) (now wall : ℕ) (s : Supervisor)
    → s.brain ≡ none
    → ((on_flags J began over event now wall s).0.brain ≡ none)
      × All OnMain (on_flags J began over event now wall s).1.effects
unfolding on_flags ignore
flags-Wired J false over event now wall s e = first-Wired J event now wall s e
flags-Wired J true true event now wall s e = (e, tt)
flags-Wired J true false event now wall s e =
    react-Wired J now (dispatch J event now wall s) (dispatch-Wired J event now wall s e)

run-Wired : (J : Json) (es : List Input) (s : Supervisor) → s.brain ≡ none → Wired (run J es s)
unfolding on
run-Wired J [] s e = (e, tt)
run-Wired J ((event, now, wall) ∷ es) s e =
    let (e', h) = flags-Wired J s.started s.stopped event now wall s e in
    let (e'', rest) = run-Wired J es (on J event now wall s).0 e' in
    (e'', All-append OnMain (on J event now wall s).1.effects _ h rest)

-- Where the wireless side is disabled in the configuration, whatever events follow in whatever order,
-- the supervisor never has a wireless manager, and every effect that it asks for is on the main lane:
-- no association, no route, no metric, no login and no probe.
pub wired_only :
    (J : Json) (es : List Input) (cfg : Config)
    → cfg.wireless.enabled ≡ false
    → ((run J es (State.new cfg)).0.brain ≡ none)
      × All (λ e. lane e ≡ main) (run J es (State.new cfg)).1
unfolding State.new State.without_wireless
wired_only J es cfg off = run-Wired J es (State.new cfg) (rw off refl)
