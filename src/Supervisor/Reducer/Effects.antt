-- ===== src/Supervisor/Reducer/Effects.antt =====
-- The effects of a reaction as the executor meets them: the events that they lead to, and the link
-- state that the watchdog is told.
pub mod Radio
use gdut_net.Base.{
  ℕ, All, ◌+◌, ◌≤◌, ◌≡◌, refl, ap, sym, ◌∙◌, Bool, true, false, Option, none, some, List, [], ◌∷◌,
  ◌++◌, arith,
}
use gdut_net.Protocol.{Command, redial, set_mode}
use gdut_net.Supervisor.Notification.{maybe_notify}
use gdut_net.Supervisor.Radio.{
  handle_associate_finished, handle_portal_finished, handle_probe_finished, handle_wireless_died,
}
use gdut_net.Supervisor.State.{Supervisor}
use gdut_net.Supervisor.Types.{
  Event, started, wake, stop, wireless_died, command, link_sampled, watchdog_stepped,
  wireless_sampled, associate_finished, portal_finished, wlan_probe_finished, heartbeat,
  notify_result, Effect, step_watchdog, sample_link, sample_wireless, set_watchdog_link, notify,
  lane, wireless, Lane, main,
}
use gdut_net.Supervisor.Wired.{
  push_event, handle_started, handle_wake, wake_link, wake_wireless, handle_command,
  handle_link_sampled, link_changed, serve_step, handle_watchdog_stepped, handle_heartbeat,
  notify_via, after_step, step_failing, same_link, or_link,
}
use gdut_net.Supervisor.Reducer.{
  handle_stop, dispatch, react, on, on_flags, first_event, ignore, Reaction,
}
use gdut_net.Supervisor.Reducer.Effects.Radio.{OnWireless, IsQuiet, sampled-IsQuiet}
use gdut_net.Supervisor.Reducer.Snapshots.{react_state, react_effects}
use gdut_net.Wireless.Portal.{Json}

-- How many events an event leads to, itself included, at most.
unfoldable pub weight : Event → ℕ
weight wake = 5
weight (link_sampled up ip) = 3
weight (command cmd) = 3
weight (watchdog_stepped step) = 2
weight (heartbeat status) = 2
weight started = 2
weight _ = 1

-- The same of the event that the execution of an effect gives back.
unfoldable pub effect_cost : Effect → ℕ
effect_cost step_watchdog = 2
effect_cost sample_link = 3
effect_cost sample_wireless = 1
effect_cost (notify key title body) = 1
effect_cost _ = 0

unfoldable pub cost : List Effect → ℕ
unfolding effect_cost
cost [] = 0
cost (e ∷ es) = effect_cost e + cost es

-- The link state that the watchdog has after the effects, of the one that it had.
unfoldable pub told : List Effect → Option Bool → Option Bool
told [] link = link
told (set_watchdog_link up ∷ es) link = told es up
told (_ ∷ es) link = told es link

-- Less is asked for than the event is worth, and the watchdog is told of a changed link.
abbrev pub IsPaid : ℕ → Supervisor → Supervisor × List Effect → Type 0
IsPaid worth s r = (cost r.1 + 1 ≤ worth) × (told r.1 s.eth_link ≡ r.0.eth_link)

quiet_cost : (es : List Effect) → All OnWireless es → cost es ≡ 0
unfolding cost lane effect_cost
quiet_cost [] h = refl
quiet_cost (e ∷ es) (w, h) = ground (arith, w, quiet_cost es h)

quiet_told : (es : List Effect) (link : Option Bool) → All OnWireless es → told es link ≡ link
unfolding told lane
quiet_told [] link h = refl
quiet_told (e ∷ es) link (w, h) = ground (arith, w, quiet_told es link h)

wake-IsPaid : (now : ℕ) (s : Supervisor) → IsPaid 5 s (handle_wake now s)
unfolding cost effect_cost told handle_wake wake_link wake_wireless
wake-IsPaid now s = ground arith

dispatch-IsPaid :
    (J : Json) (event : Event) (now wall : ℕ) (s : Supervisor)
    → IsPaid (weight event) s (dispatch J event now wall s)
unfolding weight cost effect_cost told dispatch handle_command push_event handle_link_sampled
    link_changed serve_step handle_watchdog_stepped handle_heartbeat notify_via maybe_notify
    after_step step_failing handle_stop handle_associate_finished handle_portal_finished
    handle_probe_finished handle_wireless_died
dispatch-IsPaid J started now wall s = ground arith
dispatch-IsPaid J wake now wall s = wake-IsPaid now s
dispatch-IsPaid J (command cmd) now wall s = ground arith
dispatch-IsPaid J (link_sampled up ip) now wall s = ground arith
dispatch-IsPaid J (watchdog_stepped st) now wall s = ground arith
dispatch-IsPaid J (wireless_sampled x) now wall s =
    let (e, h) = sampled-IsQuiet x now wall s in
    let free = quiet_cost _ h in
    let same = quiet_told _ s.eth_link h in (omega (arith, free), cc (same, e))
dispatch-IsPaid J (associate_finished x) now wall s = ground arith
dispatch-IsPaid J (portal_finished x) now wall s = ground arith
dispatch-IsPaid J (wlan_probe_finished x) now wall s = ground arith
dispatch-IsPaid J (heartbeat x) now wall s = ground arith
dispatch-IsPaid J (notify_result key d) now wall s = ground arith
dispatch-IsPaid J wireless_died now wall s = ground arith
dispatch-IsPaid J stop now wall s = ground arith

started-IsPaid : (now wall : ℕ) (s : Supervisor) → IsPaid 2 s (handle_started now wall s)
unfolding cost effect_cost told handle_started push_event
started-IsPaid now wall s = ground arith

-- A reaction, as the state and the effects.
abbrev pub outcome : Supervisor × Reaction → Supervisor × List Effect
outcome r = (r.0, r.1.effects)

react-IsPaid :
    (J : Json) (worth now : ℕ) (s : Supervisor) (r : Supervisor × List Effect)
    → IsPaid worth s r
    → IsPaid worth s (outcome (react J now r))
react-IsPaid J worth now s (t, fx) (paid, same) =
    rw (react_effects J now t fx) (paid, same ∙ sym (ap (λ x. x.eth_link) (react_state J now t fx)))

first-IsPaid :
    (J : Json) (event : Event) (now wall : ℕ) (s : Supervisor)
    → IsPaid (weight event) s (outcome (first_event J event now wall s))
unfolding first_event ignore weight cost told
first-IsPaid J started now wall s =
    react-IsPaid J 2 now s (handle_started now wall s) (started-IsPaid now wall s)
first-IsPaid J wake now wall s = (omega arith, refl)
first-IsPaid J (link_sampled up ip) now wall s = (omega arith, refl)
first-IsPaid J (command cmd) now wall s = (omega arith, refl)
first-IsPaid J (watchdog_stepped step) now wall s = (omega arith, refl)
first-IsPaid J (heartbeat status) now wall s = (omega arith, refl)
first-IsPaid J _ now wall s = (omega arith, refl)

ignored-IsPaid :
    (J : Json) (event : Event) (s : Supervisor) → IsPaid (weight event) s (outcome (ignore J s))
unfolding ignore weight cost told
ignored-IsPaid J event s = ground arith

flags-IsPaid :
    (J : Json) (began over : Bool) (event : Event) (now wall : ℕ) (s : Supervisor)
    → IsPaid (weight event) s (outcome (on_flags J began over event now wall s))
unfolding on_flags
flags-IsPaid J false over event now wall s = first-IsPaid J event now wall s
flags-IsPaid J true true event now wall s = ignored-IsPaid J event s
flags-IsPaid J true false event now wall s =
    react-IsPaid J (weight event) now s (dispatch J event now wall s)
      (dispatch-IsPaid J event now wall s)

pub on-IsPaid :
    (J : Json) (event : Event) (now wall : ℕ) (s : Supervisor)
    → IsPaid (weight event) s (outcome (on J event now wall s))
unfolding on
on-IsPaid J event now wall s = flags-IsPaid J s.started s.stopped event now wall s
