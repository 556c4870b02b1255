-- ===== src/Supervisor/Reducer.antt =====
-- `Supervisor::on` of src/supervisor.rs: one event, one reaction.
pub mod Running
pub mod Lifecycle
pub mod Flights
pub mod Waking
pub mod Snapshots
pub mod Login
pub mod Joining
pub mod Lanes
pub mod Effects
use gdut_net.Base.{
  ℕ, String, Bool, true, false, not, Option, none, some, List, [], ◌∷◌, ◌++◌, ◌&&◌, ◌||◌, min, max,
  if◌then◌else◌, is_some,
}
use mathlib.Core.Logic.{ite}
use gdut_net.Protocol.{StateSnapshot, OptionStateSnapshot-discrete}
use gdut_net.Supervisor.Notification.{on_result}
use gdut_net.Supervisor.Radio.{
  handle_wireless_sampled, handle_associate_finished, handle_portal_finished, handle_probe_finished,
  handle_wireless_died,
}
use gdut_net.Supervisor.State.{Supervisor, compose}
use gdut_net.Supervisor.Types.{
  Event, started, wake, stop, wireless_died, command, link_sampled, watchdog_stepped,
  wireless_sampled, associate_finished, portal_finished, wlan_probe_finished, heartbeat,
  notify_result, Effect, hangup, teardown_routes, disassociate,
}
use gdut_net.Supervisor.Wired.{
  push_event, handle_started, handle_wake, handle_command, handle_link_sampled,
  handle_watchdog_stepped, handle_heartbeat,
}
use gdut_net.Wireless.Portal.{Json}

pub record Reaction : Type 0 where
  pub effects : List Effect
  pub snapshot : Option StateSnapshot
  pub wake_at : Option ℕ

unfoldable pub handle_stop : ℕ → Supervisor → Supervisor × List Effect
unfolding push_event
handle_stop wall s =
    let s1 = record s { stopped = true } in
    let reported = record (push_event wall "Wireless: manager stopped" s1) {
      wireless_stopped_reported = true;
    } in
    if s.cfg.wireless.enabled && not s.wireless_died && is_some s.brain
    then (
      if s.wireless_stopped_reported then s1 else reported,
      hangup ∷ teardown_routes ∷ disassociate ∷ [],
    )
    else (s1, hangup ∷ [])

-- `publish`: a snapshot that differs from the last one published.
unfoldable pub publish : Supervisor → Supervisor × Option StateSnapshot
publish s =
    let snap = compose s in
    ite (OptionStateSnapshot-discrete s.last_snapshot (some snap)) (s, none)
      (record s { last_snapshot = some snap }, some snap)

-- The earliest of the timers, and now at the earliest.
unfoldable pub next_wake : ℕ → Supervisor → ℕ
next_wake now s =
    let poll = s.link_poll_at in
    let stepped : ℕ = elim s.watchdog_deadline [
      | none ↦ poll
      | some deadline ↦ min poll deadline
    ] in
    let ticked = if is_some s.brain then min stepped s.wireless_tick_at else stepped in
    max ticked now

-- A handler that pushes no effects.
abbrev pub silent : Supervisor → Supervisor × List Effect
silent s = (s, [])

-- An event with the two times that the reducer reads.
abbrev pub Input : Type 0
Input = Event × ℕ × ℕ

module _ (J : Json) where
  -- The match of `on` on the event, between Started and Stop.
  unfoldable pub dispatch : Event → ℕ → ℕ → Supervisor → Supervisor × List Effect
  dispatch started now wall s = (s, [])
  dispatch wake now wall s = handle_wake now s
  dispatch (command cmd) now wall s = handle_command cmd wall s
  dispatch (link_sampled up ppp_ip) now wall s = handle_link_sampled up ppp_ip now wall s
  dispatch (watchdog_stepped step) now wall s = handle_watchdog_stepped step now s
  dispatch (wireless_sampled sample) now wall s = handle_wireless_sampled sample now wall s
  dispatch (associate_finished res) now wall s = silent (handle_associate_finished now s)
  dispatch (portal_finished attempt) now wall s =
      silent (handle_portal_finished J attempt now wall s)
  dispatch (wlan_probe_finished verdict) now wall s = silent (handle_probe_finished verdict wall s)
  dispatch (heartbeat status) now wall s = handle_heartbeat status now s
  dispatch (notify_result key delivered) now wall s =
      silent (record s { notifications = on_result key delivered now s.notifications })
  dispatch wireless_died now wall s = silent (handle_wireless_died wall s)
  dispatch stop now wall s = handle_stop wall s

  -- What a handled event publishes, and when to wake.
  pub react : ℕ → Supervisor × List Effect → Supervisor × Reaction
  unfolding publish next_wake
  react now (s, effects) =
      let (s', snapshot) = publish s in
      (
        s',
        record {
          effects = effects;
          snapshot = snapshot;
          wake_at = if s'.started && not s'.stopped then some (next_wake now s') else none;
        },
      )

  -- An event that is not handled.
  pub ignore : Supervisor → Supervisor × Reaction
  ignore s = (s, record { effects = []; snapshot = none; wake_at = none })

  pub first_event : Event → ℕ → ℕ → Supervisor → Supervisor × Reaction
  unfolding ignore
  first_event started now wall s = react now (handle_started now wall s)
  first_event _ now wall s = ignore s

  -- The body of `on`, of the flags `started` and `stopped`.
  unfoldable pub on_flags : Bool → Bool → Event → ℕ → ℕ → Supervisor → Supervisor × Reaction
  unfolding first_event ignore
  on_flags false stopped event now wall s = first_event event now wall s
  on_flags true true event now wall s = ignore s
  on_flags true false event now wall s = react now (dispatch event now wall s)

  -- `on`, with the monotonic milliseconds and the wall clock's seconds that it reads.
  unfoldable pub on : Event → ℕ → ℕ → Supervisor → Supervisor × Reaction
  unfolding on_flags
  on event now wall s = on_flags s.started s.stopped event now wall s

  -- A sequence of events, and all the effects that they cause.
  abbrev pub run : List Input → Supervisor → Supervisor × List Effect
  run [] s = (s, [])
  run ((event, now, wall) ∷ es) s =
      let (s1, r) = on event now wall s in
      let (s2, effects) = run es s1 in (s2, r.effects ++ effects)
