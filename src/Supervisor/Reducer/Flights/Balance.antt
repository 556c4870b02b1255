-- ===== src/Supervisor/Reducer/Flights/Balance.antt =====
-- Over a run, the requests are covered by the events that end them.
use gdut_net.Base.{
  ℕ, ◌+◌, ◌≤◌, ◌≡◌, inl, inr, Bool-cases, ◌∙◌, ap, Bool, true, false, List, [], ◌∷◌, arith,
}
use gdut_net.Supervisor.State.{Supervisor}
use gdut_net.Supervisor.Types.{
  Event, started, wake, stop, wireless_died, command, link_sampled, watchdog_stepped,
  wireless_sampled, associate_finished, portal_finished, wlan_probe_finished, heartbeat,
  notify_result,
}
use gdut_net.Supervisor.Reducer.Running.{dispatch_started}
use gdut_net.Supervisor.Reducer.Lifecycle.{on_stopped, on_running}
use gdut_net.Supervisor.Reducer.Snapshots.{published, react_state, react_effects}
use gdut_net.Supervisor.Reducer.{Input, dispatch, on, run}
use gdut_net.Wireless.Portal.{Json}
use gdut_net.Supervisor.Reducer.Flights.{
  bit, count, count-append, Kind, asks, ends, in_flight, Covered,
}
use gdut_net.Supervisor.Reducer.Flights.WiredSide.{
  wake-Covered, link_sampled-Covered, command-Covered, stepped-Covered, heartbeat-Covered,
  stop-Covered,
}
use gdut_net.Supervisor.Reducer.Flights.Tick.{sampled-Covered}
use gdut_net.Supervisor.Reducer.Flights.WirelessSide.{
  died-Covered, associated-Covered, probed-Covered, portal-Covered,
}

bit-bound : (b : Bool) → bit b ≤ 1
bit-bound true = omega arith
bit-bound false = omega arith

-- How many events end a request of a kind.
pub ended : Kind → List Input → ℕ
ended k [] = 0
ended k ((event, now, wall) ∷ es) = bit (ends k event) + ended k es

step-Covered :
    (J : Json) (k : Kind) (event : Event) (now wall : ℕ) (s : Supervisor)
    → Covered k s
        (dispatch J event now wall s).1
        (bit (ends k event))
        (dispatch J event now wall s).0
unfolding in_flight ends count dispatch
step-Covered J k started now wall s = ground arith
step-Covered J k wake now wall s = wake-Covered k now s
step-Covered J k (command cmd) now wall s = let h = command-Covered k cmd wall s in ground arith
step-Covered J k (link_sampled up ip) now wall s = link_sampled-Covered k up ip now wall s
step-Covered J k (watchdog_stepped st) now wall s =
    let h = stepped-Covered k st now s in ground arith
step-Covered J k (wireless_sampled x) now wall s = sampled-Covered k x now wall s
step-Covered J k (associate_finished x) now wall s = associated-Covered k x now s
step-Covered J k (portal_finished x) now wall s = portal-Covered k J x now wall s
step-Covered J k (wlan_probe_finished x) now wall s = probed-Covered k x wall s
step-Covered J k (heartbeat x) now wall s = let h = heartbeat-Covered k x now s in ground arith
step-Covered J k (notify_result key d) now wall s = ground arith
step-Covered J k wireless_died now wall s = died-Covered k wall s
step-Covered J k stop now wall s = let h = stop-Covered k wall s in ground arith

published-in_flight : (k : Kind) (s : Supervisor) → in_flight k (published s) ≡ in_flight k s
unfolding in_flight
published-in_flight k s = ground arith

on-Covered :
    (J : Json) (k : Kind) (event : Event) (now wall : ℕ) (s : Supervisor)
    → s.started ≡ true
    → ((on J event now wall s).0.started ≡ true)
      × Covered k s (on J event now wall s).1.effects (bit (ends k event)) (on J event now wall s).0
unfolding count
on-Covered J k event now wall s began = elim (Bool-cases s.stopped) [
  | inl over ↦ rw (on_stopped J event now wall s began over) (began, omega arith)
  | inr runs ↦
      let r = dispatch J event now wall s in
      let flag = ap (in_flight k) (react_state J now r.0 r.1) ∙ published-in_flight k r.0 in
      rw (on_running J event now wall s began runs) (
        ap (λ t. t.started) (react_state J now r.0 r.1)
            ∙ dispatch_started J event now wall s
            ∙ began,
        rw (react_effects J now r.0 r.1) (rw flag (step-Covered J k event now wall s)),
      )
]

run-Covered :
    (J : Json) (k : Kind) (es : List Input) (s : Supervisor)
    → s.started ≡ true
    → Covered k s (run J es s).1 (ended k es) (run J es s).0
unfolding count ended
run-Covered J k [] s began = omega arith
run-Covered J k ((event, now, wall) ∷ es) s began =
    let (began', first) = on-Covered J k event now wall s began in
    let rest = run-Covered J k es (on J event now wall s).0 began' in
    rw
      (count-append (asks k) (on J event now wall s).1.effects
        (run J es (on J event now wall s).0).1)
      (omega arith)

-- Once the supervisor has started, for every kind of request that a flag guards (a link sample, a
-- wireless sample, an association, a portal login, a WLAN probe): over any run of events at most
-- one request more is made than there are events in the run that end one, so that at no time two
-- requests of a kind are out; where none was out before, the requests made, less the one that may
-- still be out afterwards, are covered by those events.
pub one_in_flight :
    (J : Json) (k : Kind) (es : List Input) (s : Supervisor)
    → s.started ≡ true
    → (count (asks k) (run J es s).1 ≤ ended k es + 1)
      × (count (asks k) (run J es s).1 + bit (in_flight k s)
          ≤ ended k es + bit (in_flight k (run J es s).0))
one_in_flight J k es s began =
    let h = run-Covered J k es s began in
    let b = bit-bound (in_flight k (run J es s).0) in (omega arith, omega arith)
