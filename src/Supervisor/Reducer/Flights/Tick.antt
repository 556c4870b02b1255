-- ===== src/Supervisor/Reducer/Flights/Tick.antt =====
-- A wireless sample covers its requests.
use gdut_net.Base.{
  ℕ, ◌/◌, ◌≡◌, ◌⊎◌, inl, inr, sym, refl, Bool, true, false, not, Option, none, some, List, [],
  arith, if◌then◌else◌,
}
use gdut_net.Supervisor.Radio.{
  handle_wireless_sampled, world_of, with_sample, tick_brain, after_action, handle_action,
  act_login, act_probe, update_metric, metric_effects, restart_join, login_lost,
}
use gdut_net.Supervisor.State.{Supervisor}
use gdut_net.Supervisor.Types.{WirelessSample, wireless_sampled, Effect}
use gdut_net.Supervisor.Wired.{push_event}
use gdut_net.Wireless.Brain
use gdut_net.Wireless.Brain.{Action, Brain}
use gdut_net.Supervisor.Reducer.Flights.{
  bit, count, count-append, Kind, link_sampling, wireless_sampling, association, login, probing,
  asks, ends, in_flight, Covered,
}

metric-silent : (k : Kind) (s : Supervisor) → count (asks k) (update_metric s) ≡ 0
unfolding count update_metric metric_effects asks
metric-silent k s = ground arith

action-Covered :
    (k : Kind) (a : Action) (n wall : ℕ) (s : Supervisor)
    → Covered k s (handle_action a n wall s).1 0 (handle_action a n wall s).0
unfolding count asks in_flight handle_action act_login act_probe push_event login_lost
action-Covered k Action.nothing n wall s = ground arith
action-Covered k Action.associate n wall s = ground arith
action-Covered k Action.disassociate n wall s = ground arith
action-Covered k Action.portal_auth n wall s = ground arith
action-Covered k Action.probe_now n wall s = ground arith

after-Covered :
    (k : Kind) (now wall : ℕ) (s : Supervisor) (r : Supervisor × List Effect × Bool)
    → Covered k s r.1 0 r.0
    → Covered k s (after_action now wall r).1 0 (after_action now wall r).0
unfolding after_action restart_join push_event in_flight
after-Covered k now wall s (t, fx, false) h = h
after-Covered k now wall s (t, fx, true) h =
    let quiet = metric-silent k t in
    let sum = count-append (asks k) fx (update_metric t) in ground arith

with_brain-in_flight :
    (k : Kind) (s : Supervisor) (b : Brain)
    → in_flight k (record s { brain = some b }) ≡ in_flight k s
unfolding in_flight
with_brain-in_flight k s b = ground arith

tick-Covered :
    (k : Kind) (b : Brain) (associated : Bool) (now wall : ℕ) (s : Supervisor)
    → Covered k s (tick_brain b associated now wall s).1 0 (tick_brain b associated now wall s).0
unfolding tick_brain
tick-Covered k b associated now wall s =
    let (next, action) =
      Brain.decide (Brain.set_mode s.mode b) (world_of s associated (now / 1000)) in
    let s1 = record s { brain = some next } in
    let r = handle_action action (now / 1000) wall s1 in
    after-Covered k now wall s r
      (rw (sym (with_brain-in_flight k s next)) (action-Covered k action (now / 1000) wall s1))

-- A sample that ends its flight.
accepted-Covered :
    (k : Kind) (x : WirelessSample) (s s1 : Supervisor) (r : Supervisor × List Effect)
    → (k ≡ wireless_sampling) ⊎ (in_flight k s1 ≡ in_flight k s)
    → Covered k s1 r.1 0 r.0
    → Covered k s r.1 (bit (ends k (wireless_sampled x))) r.0
unfolding in_flight ends
accepted-Covered k x s s1 r h c = ground arith

branches-Covered :
    (k : Kind) (x : WirelessSample) (now wall : ℕ) (s s1 s2 : Supervisor) (flies : Bool)
    (o : Option Brain)
    → (k ≡ wireless_sampling)
      ⊎ ((in_flight k s1 ≡ in_flight k s) × (in_flight k s2 ≡ in_flight k s))
    → let r : Supervisor × List Effect =
        if not flies
        then (s, [])
        else elim o [ none ↦ (s1, []) | some b ↦ tick_brain b x.associated now wall s2 ] in
      Covered k s r.1 (bit (ends k (wireless_sampled x))) r.0
unfolding count in_flight ends
branches-Covered k x now wall s s1 s2 false o h = ground arith
branches-Covered k x now wall s s1 s2 true none h = ground arith
branches-Covered k x now wall s s1 s2 true (some b) h =
    accepted-Covered k x s s2 (tick_brain b x.associated now wall s2) (ground arith)
      (tick-Covered k b x.associated now wall s2)

-- The states in which a sample is handled differ in no other flag.
sampling_flags :
    (k : Kind) (x : WirelessSample) (s : Supervisor)
    → (k ≡ wireless_sampling)
      ⊎ ((in_flight k (record s { wireless_sample_in_flight = false }) ≡ in_flight k s)
          × (in_flight k (with_sample x s) ≡ in_flight k s))
unfolding in_flight
sampling_flags wireless_sampling x s = inl refl
sampling_flags link_sampling x s = inr (refl, refl)
sampling_flags association x s = inr (refl, refl)
sampling_flags login x s = inr (refl, refl)
sampling_flags probing x s = inr (refl, refl)

pub sampled-Covered :
    (k : Kind) (x : WirelessSample) (now wall : ℕ) (s : Supervisor)
    → Covered k s
        (handle_wireless_sampled x now wall s).1
        (bit (ends k (wireless_sampled x)))
        (handle_wireless_sampled x now wall s).0
unfolding handle_wireless_sampled
sampled-Covered k x now wall s =
    branches-Covered k x now wall s (record s { wireless_sample_in_flight = false })
      (with_sample x s) s.wireless_sample_in_flight s.brain (sampling_flags k x s)
