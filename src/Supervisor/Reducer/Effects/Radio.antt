-- ===== src/Supervisor/Reducer/Effects/Radio.antt =====
-- A wireless sample leads to effects of the wireless lane alone.
use gdut_net.Base.{
  ℕ, ◌/◌, ◌≡◌, refl, Bool, true, false, not, Option, none, some, List, [], All, All-append, arith,
  if◌then◌else◌,
}
use gdut_net.Supervisor.Radio.{
  handle_wireless_sampled, world_of, with_sample, tick_brain, after_action, handle_action,
  act_login, act_probe, update_metric, metric_effects, restart_join, login_lost,
}
use gdut_net.Supervisor.State.{Supervisor}
use gdut_net.Supervisor.Types.{WirelessSample, Effect, wireless, lane}
use gdut_net.Supervisor.Wired.{push_event}
use gdut_net.Wireless.Brain
use gdut_net.Wireless.Brain.{Action, Brain}

abbrev pub OnWireless : Effect → Type 0
OnWireless e = lane e ≡ wireless

-- The link state is as it was, and the effects are all on the wireless lane.
abbrev pub IsQuiet : Supervisor → Supervisor × List Effect → Type 0
IsQuiet s r = (r.0.eth_link ≡ s.eth_link) × All OnWireless r.1

metric-IsQuiet : (s : Supervisor) → All OnWireless (update_metric s)
unfolding update_metric metric_effects lane
metric-IsQuiet s = ground arith

action-IsQuiet :
    (a : Action) (n wall : ℕ) (s : Supervisor)
    → ((handle_action a n wall s).0.eth_link ≡ s.eth_link)
      × All OnWireless (handle_action a n wall s).1
unfolding handle_action act_login act_probe push_event login_lost lane
action-IsQuiet Action.nothing n wall s = ground arith
action-IsQuiet Action.associate n wall s = ground arith
action-IsQuiet Action.disassociate n wall s = ground arith
action-IsQuiet Action.portal_auth n wall s = ground arith
action-IsQuiet Action.probe_now n wall s = ground arith

after-IsQuiet :
    (now wall : ℕ) (s : Supervisor) (r : Supervisor × List Effect × Bool)
    → (r.0.eth_link ≡ s.eth_link)
    → All OnWireless r.1
    → IsQuiet s (after_action now wall r)
unfolding after_action restart_join push_event
after-IsQuiet now wall s (t, fx, false) e h = (e, h)
after-IsQuiet now wall s (t, fx, true) e h =
    (ground arith, All-append OnWireless fx (update_metric t) h (metric-IsQuiet t))

tick-IsQuiet :
    (b : Brain) (associated : Bool) (now wall : ℕ) (s : Supervisor)
    → IsQuiet s (tick_brain b associated now wall s)
unfolding tick_brain
tick-IsQuiet b associated now wall s =
    let (next, action) =
      Brain.decide (Brain.set_mode s.mode b) (world_of s associated (now / 1000)) in
    let s1 = record s { brain = some next } in
    let (e, h) = action-IsQuiet action (now / 1000) wall s1 in
    after-IsQuiet now wall s (handle_action action (now / 1000) wall s1) e h

branches-IsQuiet :
    (x : WirelessSample) (now wall : ℕ) (s s1 s2 : Supervisor) (flies : Bool) (o : Option Brain)
    → s1.eth_link ≡ s.eth_link
    → s2.eth_link ≡ s.eth_link
    → let r : Supervisor × List Effect =
        if not flies
        then (s, [])
        else elim o [ none ↦ (s1, []) | some b ↦ tick_brain b x.associated now wall s2 ] in
      IsQuiet s r
branches-IsQuiet x now wall s s1 s2 false o e e' = (refl, tt)
branches-IsQuiet x now wall s s1 s2 true none e e' = (e, tt)
branches-IsQuiet x now wall s s1 s2 true (some b) e e' =
    let (q, h) = tick-IsQuiet b x.associated now wall s2 in (cc (q, e'), h)

pub sampled-IsQuiet :
    (x : WirelessSample) (now wall : ℕ) (s : Supervisor)
    → IsQuiet s (handle_wireless_sampled x now wall s)
unfolding handle_wireless_sampled
sampled-IsQuiet x now wall s =
    branches-IsQuiet x now wall s (record s { wireless_sample_in_flight = false }) (with_sample x s)
      s.wireless_sample_in_flight s.brain refl refl
