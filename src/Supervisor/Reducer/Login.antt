-- ===== src/Supervisor/Reducer/Login.antt =====
-- The portal login of src/supervisor.rs and the route that it takes.
use gdut_net.Base.{
  ℕ, ◌/◌, ◌≡◌, ◌⊎◌, inl, inr, sym, refl, Bool, true, false, not, Option, none, some, List, [], ◌∷◌,
  ◌++◌, arith, is_none, ◌||◌, append_assoc, if◌then◌else◌,
}
use gdut_net.Backoff.{from_secs}
use gdut_net.Ipv4.{Ipv4Addr}
use gdut_net.Supervisor.Radio.{
  handle_wireless_sampled, tick_brain, after_action, handle_action, act_login, act_probe,
  update_metric, metric_effects, world_of, with_sample,
}
use gdut_net.Supervisor.State.{Supervisor}
use gdut_net.Supervisor.Types.{
  WlanSample, WirelessSample, Effect, portal_auth, acquire_wireless_egress, settle,
}
use gdut_net.Wireless.Brain
use gdut_net.Wireless.Brain.{Action, Brain}
use gdut_net.Supervisor.Reducer.Flights.{count, count-append, login, asks}

-- The route by a gateway and an interface, the time to settle, the login from an address.
abbrev pub login_effects : Ipv4Addr → ℕ → Ipv4Addr → List Effect
login_effects gateway ifindex ip =
    acquire_wireless_egress (record { gateway = gateway; ifindex = ifindex })
    ∷ settle (from_secs 3)
    ∷ portal_auth ip (from_secs 32)
    ∷ []

-- No login is asked for, or the effects begin with one on a WLAN whose gateway is known.
abbrev pub BehindRoute : Option WlanSample → List Effect → Type 0
BehindRoute o fx =
    (count (asks login) fx ≡ 0)
    ⊎ ((wlan : WlanSample) × (gateway : Ipv4Addr) × (rest : List Effect) × (o ≡ some wlan)
        × (wlan.gateway ≡ some gateway)
        × (fx ≡ login_effects gateway wlan.ifindex wlan.ipv4 ++ rest)
        × (count (asks login) rest ≡ 0))

if-BehindRoute :
    (w : WlanSample) (g : Ipv4Addr) (c : Bool) (s t : Supervisor)
    → w.gateway ≡ some g
    → let r : Supervisor × List Effect × Bool =
        if c then (s, [], true) else (t, login_effects g w.ifindex w.ipv4, true) in
      BehindRoute (some w) r.1
unfolding count
if-BehindRoute w g true s t e = inl refl
if-BehindRoute w g false s t e = inr (w, g, [], refl, e, refl, refl)

gateway-BehindRoute :
    (w : WlanSample) (o : Option Ipv4Addr)
    → w.gateway ≡ o
    → (n : ℕ) (s : Supervisor) → BehindRoute (some w) (act_login (some w) n s).1
unfolding count asks act_login
gateway-BehindRoute w none e n s = inl (rw e refl)
gateway-BehindRoute w (some g) e n s = simp (e) (
    if-BehindRoute w g (is_none s.portal_ip || is_none s.probe_ip) s
      (record s { auth_in_flight = true }) e)

login-BehindRoute :
    (o : Option WlanSample) (n : ℕ) (s : Supervisor) → BehindRoute o (act_login o n s).1
unfolding count asks act_login
login-BehindRoute none n s = inl refl
login-BehindRoute (some w) n s = gateway-BehindRoute w w.gateway refl n s

action-BehindRoute :
    (a : Action) (n wall : ℕ) (s : Supervisor) → BehindRoute s.wlan (handle_action a n wall s).1
unfolding count asks handle_action act_probe
action-BehindRoute Action.nothing n wall s = inl refl
action-BehindRoute Action.associate n wall s = inl (ground arith)
action-BehindRoute Action.disassociate n wall s = inl (ground arith)
action-BehindRoute Action.probe_now n wall s = inl (ground arith)
action-BehindRoute Action.portal_auth n wall s =
    elim s.auth_in_flight
      as (λ x.
        let r : Supervisor × List Effect × Bool =
          if x then (s, [], true) else act_login s.wlan n s in
        BehindRoute s.wlan r.1) [ true ↦ inl refl | false ↦ login-BehindRoute s.wlan n s ]

metric-no_login : (s : Supervisor) → count (asks login) (update_metric s) ≡ 0
unfolding count update_metric metric_effects asks
metric-no_login s = ground arith

after-BehindRoute :
    (o : Option WlanSample) (now wall : ℕ) (r : Supervisor × List Effect × Bool)
    → BehindRoute o r.1
    → BehindRoute o (after_action now wall r).1
unfolding after_action
after-BehindRoute o now wall (t, fx, false) h = h
after-BehindRoute o now wall (t, fx, true) h = elim h [
  | inl none_asked ↦ inl (
      rw (count-append (asks login) fx (update_metric t))
        (rw none_asked (rw (metric-no_login t) refl)))
  | inr (w, g, rest, e, f, q, c) ↦ inr (
    w,
    g,
    rest ++ update_metric t,
    e,
    f,
    rw q (append_assoc (login_effects g w.ifindex w.ipv4) rest (update_metric t)),
    rw (count-append (asks login) rest (update_metric t)) (rw c (rw (metric-no_login t) refl)),
  )
]

tick-BehindRoute :
    (b : Brain) (associated : Bool) (now wall : ℕ) (s : Supervisor)
    → BehindRoute s.wlan (tick_brain b associated now wall s).1
unfolding tick_brain
tick-BehindRoute b associated now wall s =
    let (next, action) =
      Brain.decide (Brain.set_mode s.mode b) (world_of s associated (now / 1000)) in
    let s1 = record s { brain = some next } in
    after-BehindRoute s.wlan now wall (handle_action action (now / 1000) wall s1)
      (action-BehindRoute action (now / 1000) wall s1)

branches-BehindRoute :
    (x : WirelessSample) (now wall : ℕ) (s s1 s2 : Supervisor) (flies : Bool) (o : Option Brain)
    → s2.wlan ≡ x.wlan
    → let r : Supervisor × List Effect =
        if not flies
        then (s, [])
        else elim o [ none ↦ (s1, []) | some b ↦ tick_brain b x.associated now wall s2 ] in
      BehindRoute x.wlan r.1
unfolding count
branches-BehindRoute x now wall s s1 s2 false o e = inl refl
branches-BehindRoute x now wall s s1 s2 true none e = inl refl
branches-BehindRoute x now wall s s1 s2 true (some b) e =
    rw (sym e) (tick-BehindRoute b x.associated now wall s2)

-- A wireless sample makes the supervisor ask for a portal login only as follows: the sample has a
-- WLAN whose gateway is known; the first effects acquire the route by that gateway and interface,
-- let it settle for 3 seconds, and log in from that WLAN's address with a limit of 32 seconds; and
-- no second login follows. In every other case no login is asked for.
pub login_routed :
    (x : WirelessSample) (now wall : ℕ) (s : Supervisor)
    → BehindRoute x.wlan (handle_wireless_sampled x now wall s).1
unfolding handle_wireless_sampled
login_routed x now wall s =
    branches-BehindRoute x now wall s (record s { wireless_sample_in_flight = false })
      (with_sample x s) s.wireless_sample_in_flight s.brain refl
