-- ===== src/Watchdog/Invariant.antt =====
-- What holds of a watchdog between two steps.
use gdut_net.Base.{
  ℕ, refl, inl, inr, if◌then◌else◌, ◌≤◌, ◌≡◌, ◌≢◌, ◌⊎◌, Bool, true, false, Option, List, [], ◌∷◌,
  arith, is_some, u32_max, String,
}
use gdut_net.Probe.{ProbeVerdict, alive, link_down, kicked}
use gdut_net.Watchdog.{
  session_alive, DialResult, dialed, failed, Devices, dialing, WatchdogCfg, Watchdog,
  phase_is_connected, new, set_eth_link, request_redial, record_drop, shutdown, on_dial_result,
  do_dial, on_verdict, step_connected, run_once,
}

-- A session start is recorded exactly while the phase is Connected, a step never ends in Dialing,
-- at most one bad probe is pending and only in a session, and the redial counter is the attempt
-- count of the backoff.
pub record IsConsistent {D : Type 0} (w : Watchdog D) : Type 0 where
  pub settled : w.phase ≢ dialing
  pub timed : is_some w.since ≡ phase_is_connected w.phase
  pub one_fail : w.probe_fails ≤ 1
  pub fails_in_session :
      (phase_is_connected w.phase ≡ true) ⊎ ((w.probe_fails ≡ 0) × (w.stable_for ≡ 0))
  pub counted : w.attempts ≡ w.redial_backoff.attempt
  pub capped : w.attempts ≤ u32_max

module _ {D : Type 0} (d : D) (cfg : WatchdogCfg) where
  pub new-IsConsistent : IsConsistent (new d cfg)
  unfolding new
  new-IsConsistent = ground arith

-- What a dial starts from: no session on record, but any phase.
record IsDropped {D : Type 0} (w : Watchdog D) : Type 0 where
  ended : is_some w.since ≡ false
  no_fails : w.probe_fails ≡ 0
  not_stable : w.stable_for ≡ 0
  counted : w.attempts ≡ w.redial_backoff.attempt
  capped : w.attempts ≤ u32_max

module _ {D : Type 0} (io : Devices D) where
  on_dial_result-IsConsistent :
      (r : DialResult) (w : Watchdog D) → IsDropped w → IsConsistent (on_dial_result io r w).0
  unfolding on_dial_result
  on_dial_result-IsConsistent dialed w h = ground arith
  on_dial_result-IsConsistent (failed e) w h = ground arith

  do_dial-IsConsistent : (w : Watchdog D) → IsDropped w → IsConsistent (do_dial io w).0
  unfolding do_dial
  do_dial-IsConsistent w h = ground arith

  dropped :
      (reason : String) (w : Watchdog D)
      → IsConsistent w
      → IsDropped (shutdown io (record_drop reason w))
  unfolding shutdown record_drop
  dropped reason w c = ground arith

  not_in_session :
      (w : Watchdog D) → IsConsistent w → phase_is_connected w.phase ≡ false → IsDropped w
  not_in_session w c h = ground arith

  on_verdict-IsConsistent :
      (v : ProbeVerdict) (w : Watchdog D)
      → IsConsistent w
      → phase_is_connected w.phase ≡ true
      → IsConsistent (on_verdict io v w).0
  unfolding on_verdict
  on_verdict-IsConsistent alive w c h = ground arith
  on_verdict-IsConsistent link_down w c h = ground arith
  on_verdict-IsConsistent kicked w c h = ground arith

  step_connected-IsConsistent :
      (w : Watchdog D)
      → IsConsistent w
      → phase_is_connected w.phase ≡ true
      → IsConsistent (step_connected io w).0
  unfolding step_connected
  step_connected-IsConsistent w c h = ground arith

  -- What a requested redial dials from, of the answers of `session_alive`.
  redial-IsDropped :
      (live : Bool) (w : Watchdog D)
      → IsConsistent w
      → (live ≡ true) ⊎ (phase_is_connected w.phase ≡ false)
      → IsDropped (if live then shutdown io (record_drop "Manual redial" w) else w)
  redial-IsDropped true w c h = dropped "Manual redial" w c
  redial-IsDropped false w c (inr h) = not_in_session w c h
  redial-IsDropped false w c (inl h) = cc h

  asked-IsConsistent : (w : Watchdog D) → IsConsistent w → IsConsistent (session_alive io w).1
  unfolding session_alive
  asked-IsConsistent w c = ground arith

  asked_phase :
      (w : Watchdog D)
      → ((session_alive io w).0 ≡ true) ⊎ (phase_is_connected (session_alive io w).1.phase ≡ false)
  unfolding session_alive
  asked_phase w = ground arith

  cleared-IsConsistent :
      (w : Watchdog D) → IsConsistent w → IsConsistent (record w { redial_requested = false })
  cleared-IsConsistent w c = record {
    settled = c.settled;
    timed = c.timed;
    one_fail = c.one_fail;
    fails_in_session = c.fails_in_session;
    counted = c.counted;
    capped = c.capped;
  }

  -- The three ways of a step.
  step_ways :
      (asked up : Bool) (a b c : Watchdog D × ℕ)
      → IsConsistent a.0
      → (up ≡ true → IsConsistent b.0)
      → (up ≡ false → IsConsistent c.0)
      → let r : Watchdog D × ℕ = if asked then a else if up then b else c in IsConsistent r.0
  step_ways true up a b c ha hb hc = ha
  step_ways false true a b c ha hb hc = hb refl
  step_ways false false a b c ha hb hc = hc refl

  -- Every step from a consistent watchdog, whatever the devices answer, ends in a consistent one.
  pub run_once-IsConsistent : (w : Watchdog D) → IsConsistent w → IsConsistent (run_once io w).0
  unfolding run_once
  run_once-IsConsistent w c =
      let r = session_alive io (record w { redial_requested = false }) in
      let start = if r.0 then shutdown io (record_drop "Manual redial" r.1) else r.1 in
      step_ways w.redial_requested (phase_is_connected w.phase) (do_dial io start)
        (step_connected io w) (do_dial io w)
        (do_dial-IsConsistent start (
          redial-IsDropped r.0 r.1 (asked-IsConsistent _ (cleared-IsConsistent w c))
            (asked_phase _)))
        (λ h. step_connected-IsConsistent w c h)
        (λ h. do_dial-IsConsistent w (not_in_session w c h))

-- What the service does with its watchdog between construction and shutdown.
pub data Op : Type 0 where
  step : Op
  link : Option Bool → Op
  ask_redial : Op

module _ {D : Type 0} (io : Devices D) where
  abbrev pub apply : Op → Watchdog D → Watchdog D
  apply step w = (run_once io w).0
  apply (link up) w = set_eth_link up w
  apply ask_redial w = request_redial w

  abbrev pub apply_all : List Op → Watchdog D → Watchdog D
  apply_all [] w = w
  apply_all (op ∷ ops) w = apply_all ops (apply op w)

  apply-IsConsistent : (op : Op) (w : Watchdog D) → IsConsistent w → IsConsistent (apply op w)
  unfolding set_eth_link request_redial
  apply-IsConsistent step w c = run_once-IsConsistent io w c
  apply-IsConsistent (link up) w c = ground arith
  apply-IsConsistent ask_redial w c = ground arith

  apply_all-IsConsistent :
      (ops : List Op) (w : Watchdog D) → IsConsistent w → IsConsistent (apply_all ops w)
  apply_all-IsConsistent [] w c = c
  apply_all-IsConsistent (op ∷ ops) w c =
      apply_all-IsConsistent ops (apply op w) (apply-IsConsistent op w c)

  -- After any steps, link reports and redial requests on a new watchdog, with any devices, the
  -- watchdog is consistent: a session start is on record exactly while the phase is Connected, no
  -- step ends in Dialing, at most one bad probe is pending and only in a session, and the redial
  -- counter is the attempt count of the backoff.
  pub reached-IsConsistent :
      (d : D) (cfg : WatchdogCfg) (ops : List Op) → IsConsistent (apply_all ops (new d cfg))
  reached-IsConsistent d cfg ops = apply_all-IsConsistent ops (new d cfg) (new-IsConsistent d cfg)
