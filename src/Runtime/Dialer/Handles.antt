-- ===== src/Runtime/Dialer/Handles.antt =====
-- The watchdog with the real dialer: the session handle it holds.
use gdut_net.Base.{
  ℕ, ◌+◌, ◌/◌, ◌%◌, ltb, ◌≡◌, ◌⊎◌, refl, ap, ◌∙◌, String, Bool, true, false, none, List, [], ◌∷◌,
  arith, is_some, if◌then◌else◌, inl, inr,
}
use gdut_net.Config.{Config}
use gdut_net.Probe.{ProbeVerdict, alive, link_down, kicked}
use gdut_net.Watchdog.{
  Devices, DialResult, dialed, failed, auth, transient, Watchdog, WatchdogCfg, phase_is_connected,
  set_eth_link, request_redial, record_drop, shutdown, on_dial_error, on_dial_result, do_dial,
  on_verdict, step_connected, session_alive, verdict_text, run_once,
}
use gdut_net.Watchdog
use gdut_net.Watchdog.Cases.{drop_reason, redial_start, run_once_cases}
use gdut_net.Watchdog.Invariant.{Op, step, link, ask_redial, apply, apply_all}
use gdut_net.Runtime.Dialer
use gdut_net.Runtime.Dialer.{
  Ras, RealDialer, Line, DialTask, task_result, dial_ended, dial, count_wedge, hangup, is_connected,
  real_devices,
}

module _ {S H : Type 0} (ras : Ras S H) (probe : S → ProbeVerdict × S) (unix_now : S → ℕ) where
  abbrev io : Devices (Line S H)
  io = real_devices ras probe unix_now

  -- A session is held exactly while the watchdog is in a session.
  abbrev pub IsHeld : Watchdog (Line S H) → Type 0
  IsHeld w = is_some w.devices.dialer.held ≡ phase_is_connected w.phase

  dial_ended_cases :
      (r : DialTask H) (l : Line S H)
      → l.dialer.held ≡ none
      → (((dial_ended ras (task_result r) l).0 ≡ dialed)
          × (is_some (dial_ended ras (task_result r) l).1.dialer.held ≡ true))
        ⊎ ((e : Watchdog.DialError) × ((dial_ended ras (task_result r) l).0 ≡ failed e)
            × (is_some (dial_ended ras (task_result r) l).1.dialer.held ≡ false))
  unfolding dial_ended task_result count_wedge
  dial_ended_cases (Dialer.join_failed e) l h = inr (_, refl, ground arith)
  dial_ended_cases (Dialer.session e) l h = inl (refl, refl)
  dial_ended_cases (Dialer.ras_error Dialer.refused) l h = inr (_, refl, ground arith)
  dial_ended_cases (Dialer.ras_error (Dialer.other c m)) l h = inr (_, refl, ground arith)

  -- A dial with no session held.
  dial_IsHeld : (w : Watchdog (Line S H)) → w.devices.dialer.held ≡ none → IsHeld (do_dial io w).0
  unfolding do_dial on_dial_result on_dial_error real_devices dial
  dial_IsHeld w h =
      let d = w.devices.dialer in
      let t = ras.dial d.pbk d.entry d.user d.pass w.devices.system in
      let k = dial_ended_cases t.0 (record (w.devices) { system = t.1 }) h in ground (arith, k)

  hung_up :
      (reason : String) (w : Watchdog (Line S H))
      → (shutdown io (record_drop reason w)).devices.dialer.held ≡ none
  unfolding shutdown record_drop real_devices hangup
  hung_up reason w = ground arith

  redialed_IsHeld :
      (reason : String) (w : Watchdog (Line S H))
      → IsHeld (do_dial io (shutdown io (record_drop reason w))).0
  redialed_IsHeld reason w = dial_IsHeld _ (hung_up reason w)

  either :
      (c : Bool) (a b : Watchdog (Line S H) × ℕ)
      → IsHeld a.0
      → IsHeld b.0
      → let r : Watchdog (Line S H) × ℕ = if c then a else b in IsHeld r.0
  either true a b ha hb = ha
  either false a b ha hb = hb

  -- What a failed probe leads to: a shorter wait, or a redial.
  failed_IsHeld :
      (reason : String) (w : Watchdog (Line S H))
      → IsHeld w
      → let fails = (w.probe_fails + 1) % 256 in
        let next : Watchdog (Line S H) × ℕ =
          if ltb fails 2
          then (record w { probe_fails = fails }, w.cfg.probe_interval / 4)
          else do_dial io (shutdown io (record_drop reason (record w { probe_fails = fails }))) in
        IsHeld next.0
  failed_IsHeld reason w h =
      let fails = (w.probe_fails + 1) % 256 in
      let again = record w { probe_fails = fails } in
      either (ltb fails 2) (again, w.cfg.probe_interval / 4)
        (do_dial io (shutdown io (record_drop reason again))) h (redialed_IsHeld reason again)

  verdict_IsHeld :
      (v : ProbeVerdict) (w : Watchdog (Line S H)) → IsHeld w → IsHeld (on_verdict io v w).0
  unfolding on_verdict
  verdict_IsHeld alive w h = h
  verdict_IsHeld link_down w h =
      failed_IsHeld (drop_reason link_down ((w.probe_fails + 1) % 256)) w h
  verdict_IsHeld kicked w h = failed_IsHeld (drop_reason kicked ((w.probe_fails + 1) % 256)) w h

  asked_cases :
      (w : Watchdog (Line S H))
      → ((io.is_connected w.devices).1.dialer.held ≡ w.devices.dialer.held)
        × ((io.probe (io.is_connected w.devices).1).1.dialer.held ≡ w.devices.dialer.held)
        × (((io.is_connected w.devices).0 ≡ false) ⊎ (is_some w.devices.dialer.held ≡ true))
  unfolding real_devices is_connected
  asked_cases w = ground arith

  connected_IsHeld : (w : Watchdog (Line S H)) → IsHeld w → IsHeld (step_connected io w).0
  unfolding step_connected
  connected_IsHeld w h =
      let (same, same', _) = asked_cases w in
      let d = (io.is_connected w.devices).1 in
      let probed = record w { devices = (io.probe d).1 } in
      let gone = record w { devices = d } in
      either (io.is_connected w.devices).0 (on_verdict io (io.probe d).0 probed)
        (do_dial io (shutdown io (record_drop "RAS session not found" gone)))
        (verdict_IsHeld (io.probe d).0 probed (ap is_some same' ∙ h))
        (redialed_IsHeld "RAS session not found" gone)

  redial_hung_up :
      (w : Watchdog (Line S H)) → IsHeld w → (redial_start io w).devices.dialer.held ≡ none
  unfolding session_alive
  redial_hung_up w h =
      let r = session_alive io (record w { redial_requested = false }) in
      let k = hung_up "Manual redial" r.1 in let q = asked_cases w in ground (arith, k, q)

  run_once-IsHeld : (w : Watchdog (Line S H)) → IsHeld w → IsHeld (run_once io w).0
  run_once-IsHeld w h =
      run_once_cases io IsHeld w (dial_IsHeld _ (redial_hung_up w h)) (λ c. connected_IsHeld w h)
        (λ c. dial_IsHeld w (ground arith))

  op_IsHeld : (op : Op) (w : Watchdog (Line S H)) → IsHeld w → IsHeld (apply io op w)
  unfolding set_eth_link request_redial
  op_IsHeld step w h = run_once-IsHeld w h
  op_IsHeld (link up) w h = h
  op_IsHeld ask_redial w h = h

  ops_IsHeld : (ops : List Op) (w : Watchdog (Line S H)) → IsHeld w → IsHeld (apply_all io ops w)
  ops_IsHeld [] w h = h
  ops_IsHeld (op ∷ ops) w h = ops_IsHeld ops _ (op_IsHeld op w h)

  -- A watchdog over the real dialer, from a new one of each and through any steps, link reports and
  -- redial requests, whatever RAS and the probes answer: the dialer holds a session handle exactly
  -- while the watchdog is in a session.
  pub session_held :
      (s : S) (cfg : Config) (pass : String) (timing : WatchdogCfg) (ops : List Op)
      → let w =
          apply_all io ops
            (Watchdog.new (record { dialer = Dialer.new cfg pass; system = s }) timing) in
        is_some w.devices.dialer.held ≡ phase_is_connected w.phase
  unfolding Dialer.new Watchdog.new
  session_held s cfg pass timing ops = ops_IsHeld ops _ refl
