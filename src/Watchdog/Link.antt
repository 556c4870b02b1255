-- ===== src/Watchdog/Link.antt =====
-- No step of the watchdog changes the link state that it was told.
use gdut_net.Base.{
  ℕ, String, ◌%◌, ◌/◌, ◌+◌, ◌≡◌, refl, ◌∙◌, Bool, true, false, Option, ltb, ◌^◌, if◌then◌else◌,
  arith,
}
use gdut_net.Probe.{ProbeVerdict, alive, link_down, kicked}
use gdut_net.Watchdog.{
  Devices, DialResult, dialed, failed, Watchdog, is_down, dialing, record_drop, shutdown,
  on_dial_error, on_dial_result, do_dial, on_verdict, step_connected, session_alive, run_once,
}
use gdut_net.Watchdog.Cases.{drop_reason, redial_start, run_once_cases}

module _ {D : Type 0} (io : Devices D) where
  dialed-eth_link :
      (r : DialResult) (w : Watchdog D) → (on_dial_result io r w).0.eth_link ≡ w.eth_link
  unfolding on_dial_result on_dial_error
  dialed-eth_link dialed w = refl
  dialed-eth_link (failed e) w = ground arith

  either :
      (c : Bool) (a b : Watchdog D × ℕ) (link : Option Bool)
      → a.0.eth_link ≡ link
      → b.0.eth_link ≡ link
      → let r : Watchdog D × ℕ = if c then a else b in r.0.eth_link ≡ link
  either true a b link ha hb = ha
  either false a b link ha hb = hb

  do_dial-eth_link : (w : Watchdog D) → (do_dial io w).0.eth_link ≡ w.eth_link
  unfolding do_dial
  do_dial-eth_link w =
      let (r, d) = io.dial w.devices in
      let begun = record w {
        phase = dialing;
        dial_calls = (w.dial_calls + 1) % 2 ^ 32;
        devices = d;
      } in
      either (is_down w.eth_link) _ (on_dial_result io r begun) w.eth_link refl
        (dialed-eth_link r begun)

  -- A redial after a hangup.
  redialed-eth_link :
      (reason : String) (w : Watchdog D)
      → (do_dial io (shutdown io (record_drop reason w))).0.eth_link ≡ w.eth_link
  unfolding shutdown record_drop
  redialed-eth_link reason w = do_dial-eth_link (shutdown io (record_drop reason w))

  -- What a failed probe leads to: a shorter wait, or a redial.
  failed-eth_link :
      (reason : String) (w : Watchdog D)
      → let fails = (w.probe_fails + 1) % 256 in
        let again = record w { probe_fails = fails } in
        let next : Watchdog D × ℕ =
          if ltb fails 2
          then (again, w.cfg.probe_interval / 4)
          else do_dial io (shutdown io (record_drop reason again)) in
        next.0.eth_link ≡ w.eth_link
  failed-eth_link reason w =
      let fails = (w.probe_fails + 1) % 256 in
      let again = record w { probe_fails = fails } in
      either (ltb fails 2) (again, w.cfg.probe_interval / 4)
        (do_dial io (shutdown io (record_drop reason again))) w.eth_link refl
        (redialed-eth_link reason again)

  verdict-eth_link :
      (v : ProbeVerdict) (w : Watchdog D) → (on_verdict io v w).0.eth_link ≡ w.eth_link
  unfolding on_verdict
  verdict-eth_link alive w = refl
  verdict-eth_link link_down w =
      failed-eth_link (drop_reason link_down ((w.probe_fails + 1) % 256)) w
  verdict-eth_link kicked w = failed-eth_link (drop_reason kicked ((w.probe_fails + 1) % 256)) w

  connected-eth_link : (w : Watchdog D) → (step_connected io w).0.eth_link ≡ w.eth_link
  unfolding step_connected
  connected-eth_link w =
      let (up, d) = io.is_connected w.devices in
      let (verdict, d') = io.probe d in
      let gone = record w { devices = d } in
      either up (on_verdict io verdict (record w { devices = d' }))
        (do_dial io (shutdown io (record_drop "RAS session not found" gone))) w.eth_link
        (verdict-eth_link verdict (record w { devices = d' }))
        (redialed-eth_link "RAS session not found" gone)

  redial_start-eth_link : (w : Watchdog D) → (redial_start io w).eth_link ≡ w.eth_link
  unfolding session_alive shutdown record_drop
  redial_start-eth_link w = ground arith

  pub run_once-eth_link : (w : Watchdog D) → (run_once io w).0.eth_link ≡ w.eth_link
  run_once-eth_link w =
      run_once_cases io (λ w'. w'.eth_link ≡ w.eth_link) w
        (do_dial-eth_link (redial_start io w) ∙ redial_start-eth_link w)
        (λ up. connected-eth_link w) (λ down. do_dial-eth_link w)
