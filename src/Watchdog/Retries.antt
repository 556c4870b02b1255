-- ===== src/Watchdog/Retries.antt =====
-- The watchdog over many steps: the delays of failing redials, and the reset of a stable session.
use Prim.Native.Nat
use gdut_net.Base.{
  ℕ, zero, suc, ◌+◌, ◌*◌, ◌^◌, ◌≤◌, ◌<◌, ◌≡◌, ◌≢◌, ◌⊎◌, refl, sym, ap, true, false, some, arith,
  ◌∙◌,
}
use gdut_net.Backoff.{duration_max, next_delay}
use gdut_net.Backoff.Delays.{nth_delay, nth_delay-eq}
use gdut_net.Probe.{alive}
use gdut_net.Watchdog.{
  transient, DialError, failed, Devices, connected, backoff, WatchdogCfg, Watchdog,
  phase_is_connected, stable_reset_after, new, run_once,
}

module _ {D : Type 0} (io : Devices D) where
  -- The watchdog after n steps.
  abbrev pub steps : ℕ → Watchdog D → Watchdog D
  steps zero w = w
  steps (suc n) w = steps n (run_once io w).0

  -- Every dial fails, and not for the credentials.
  abbrev pub FailsTransiently : Type 0
  FailsTransiently = (d : D) → (e : DialError) × ((io.dial d).0 ≡ failed e) × (e.kind ≡ transient)

  failing_step :
      (w : Watchdog D)
      → FailsTransiently
      → phase_is_connected w.phase ≡ false
      → w.redial_requested ≡ false
      → w.eth_link ≢ some false
      → ((run_once io w).0.phase ≡ backoff)
        × ((run_once io w).0.redial_requested ≡ false)
        × ((run_once io w).0.eth_link ≡ w.eth_link)
        × ((run_once io w).0.redial_backoff ≡ (next_delay w.redial_backoff).0)
        × ((run_once io w).1 ≡ (next_delay w.redial_backoff).1)
  unfolding run_once
  failing_step w fails p r l = let (e, eq, kind) = fails w.devices in ground (arith, eq, kind)

  failing_steps :
      (n : ℕ) (w : Watchdog D)
      → FailsTransiently
      → phase_is_connected w.phase ≡ false
      → w.redial_requested ≡ false
      → w.eth_link ≢ some false
      → (run_once io (steps n w)).1 ≡ nth_delay n w.redial_backoff
  failing_steps zero w fails p r l = (failing_step w fails p r l).4
  failing_steps (suc n) w fails p r l =
      let (p', r', l', b', d') = failing_step w fails p r l in
      failing_steps n (run_once io w).0 fails (ap phase_is_connected p') r' (λ h. l (sym l' ∙ h))
      ∙ ap (nth_delay n) b'

  -- Where every dial of a new watchdog fails, though not for the credentials, step n (from 0) asks
  -- to wait `redial_min` doubled n times and capped at `redial_max`, for every n. The configuration
  -- has `redial_min` at most `redial_max`, which is at most `redial_min` doubled twenty times, and at
  -- most the greatest Duration.
  pub redial_delays :
      (d : D) (cfg : WatchdogCfg) (n : ℕ)
      → FailsTransiently
      → cfg.redial_min ≤ cfg.redial_max
      → cfg.redial_max ≤ cfg.redial_min * 2 ^ 20
      → cfg.redial_max ≤ duration_max
      → (run_once io (steps n (new d cfg))).1 ≡ Nat.min (cfg.redial_min * 2 ^ n) cfg.redial_max
  redial_delays d cfg n fails h reach fits =
      unfold new in
      failing_steps n (new d cfg) fails refl refl (λ e. cc e)
      ∙ nth_delay-eq cfg.redial_min cfg.redial_max n h reach fits

  -- The dialer confirms the session and every probe is good.
  abbrev pub StaysAlive : Type 0
  StaysAlive = (d : D) → ((io.is_connected d).0 ≡ true) × ((io.probe d).0 ≡ alive)

  alive_step :
      (w : Watchdog D)
      → StaysAlive
      → w.phase ≡ connected
      → w.redial_requested ≡ false
      → ((run_once io w).0.phase ≡ connected)
        × ((run_once io w).0.redial_requested ≡ false)
        × ((run_once io w).0.cfg ≡ w.cfg)
        × ((run_once io w).0.stable_for ≡ w.stable_for + w.cfg.probe_interval)
        × ((run_once io w).0.since ≡ w.since)
        × ((w.stable_for + w.cfg.probe_interval < stable_reset_after)
            ⊎ (((run_once io w).0.attempts ≡ 0)
                × ((w.attempts ≡ 0) ⊎ ((run_once io w).0.redial_backoff.attempt ≡ 0))))
  unfolding run_once
  alive_step w stays p r =
      let (up, _) = stays w.devices in
      let (_, good) = stays (io.is_connected w.devices).1 in ground (arith, up, good)

  -- A session whose probes are all good is kept, with its start; once it has been stable for five
  -- minutes of probe intervals the redial counter is zero.
  pub stable_resets :
      (n : ℕ) (w : Watchdog D)
      → StaysAlive
      → w.phase ≡ connected
      → w.redial_requested ≡ false
      → stable_reset_after ≤ w.stable_for + suc n * w.cfg.probe_interval
      → ((steps (suc n) w).phase ≡ connected)
        × ((steps (suc n) w).since ≡ w.since)
        × ((steps (suc n) w).attempts ≡ 0)
  stable_resets zero w stays p r h =
      let (p', r', c', s', t', done) = alive_step w stays p r in ground (arith, p', t', done)
  stable_resets (suc n) w stays p r h =
      let (p', r', c', s', t', done) = alive_step w stays p r in
      let (p2, t2, a2) = stable_resets n (run_once io w).0 stays p' r' (grind (arith, s', c')) in
      (p2, t2 ∙ t', a2)
