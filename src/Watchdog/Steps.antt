-- ===== src/Watchdog/Steps.antt =====
-- What one step of the watchdog does: the link gate, the two-level drop test, a requested redial,
-- a refused authentication.
use gdut_net.Base.{◌+◌, ◌/◌, ◌%◌, ◌^◌, ◌≡◌, ◌≢◌, ◌⊎◌, true, false, some, arith}
use gdut_net.Probe.{alive}
use gdut_net.Watchdog.{
  auth, DialError, failed, Devices, connected, backoff, auth_fail, Watchdog, phase_is_connected,
  link_down_reason, link_down_retry, run_once,
}
use gdut_net.Watchdog.Invariant.{IsConsistent}

module _ {D : Type 0} (io : Devices D) where
  -- While the Ethernet link is down no step dials: it keeps a session that it found, or ends in
  -- Backoff with the reason for it and asks to be called again in five seconds.
  pub run_once_gated :
      (w : Watchdog D)
      → w.eth_link ≡ some false
      → ((run_once io w).0.dial_calls ≡ w.dial_calls)
        × (((w.phase ≡ connected) × ((run_once io w).0.phase ≡ connected))
            ⊎ (((run_once io w).0.phase ≡ backoff)
                × ((run_once io w).0.last_drop_reason ≡ some link_down_reason)
                × ((run_once io w).1 ≡ link_down_retry)))
  unfolding run_once
  run_once_gated w h = ground arith

  -- Outside a session and with the link down, a step touches no device at all.
  pub run_once_gated_devices :
      (w : Watchdog D)
      → w.eth_link ≡ some false
      → w.redial_requested ≡ false
      → phase_is_connected w.phase ≡ false
      → (run_once io w).0.devices ≡ w.devices
  unfolding run_once
  run_once_gated_devices w h r p = ground arith

  -- A step in a session, with no redial requested, either keeps the session and dials nothing, or
  -- has cause to drop it: the dialer reports it gone, or the probe is bad for the second time in a
  -- row.
  pub run_once_drop_cause :
      (w : Watchdog D)
      → IsConsistent w
      → w.phase ≡ connected
      → w.redial_requested ≡ false
      → (((run_once io w).0.phase ≡ connected)
          × ((run_once io w).0.since ≡ w.since)
          × ((run_once io w).0.dial_calls ≡ w.dial_calls))
        ⊎ ((io.is_connected w.devices).0 ≡ false)
        ⊎ ((w.probe_fails ≡ 1) × ((io.probe (io.is_connected w.devices).1).0 ≢ alive))
  unfolding run_once
  run_once_drop_cause w c p r = ground arith

  -- The first bad probe of a session that the dialer confirms is only noted: the session is kept
  -- and rechecked after a quarter of the interval.
  pub first_bad_probe :
      (w : Watchdog D)
      → w.phase ≡ connected
      → w.redial_requested ≡ false
      → (io.is_connected w.devices).0 ≡ true
      → (io.probe (io.is_connected w.devices).1).0 ≢ alive
      → w.probe_fails ≡ 0
      → ((run_once io w).0.phase ≡ connected)
        × ((run_once io w).0.since ≡ w.since)
        × ((run_once io w).0.probe_fails ≡ 1)
        × ((run_once io w).0.dial_calls ≡ w.dial_calls)
        × ((run_once io w).0.devices ≡ (io.probe (io.is_connected w.devices).1).1)
        × ((run_once io w).1 ≡ w.cfg.probe_interval / 4)
  unfolding run_once
  first_bad_probe w p r up bad z = ground arith

  -- The second bad probe in a row hangs up and, where the link is not down, dials once.
  pub second_bad_probe :
      (w : Watchdog D)
      → w.phase ≡ connected
      → w.redial_requested ≡ false
      → (io.is_connected w.devices).0 ≡ true
      → (io.probe (io.is_connected w.devices).1).0 ≢ alive
      → w.probe_fails ≡ 1
      → w.eth_link ≢ some false
      → ((run_once io w).0.dial_calls ≡ (w.dial_calls + 1) % 2 ^ 32)
        × ((run_once io w).0.devices
            ≡ (io.dial (io.hangup (io.probe (io.is_connected w.devices).1).1)).1)
  unfolding run_once
  second_bad_probe w p r up bad o l = ground arith

  -- A requested redial is carried out by the next step, once, and at once where the link is not
  -- down: a session that is up is hung up before the dial.
  pub redial_carried_out :
      (w : Watchdog D)
      → w.redial_requested ≡ true
      → w.eth_link ≢ some false
      → ((run_once io w).0.redial_requested ≡ false)
        × ((run_once io w).0.dial_calls ≡ (w.dial_calls + 1) % 2 ^ 32)
        × ((w.phase ≢ connected) ⊎ ((run_once io w).0.devices ≡ (io.dial (io.hangup w.devices)).1))
  unfolding run_once
  redial_carried_out w r l = ground arith

  -- Outside a session, with no redial requested and the link not down, a dial that is refused for
  -- the credentials waits the configured fixed time and leaves the backoff and the redial counter
  -- alone.
  pub refused_waits :
      (w : Watchdog D) (e : DialError)
      → phase_is_connected w.phase ≡ false
      → w.redial_requested ≡ false
      → w.eth_link ≢ some false
      → (io.dial w.devices).0 ≡ failed e
      → e.kind ≡ auth
      → ((run_once io w).0.phase ≡ auth_fail)
        × ((run_once io w).1 ≡ w.cfg.auth_fail_delay)
        × ((run_once io w).0.redial_backoff ≡ w.redial_backoff)
        × ((run_once io w).0.attempts ≡ w.attempts)
  unfolding run_once
  refused_waits w e p r l f k = ground arith
