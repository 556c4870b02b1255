-- ===== src/Tests/Watchdog.antt =====
-- Devices and watchdogs on which its theorems are applied.
use gdut_net.Base.{
  ℕ, ◌+◌, ◌*◌, ◌^◌, ◌≡◌, ◌⊎◌, refl, Bool, true, false, Option, none, some, [], ◌∷◌, arith,
}
use Prim.Native.Nat
use gdut_net.Backoff.{from_secs}
use gdut_net.Probe.{ProbeVerdict, alive, link_down}
use gdut_net.Watchdog.{
  transient, DialError, DialResult, dialed, failed, Devices, Phase, idle, connected, backoff,
  WatchdogCfg, Watchdog, link_down_reason, link_down_retry, new, run_once,
}
use gdut_net.Watchdog.Invariant.{
  step, link, ask_redial, IsConsistent, apply_all, reached-IsConsistent,
}
use gdut_net.Watchdog.Steps.{run_once_gated}
use gdut_net.Watchdog.Retries.{steps, redial_delays}

-- Devices that count the dials, whose dial, connection and probe answer as given.
abbrev answering : DialResult → Bool → ProbeVerdict → Devices ℕ
answering result up verdict = record {
  dial = λ d. (result, d + 1);
  hangup = λ d. d;
  is_connected = λ d. (up, d);
  probe = λ d. (verdict, d);
  unix_now = λ d. 1700000000 + d;
}

abbrev no_answer : DialError
no_answer = record { kind = transient; code = 678; msg = "no answer" }

abbrev timing : WatchdogCfg
timing = record {
  redial_min = from_secs 5;
  redial_max = from_secs 300;
  probe_interval = from_secs 30;
  auth_fail_delay = from_secs 600;
}

-- A watchdog in a phase, with a number of bad probes, a redial asked for or not, and a link state.
abbrev watchdog : Phase → Option ℕ → ℕ → Bool → Option Bool → Watchdog ℕ
watchdog phase since fails redial up = record {
  devices = 0;
  cfg = timing;
  phase = phase;
  redial_backoff = record { min = from_secs 5; max = from_secs 300; attempt = 2 };
  attempts = 2;
  since = since;
  probe_fails = fails;
  stable_for = 0;
  dial_calls = 3;
  last_drop_reason = none;
  redial_requested = redial;
  eth_link = up;
}

abbrev good_line : Devices ℕ
good_line = answering dialed true alive

reached_example :
    IsConsistent
      (apply_all good_line (step ∷ link (some false) ∷ ask_redial ∷ step ∷ []) (new 0 timing))
reached_example =
    reached-IsConsistent good_line 0 timing (step ∷ link (some false) ∷ ask_redial ∷ step ∷ [])

abbrev unplugged : Watchdog ℕ
unplugged = watchdog idle none 0 false (some false)

run_once_gated_example :
    ((run_once good_line unplugged).0.dial_calls ≡ 3)
    × (((idle ≡ connected) × ((run_once good_line unplugged).0.phase ≡ connected))
        ⊎ (((run_once good_line unplugged).0.phase ≡ backoff)
            × ((run_once good_line unplugged).0.last_drop_reason ≡ some link_down_reason)
            × ((run_once good_line unplugged).1 ≡ link_down_retry)))
run_once_gated_example = run_once_gated good_line unplugged refl

abbrev asked : Watchdog ℕ
asked = watchdog connected (some 1700000000) 0 true none

abbrev dead_line : Devices ℕ
dead_line = answering (failed no_answer) false link_down

redial_delays_example :
    (run_once dead_line (steps dead_line 3 (new 0 timing))).1
    ≡ Nat.min (from_secs 5 * 2 ^ 3) (from_secs 300)
redial_delays_example =
    redial_delays dead_line 0 timing 3 (λ d. (no_answer, refl, refl)) (omega arith) (omega arith)
      (omega arith)
