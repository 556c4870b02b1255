-- ===== src/Watchdog/Cases.antt =====
-- A step by its three ways: a requested redial, a session, a dial.
use gdut_net.Base.{ℕ, String, ◌≡◌, refl, Bool, true, false, if◌then◌else◌, ◌<+>◌, decimal}
use gdut_net.Probe.{ProbeVerdict}
use gdut_net.Watchdog.{
  verdict_text, Devices, Watchdog, phase_is_connected, record_drop, shutdown, do_dial,
  step_connected, session_alive, run_once,
}

-- The reason of the drop that a failed probe leads to.
abbrev pub drop_reason : ProbeVerdict → ℕ → String
drop_reason bad fails =
    "Probe failed " <+> decimal fails <+> " times (" <+> verdict_text bad <+> ")"

module _ {D : Type 0} (io : Devices D) where
  -- What a requested redial dials from.
  abbrev pub redial_start : Watchdog D → Watchdog D
  redial_start w =
      let r = session_alive io (record w { redial_requested = false }) in
      if r.0 then shutdown io (record_drop "Manual redial" r.1) else r.1

  ways :
      (P : Watchdog D → Type 0) (asked up : Bool) (a b c : Watchdog D × ℕ)
      → P a.0
      → (up ≡ true → P b.0)
      → (up ≡ false → P c.0)
      → let r : Watchdog D × ℕ = if asked then a else if up then b else c in P r.0
  ways P true up a b c ha hb hc = ha
  ways P false true a b c ha hb hc = hb refl
  ways P false false a b c ha hb hc = hc refl

  pub run_once_cases :
      (P : Watchdog D → Type 0) (w : Watchdog D)
      → P (do_dial io (redial_start w)).0
      → (phase_is_connected w.phase ≡ true → P (step_connected io w).0)
      → (phase_is_connected w.phase ≡ false → P (do_dial io w).0)
      → P (run_once io w).0
  unfolding run_once
  run_once_cases P w a b c =
      ways P w.redial_requested (phase_is_connected w.phase) (do_dial io (redial_start w))
        (step_connected io w) (do_dial io w) a b c
