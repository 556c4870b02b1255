-- ===== src/Supervisor/Reducer/Joining.antt =====
-- The join timeout of src/supervisor.rs, and what starts it.
use gdut_net.Base.{
  ℕ, ◌-◌, ◌<◌, ◌≡◌, refl, Bool, true, false, not, Option, none, some, List, [], ◌∷◌, arith,
  if◌then◌else◌,
}
use gdut_net.Protocol.{wired_plus_standby, WPhase}
use gdut_net.Supervisor.Radio.{
  handle_wireless_sampled, update_metric, tick_brain, after_action, handle_action, restart_join,
  with_sample,
}
use gdut_net.Supervisor.State.{Supervisor}
use gdut_net.Supervisor.Types.{WirelessSample, Effect, associate}
use gdut_net.Supervisor.Wired.{push_event}
use gdut_net.Wireless.Brain
use gdut_net.Wireless.Brain.{Action, Brain, is_kicked}

-- a joining brain, still not associated, long after the completion
tick_rejoins :
    (b : Brain) (now wall since : ℕ) (s : Supervisor)
    → s.mode ≡ wired_plus_standby
    → b.phase ≡ WPhase.online
    → is_kicked s.verdict ≡ false
    → s.associate_in_flight ≡ false
    → s.wlan ≡ none
    → s.join_since_ms ≡ some since
    → 60000 < now - since
    → ((tick_brain b false now wall s).1 ≡ associate s.cfg.wireless.profile ∷ [])
      × ((tick_brain b false now wall s).0.brain ≡ some (Brain.restart (Brain.set_mode s.mode b)))
unfolding tick_brain after_action handle_action restart_join push_event Brain.decide Brain.set_mode
    Brain.restart Brain.reset_off Brain.keep_wireless Brain.start_join update_metric
tick_rejoins b now wall since s m p v a w j late = ground arith

-- A sample that finds no WLAN.
abbrev pub lost : WirelessSample
lost = record { associated = false; wlan = none }

rejoins :
    (b : Brain) (now wall since : ℕ) (s : Supervisor) (flies : Bool) (o : Option Brain)
    → flies ≡ true
    → o ≡ some b
    → s.mode ≡ wired_plus_standby
    → b.phase ≡ WPhase.online
    → is_kicked s.verdict ≡ false
    → s.associate_in_flight ≡ false
    → s.join_since_ms ≡ some since
    → 60000 < now - since
    → let r : Supervisor × List Effect = if not flies then (s, []) else elim o [
      | none ↦ (record s { wireless_sample_in_flight = false }, [])
      | some c ↦ tick_brain c false now wall (with_sample lost s)
    ] in
      (r.1 ≡ associate s.cfg.wireless.profile ∷ [])
      × (r.0.brain ≡ some (Brain.restart (Brain.set_mode s.mode b)))
rejoins b now wall since s flies o f e m p v a j late =
    rw f (rw e (tick_rejoins b now wall since (with_sample lost s) m p v a refl j late))

-- The join clock of an association is not stopped when the login completes. In the standby mode, with
-- an Online brain, no association in flight and no cached probe verdict of Kicked: an awaited sample
-- that finds no WLAN, more than a minute after the last association completed, asks for the next
-- association and restarts the brain as if that association had timed out.
pub rejoin_restarts :
    (b : Brain) (now wall since : ℕ) (s : Supervisor)
    → s.wireless_sample_in_flight ≡ true
    → s.brain ≡ some b
    → s.mode ≡ wired_plus_standby
    → b.phase ≡ WPhase.online
    → is_kicked s.verdict ≡ false
    → s.associate_in_flight ≡ false
    → s.join_since_ms ≡ some since
    → 60000 < now - since
    → ((handle_wireless_sampled lost now wall s).1 ≡ associate s.cfg.wireless.profile ∷ [])
      × ((handle_wireless_sampled lost now wall s).0.brain
          ≡ some (Brain.restart (Brain.set_mode s.mode b)))
unfolding handle_wireless_sampled
rejoin_restarts b now wall since s f e m p v a j late =
    rejoins b now wall since s s.wireless_sample_in_flight s.brain f e m p v a j late
