-- ===== src/Supervisor/Reducer/Waking.antt =====
-- The wake that a reaction asks for.
use gdut_net.Base.{
  ℕ, ◌+◌, ◌<◌, ◌≤◌, ◌≡◌, refl, true, false, not, none, some, ◌∙◌, ◌&&◌, arith, if◌then◌else◌,
}
use gdut_net.Supervisor.State.{Supervisor}
use gdut_net.Supervisor.Types.{wake}
use gdut_net.Supervisor.Wired.{handle_wake, wake_link, wake_wireless}
use gdut_net.Supervisor.Reducer.{next_wake, dispatch, on}
use gdut_net.Supervisor.Reducer.Lifecycle.{on_running}
use gdut_net.Supervisor.Reducer.Snapshots.{react_wake}
use gdut_net.Wireless.Portal.{Json}

-- Served timers lie in the future.
wake_moves :
    (now : ℕ) (s : Supervisor)
    → now + 2000 < 18446744073709551616
    → now < next_wake now (handle_wake now s).0
unfolding next_wake handle_wake wake_link wake_wireless
wake_moves now s fits = ground arith

wake_soon :
    (now : ℕ) (s : Supervisor)
    → now + 2000 < 18446744073709551616
    → s.link_poll_at ≤ now + 2000
    → next_wake now (handle_wake now s).0 ≤ now + 2000
unfolding next_wake handle_wake wake_link wake_wireless
wake_soon now s fits poll = ground arith

wake_flags :
    (now : ℕ) (s : Supervisor)
    → ((handle_wake now s).0.started ≡ s.started) × ((handle_wake now s).0.stopped ≡ s.stopped)
unfolding handle_wake wake_link wake_wireless
wake_flags now s = ground arith

-- A running supervisor that handles a Wake, whose link poll is at most two seconds away, asks to be
-- woken again: at a time after now, so that the main loop never spins, and within two seconds. (The
-- clock is two seconds or more from its overflow.)
pub wake_progress :
    (J : Json) (now wall : ℕ) (s : Supervisor)
    → s.started ≡ true
    → s.stopped ≡ false
    → now + 2000 < 18446744073709551616
    → s.link_poll_at ≤ now + 2000
    → (at : ℕ) × ((on J wake now wall s).1.wake_at ≡ some at) × (now < at) × (at ≤ now + 2000)
unfolding dispatch
wake_progress J now wall s began runs fits poll =
    let r = handle_wake now s in
    let (began', runs') = wake_flags now s in
    let asked : (if r.0.started && not r.0.stopped then some (next_wake now r.0) else none)
        ≡ some (next_wake now r.0) =
      rw (began' ∙ began) (rw (runs' ∙ runs) refl) in
    (
      next_wake now r.0,
      rw (on_running J wake now wall s began runs) (react_wake J now r.0 r.1 ∙ asked),
      wake_moves now s fits,
      wake_soon now s fits poll,
    )
