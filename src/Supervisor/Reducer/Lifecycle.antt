-- ===== src/Supervisor/Reducer/Lifecycle.antt =====
-- Before Started and after Stop.
use gdut_net.Base.{ℕ, ◌≡◌, refl, ◌∙◌, ap₂, true, false, none, List, [], ◌∷◌, arith, drop}
use gdut_net.Supervisor.State.{Supervisor}
use gdut_net.Supervisor.Types.{Event, stop, Effect, hangup}
use gdut_net.Supervisor.Reducer.{Reaction, Input, handle_stop, dispatch, react, on_flags, on, run}
use gdut_net.Supervisor.Reducer.Snapshots.{published, react_state, react_effects, react_wake}
use gdut_net.Wireless.Portal.{Json}

abbrev pub no_reaction : Reaction
no_reaction = record { effects = []; snapshot = none; wake_at = none }

stop_effects :
    (wall : ℕ) (s : Supervisor) → (rest : List Effect) × ((handle_stop wall s).1 ≡ hangup ∷ rest)
unfolding handle_stop
stop_effects wall s = (drop 1 (handle_stop wall s).1, ground arith)

stop_flags :
    (wall : ℕ) (s : Supervisor)
    → ((handle_stop wall s).0.started ≡ s.started) × ((handle_stop wall s).0.stopped ≡ true)
unfolding handle_stop
stop_flags wall s = ground arith

module _ (J : Json) where
  pub on_stopped :
      (event : Event) (now wall : ℕ) (s : Supervisor)
      → s.started ≡ true
      → s.stopped ≡ true
      → on J event now wall s ≡ (s, no_reaction)
  unfolding on
  on_stopped event now wall s a b = ap₂ (λ x y. on_flags J x y event now wall s) a b

  -- Between Started and Stop every event is handled.
  pub on_running :
      (event : Event) (now wall : ℕ) (s : Supervisor)
      → s.started ≡ true
      → s.stopped ≡ false
      → on J event now wall s ≡ react J now (dispatch J event now wall s)
  unfolding on
  on_running event now wall s a b = ap₂ (λ x y. on_flags J x y event now wall s) a b

  run_stopped :
      (es : List Input) (s : Supervisor)
      → s.started ≡ true
      → s.stopped ≡ true
      → run J es s ≡ (s, [])
  run_stopped [] s a b = refl
  run_stopped ((event, now, wall) ∷ es) s a b =
      rw (on_stopped event now wall s a b) (rw (run_stopped es s a b))

  -- A running supervisor reacts to Stop by hanging up first; it asks for no wake, and whatever
  -- events follow change nothing and have no effects.
  pub stop_final :
      (now wall : ℕ) (s : Supervisor) (es : List Input)
      → s.started ≡ true
      → s.stopped ≡ false
      → ((rest : List Effect) × ((on J stop now wall s).1.effects ≡ hangup ∷ rest))
        × ((on J stop now wall s).1.wake_at ≡ none)
        × (run J es (on J stop now wall s).0 ≡ ((on J stop now wall s).0, []))
  unfolding react dispatch
  stop_final now wall s es a b =
      let final = handle_stop wall s in
      let (began, ended) = stop_flags wall s in
      rw (on_running stop now wall s a b) (
        rw (react_effects J now final.0 final.1) (stop_effects wall s),
        rw (react_wake J now final.0 final.1) (rw ended (ground arith)),
        rw (react_state J now final.0 final.1)
            (run_stopped es (published final.0) (began ∙ a) ended),
      )
