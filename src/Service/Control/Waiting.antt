-- ===== src/Service/Control/Waiting.antt =====
-- The waits for the service to stop.
use gdut_net.Base.{
  ℕ, zero, suc, ◌+◌, ◌-◌, ◌*◌, ◌/◌, ◌≤◌, ◌≡◌, ◌⊎◌, inr, refl, Bool, true, false, Option, none, some,
  leb, arith, if◌then◌else◌,
}
use gdut_net.Backoff.{from_millis}
use gdut_net.Service.Control.{
  ServiceState, running, stopped, pending, Scm, is_stopped, stop_timeout, wait_from, wait_stopped,
}

is_stopped_lem : (s : ServiceState) → is_stopped s ≡ true → s ≡ stopped
is_stopped_lem running h = absurd (ground (arith, h))
is_stopped_lem stopped h = refl
is_stopped_lem pending h = absurd (ground (arith, h))

module _ {T A : Type 0} (scm : Scm T A) where
  -- The system's sleep takes at least the time that it is asked for.
  abbrev pub IsSleeping : Type 0
  IsSleeping = (d : ℕ) (t : T) → scm.now t + d ≤ scm.now (scm.sleep d t)

  -- How a wait with a deadline ends.
  abbrev Ends : ℕ → Bool × T → Type 0
  Ends deadline r =
      (r.0 ≡ true → scm.query_status r.1 ≡ some stopped)
      × (r.0 ≡ false → (scm.query_status r.1 ≡ none) ⊎ (deadline ≤ scm.now r.1))

  -- How `stop_service` ends once it has found the service and its state.
  queried-Ends :
      (status : Option ServiceState) (deadline : ℕ) (t : T) (polled : Bool × T)
      → scm.query_status t ≡ status
      → Ends deadline polled
      → let r : Bool × T = elim status [
        | none ↦ (false, t)
        | some state ↦ if is_stopped state then (true, t) else polled
      ] in
        Ends deadline r
  queried-Ends none deadline t polled e h = ground (arith, e)
  queried-Ends (some state) deadline t polled e h =
      ground (arith, e, h.0, h.1, is_stopped_lem state)

  wait_from-Ends :
      (rounds start : ℕ) (t : T)
      → IsSleeping
      → start ≤ scm.now t
      → start + stop_timeout ≤ scm.now t + rounds * from_millis 500
      → Ends (start + stop_timeout) (wait_from scm rounds start t)
  unfolding wait_from
  wait_from-Ends zero start t sleeps after fits =
      ((λ e. absurd (ground (arith, e))), (λ _. inr (omega arith)))
  wait_from-Ends (suc rounds) start t sleeps after fits =
      let later = scm.sleep (from_millis 500) t in
      let slept : Bool × T =
        if leb stop_timeout (scm.now t - start)
        then (false, t)
        else wait_from scm rounds start later in
      let (good, bad) =
        wait_from-Ends rounds start later sleeps (omega (arith, sleeps (from_millis 500) t))
          (omega (arith, sleeps (from_millis 500) t)) in
      queried-Ends (scm.query_status t) (start + stop_timeout) t slept refl
        (ground (arith, good, bad))

  -- The wait of the uninstaller ends: with the service stopped, or with an error where its state
  -- could not be queried or ten seconds have passed.
  pub wait_ends :
      (t : T)
      → IsSleeping
      → let (ok, t') = wait_stopped scm t in
        (ok ≡ true → scm.query_status t' ≡ some stopped)
        × (ok ≡ false → (scm.query_status t' ≡ none) ⊎ (scm.now t + stop_timeout ≤ scm.now t'))
  unfolding wait_stopped
  wait_ends t sleeps =
      wait_from-Ends (stop_timeout / from_millis 500 + 2) (scm.now t) t sleeps (omega arith)
        (omega arith)
