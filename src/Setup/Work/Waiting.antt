-- ===== src/Setup/Work/Waiting.antt =====
-- The wait for the result of a dial.
use gdut_net.Base.{
  ℕ, zero, suc, ◌+◌, ◌*◌, ◌/◌, ◌≤◌, ◌≡◌, refl, inl, inr, sym, subst, ◌⊎◌, Bool, true, false, Option,
  none, some, List, [], ◌∷◌, leb, arith, Bool-cases, if◌then◌else◌,
}
use gdut_net.Backoff.{from_secs, from_millis}
use gdut_net.Service.Control.{start_service}
use gdut_net.Service.Control.Waiting.{IsSleeping}
use gdut_net.Setup.Transaction.{not_needed}
use gdut_net.Setup.Work.{
  Desk, Ev, finished, is_settled, wait_dial, await_dial, run_start, conclude_start,
}

-- The last of some events.
abbrev pub last_of : List Ev → Option Ev
last_of [] = none
last_of (e ∷ []) = some e
last_of (e ∷ f ∷ es) = last_of (f ∷ es)

module _ {T A : Type 0} (desk : Desk T A) where
  -- The query of the status takes no negative time.
  abbrev pub IsForward : Type 0
  IsForward = (t : T) → desk.cleanup.scm.now t ≤ desk.cleanup.scm.now (desk.query_status_once t).1

  -- How the wait ends: on a status that it has just read, or past the deadline.
  abbrev pub Ends : ℕ → Bool × T → Type 0
  Ends deadline r =
      (r.0 ≡ true
        → (t0 : T) × (is_settled (desk.query_status_once t0).0 ≡ true)
          × (r.1 ≡ (desk.query_status_once t0).1))
      × (r.0 ≡ false → deadline ≤ desk.cleanup.scm.now r.1)

  wait_dial-Ends :
      (rounds deadline : ℕ) (t : T)
      → IsSleeping desk.cleanup.scm
      → IsForward
      → deadline ≤ desk.cleanup.scm.now t + rounds * from_millis 800
      → Ends deadline (wait_dial desk rounds deadline t)
  unfolding wait_dial
  wait_dial-Ends zero deadline t sleeps forward fits =
      ((λ e. absurd (ground (arith, e))), (λ e. omega arith))
  wait_dial-Ends (suc rounds) deadline t sleeps forward fits =
      let t1 = (desk.query_status_once t).1 in
      let later = desk.cleanup.scm.sleep (from_millis 800) t1 in
      let rest = wait_dial desk rounds deadline later in
      let settled = is_settled (desk.query_status_once t).0 in
      let late = leb deadline (desk.cleanup.scm.now t1) in
      let next : Bool → Bool → Bool × T =
        λ b c. if b then (true, t1) else (if c then (false, t1) else rest) in
      elim (Bool-cases settled) [
        | inl ended ↦
            subst (λ b. Ends deadline (next b late)) (sym ended)
              ((λ _. (t, ended, refl)), (λ e. absurd (ground (arith, e))))
        | inr going ↦ elim (Bool-cases late) [
          | inl past ↦
              subst (λ b. Ends deadline (next b late)) (sym going)
                (subst (λ c. Ends deadline (next false c)) (sym past)
                  ((λ e. absurd (ground (arith, e))), (λ _. ground (arith, past))))
          | inr early ↦
              subst (λ b. Ends deadline (next b late)) (sym going)
                (subst (λ c. Ends deadline (next false c)) (sym early)
                  (wait_dial-Ends rounds deadline later sleeps forward
                    (omega (arith, fits, forward t, sleeps (from_millis 800) t1))))
        ]
      ]

  -- How a start that is concluded ends.
  abbrev IsConcluded : Bool × T → ℕ → List Ev × T → Type 0
  IsConcluded (started, t1) deadline (events, t2) =
      (ok : Bool) × (last_of events ≡ some (finished ok not_needed))
      × (ok ≡ true
          → (t0 : T) × (is_settled (desk.query_status_once t0).0 ≡ true)
            × (t2 ≡ (desk.query_status_once t0).1))
      × (ok ≡ false → (started ≡ false) ⊎ (deadline ≤ desk.cleanup.scm.now t2))

  conclude_start-IsConcluded :
      (deadline : ℕ) (started waited : Bool × T)
      → Ends deadline waited
      → IsConcluded started deadline (conclude_start started waited)
  conclude_start-IsConcluded deadline (false, t1) waited ends =
      (false, refl, (λ e. absurd (ground (arith, e))), (λ _. inl refl))
  conclude_start-IsConcluded deadline (true, t1) (true, t2) ends =
      (true, refl, ends.0, (λ e. absurd (ground (arith, e))))
  conclude_start-IsConcluded deadline (true, t1) (false, t2) ends =
      (false, refl, (λ e. absurd (ground (arith, e))), (λ e. inr (ends.1 e)))

  -- The start of the service by the installer ends with one last event. Where that reports a success,
  -- a status of connected, backoff or auth_fail has just been read; where it reports an error, the
  -- service could not be started, or 25 seconds have passed since it was. This is where a sleep takes
  -- at least the time that it is asked for, and the query of a status takes no negative time.
  pub start_ends :
      (t : T)
      → IsSleeping desk.cleanup.scm
      → IsForward
      → let (started, t1) = start_service desk.cleanup.scm t in
        let (events, t2) = run_start desk t in
        (ok : Bool) × (last_of events ≡ some (finished ok not_needed))
        × (ok ≡ true
            → (t0 : T) × (is_settled (desk.query_status_once t0).0 ≡ true)
              × (t2 ≡ (desk.query_status_once t0).1))
        × (ok ≡ false
            → (started ≡ false)
              ⊎ (desk.cleanup.scm.now t1 + from_secs 25 ≤ desk.cleanup.scm.now t2))
  unfolding run_start await_dial
  start_ends t sleeps forward =
      let started = start_service desk.cleanup.scm t in
      let deadline = desk.cleanup.scm.now started.1 + from_secs 25 in
      conclude_start-IsConcluded deadline started (await_dial desk started.1) (
        wait_dial-Ends (from_secs 25 / from_millis 800 + 2) deadline started.1 sleeps forward
          (omega arith))
