-- ===== src/Runtime/Worker/Lane.antt =====
-- The answers of the worker to what its lane asks for.
use gdut_net.Base.{
  ℕ, ◌+◌, ◌≡◌, ◌∙◌, refl, ap, Bool, true, false, Option, none, some, List, [], ◌∷◌, arith,
  is_some_and, inr, if◌then◌else◌,
}
use gdut_net.Runtime.Shell.{effect, shutdown_with}
use gdut_net.Runtime.Worker.{
  Radio, WirelessWorker, in_world, run_effect, perform, perform_all, retried, Waking, message,
  closed, idle, run,
}
use gdut_net.Runtime.Worker.Answers.{is_served, event_answers}
use gdut_net.Runtime.Worker.Quiet.{IsQuiet, effect_quiet, retried_quiet}
use gdut_net.Supervisor.Reducer.Flights.{Kind, asks, ends, bit, count}
use gdut_net.Supervisor.Types.{Event, Effect}
use gdut_net.Wireless.Egress.{EgressOps, has_pending_cleanup}
use gdut_net.Wireless.Portal.{Json}

module _ {T : Type 0} (J : Json) (io : EgressOps T) (radio : Radio T) where
  -- The requests of a kind among what wakes the worker, until its loop ends.
  abbrev pub asked : Kind → List (Waking J io radio) → ℕ
  asked k [] = 0
  asked k (closed ∷ ws) = 0
  asked k (idle ∷ ws) = asked k ws
  asked k (message (effect e) ∷ ws) = bit (asks k e) + asked k ws
  asked k (message (shutdown_with es) ∷ ws) = count (asks k) es

  -- A tally of the events sent that end a request of a kind.
  pub record IsTally (k : Kind) (tally : T → ℕ) : Type 0 where
    pub sending : (x : Event) (t : T) → tally (radio.send x t) ≡ tally t + bit (ends k x)
    pub otherwise : (n : ℕ) → IsQuiet io radio (λ t. tally t ≡ n)

  module _ (k : Kind) (served : is_served k ≡ true) (tally : T → ℕ) (is_tally : IsTally k tally)
      (calm : (t : T) → radio.is_cancelled t ≡ false) where
    sent_tally :
        (o : Option Event) (w : WirelessWorker T)
        → let w' : WirelessWorker T = elim o [
          | none ↦ w
          | some x ↦ in_world (radio.send x w.egress.ops) w
        ] in
          tally w'.egress.ops ≡ tally w.egress.ops + bit (is_some_and o (ends k))
    sent_tally none w = omega arith
    sent_tally (some x) w = is_tally.sending x w.egress.ops

    perform_tally :
        (e : Effect) (race_stop : Bool) (w : WirelessWorker T)
        → tally (perform J io radio e race_stop w).egress.ops ≡ tally w.egress.ops + bit (asks k e)
    unfolding perform
    perform_tally e race_stop w =
        let (event, w') = run_effect J io radio e race_stop w in
        let before = tally w.egress.ops in
        let same : tally w'.egress.ops ≡ before =
          effect_quiet io radio J (λ t. tally t ≡ before) (is_tally.otherwise before) e race_stop w
            refl in
        let answer = event_answers J io radio k e race_stop w served (inr calm) in
        sent_tally event w'
        ∙ ap (λ n. n + bit (is_some_and event (ends k))) same
        ∙ ap (λ b. before + bit b) answer

    all_tally :
        (es : List Effect) (w : WirelessWorker T)
        → tally (perform_all J io radio es w).egress.ops ≡ tally w.egress.ops + count (asks k) es
    unfolding perform_all count
    all_tally [] w = omega arith
    all_tally (e ∷ es) w =
        let later = all_tally es (perform J io radio e false w) in
        omega (arith, later, perform_tally e false w)

    retried_tally :
        (w : WirelessWorker T) → tally (retried J io radio w).egress.ops ≡ tally w.egress.ops
    retried_tally w =
        let before = tally w.egress.ops in
        retried_quiet io radio J (λ t. tally t ≡ before) (is_tally.otherwise before) w refl

    if_tally :
        (c : Bool) (x y : Bool × WirelessWorker T) (n : ℕ)
        → tally x.1.egress.ops ≡ n
        → tally y.1.egress.ops ≡ n
        → tally (if c then x else y).1.egress.ops ≡ n
    if_tally true x y n h k' = h
    if_tally false x y n h k' = k'

    -- Over any run of the worker, up to the end of its loop, and for associations, logins and probes
    -- each: the events sent that end a request of the kind are exactly as many as the effects taken from
    -- the lane that ask for one, whatever other effects, waits and cleanups there are and however the
    -- calls turn out. This is where the stop token is not cancelled, so that no result is given up, and
    -- where no other call of the worker than its sending changes the number of the events sent.
    pub lane_answered :
        (ws : List (Waking J io radio)) (w : WirelessWorker T)
        → tally (run J io radio ws w).1.egress.ops ≡ tally w.egress.ops + asked k ws
    unfolding run
    lane_answered [] w = omega arith
    lane_answered (closed ∷ ws) w = omega arith
    lane_answered (idle ∷ ws) w =
        if_tally (has_pending_cleanup w.egress) (run J io radio ws (retried J io radio w))
          (run J io radio ws w) _
          (lane_answered ws (retried J io radio w) ∙ ap (λ n. n + asked k ws) (retried_tally w))
          (lane_answered ws w)
    lane_answered (message (effect e) ∷ ws) w =
        let w0 = retried J io radio w in
        let later = lane_answered ws (perform J io radio e true w0) in
        omega (arith, later, perform_tally e true w0, retried_tally w)
    lane_answered (message (shutdown_with es) ∷ ws) w =
        all_tally es (retried J io radio w) ∙ ap (λ n. n + count (asks k) es) (retried_tally w)
