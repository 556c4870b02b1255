-- ===== src/Runtime/Shell/Draining.antt =====
-- The drain of the shell's queue ends.
use gdut_net.Base.{
  ℕ, zero, suc, ◌+◌, ◌*◌, ◌≤◌, ◌≡◌, refl, Option, none, some, List, [], ◌∷◌, ◌++◌, length, arith,
}
use gdut_net.Supervisor.Reducer.{on}
use gdut_net.Supervisor.Reducer.Effects.{weight, effect_cost, cost, on-IsPaid}
use gdut_net.Supervisor.Types.{Event, Effect, lane}
use gdut_net.Runtime.Shell.{
  Host, Shell, exec_main, exec, exec_all, in_world, handle, drain_within, drain,
}
use gdut_net.Watchdog.{Devices}
use gdut_net.Wireless.Portal.{Json}

-- The events that a queue leads to, at most.
pub total : List Event → ℕ
total [] = 0
total (event ∷ events) = weight event + total events

-- The same of a result, where there is one.
abbrev result_weight : Option Event → ℕ
result_weight none = 0
result_weight (some event) = weight event

total-append : (xs ys : List Event) → total (xs ++ ys) ≡ total xs + total ys
unfolding total
total-append [] ys = omega arith
total-append (x ∷ xs) ys = omega (arith, total-append xs ys)

weight_bounded : (event : Event) → weight event ≤ 5
unfolding weight
weight_bounded event = ground arith

weightless : (event : Event) → ¬ (weight event ≡ 0)
unfolding weight
weightless event = ground arith

total_bounded : (queue : List Event) → total queue ≤ 5 * length queue
unfolding total
total_bounded [] = omega arith
total_bounded (event ∷ queue) = omega (arith, weight_bounded event, total_bounded queue)

module _ {D : Type 0} (J : Json) (io : Devices D) (host : Host D) where
  exec_cost : (e : Effect) (sh : Shell D) → result_weight (exec J io host e sh).0 ≤ effect_cost e
  unfolding exec exec_main lane weight effect_cost
  exec_cost e sh = ground arith

  exec_all-cost : (es : List Effect) (sh : Shell D) → total (exec_all J io host es sh).0 ≤ cost es
  unfolding exec_all cost total
  exec_all-cost [] sh = omega arith
  exec_all-cost (e ∷ es) sh =
      let first = exec_cost e sh in
      let rest = exec_all-cost es (exec J io host e sh).1 in ground (arith, first, rest)

  handled_total :
      (event : Event) (sh : Shell D) → total (handle J io host event sh).0 + 1 ≤ weight event
  unfolding handle
  handled_total event sh =
      let ((now, wall), d) = host.read_clock sh.watchdog.devices in
      let (core, reaction) = on J event now wall sh.core in
      let d1 : D = elim reaction.snapshot [ none ↦ d | some snapshot ↦ host.publish snapshot d ] in
      let paid = (on-IsPaid J event now wall sh.core).0 in
      let spent =
        exec_all-cost reaction.effects
          (record (in_world d1 sh) { core = core; wake_at = reaction.wake_at }) in
      omega (arith, paid, spent)

  drained :
      (fuel : ℕ) (queue : List Event) (sh : Shell D)
      → total queue ≤ fuel
      → (drain_within J io host fuel queue sh).0 ≡ []
  unfolding drain_within total
  drained fuel [] sh h = refl
  drained zero (event ∷ queue) sh h = absurd (weightless event (omega arith))
  drained (suc fuel) (event ∷ queue) sh h =
      let (results, sh1) = handle J io host event sh in
      let less = handled_total event sh in
      drained fuel (queue ++ results) sh1 (omega (arith, less, total-append queue results))

  -- The drain ends with an empty queue, whatever the calls of the world answer: the results that
  -- are queued while an event is handled are worth less than the event, and five rounds for each
  -- event of the queue are enough.
  pub drain_ends : (queue : List Event) (sh : Shell D) → (drain J io host queue sh).0 ≡ []
  unfolding drain
  drain_ends queue sh = drained (5 * length queue) queue sh (total_bounded queue)
