-- ===== src/Supervisor/Reducer/Snapshots.antt =====
-- What a reaction publishes, and what publishing changes.
use gdut_net.Base.{
  ℕ, ◌≡◌, ◌≢◌, ◌⊎◌, refl, ap, ◌∙◌, not, none, some, List, ◌&&◌, if◌then◌else◌, inl, inr,
}
use mathlib.Core.Logic.{if_pos, if_neg}
use gdut_net.Protocol.{OptionStateSnapshot-discrete}
use gdut_net.Supervisor.State.{Supervisor, compose}
use gdut_net.Supervisor.Types.{Effect}
use gdut_net.Supervisor.Reducer.{publish, next_wake, react}
use gdut_net.Wireless.Portal.{Json}

-- The state with its own snapshot on record as the last one.
abbrev pub published : Supervisor → Supervisor
published s = record s { last_snapshot = some (compose s) }

-- A snapshot is published exactly where it differs from the last one, and it is then the last one.
publish_cases :
    (s : Supervisor)
    → ((s.last_snapshot ≡ some (compose s)) × (publish s ≡ (s, none)))
      ⊎ ((s.last_snapshot ≢ some (compose s)) × (publish s ≡ (published s, some (compose s))))
unfolding publish
publish_cases s = elim (OptionStateSnapshot-discrete s.last_snapshot (some (compose s))) [
  | yes same ↦ inl (
    same,
    if_pos (OptionStateSnapshot-discrete s.last_snapshot (some (compose s))) same (s, none)
        (published s, some (compose s)),
  )
  | no differ ↦ inr (
    differ,
    if_neg (OptionStateSnapshot-discrete s.last_snapshot (some (compose s))) differ (s, none)
        (published s, some (compose s)),
  )
]

pub publish_state : (s : Supervisor) → (publish s).0 ≡ published s
publish_state s = elim (publish_cases s) [
  | inl (same, e) ↦ ap (λ r. r.0) e ∙ (λ i. record s { last_snapshot = same i })
  | inr (differ, e) ↦ ap (λ r. r.0) e
]

module _ (J : Json) (now : ℕ) (s : Supervisor) (effects : List Effect) where
  pub react_state : (react J now (s, effects)).0 ≡ published s
  react_state = unfold react in publish_state s

  pub react_effects : (react J now (s, effects)).1.effects ≡ effects
  react_effects = unfold react in refl

  pub react_wake :
      (react J now (s, effects)).1.wake_at
      ≡ (if s.started && not s.stopped then some (next_wake now s) else none)
  react_wake =
      unfold react next_wake in
      ap (λ s'. if s'.started && not s'.stopped then some (next_wake now s') else none)
        (publish_state s)

  -- A reaction publishes a snapshot exactly where the state's snapshot differs from the last one
  -- published; that state's snapshot is then the last one, so every reader of the published
  -- snapshots has the current state.
  pub react_snapshot :
      (((react J now (s, effects)).1.snapshot ≡ none) × (s.last_snapshot ≡ some (compose s)))
      ⊎ (((react J now (s, effects)).1.snapshot ≡ some (compose s))
          × (s.last_snapshot ≢ some (compose s)))
  react_snapshot =
      unfold react in
      elim (publish_cases s) [
        | inl (same, e) ↦ inl (ap (λ r. r.1) e, same)
        | inr (differ, e) ↦ inr (ap (λ r. r.1) e, differ)
      ]
