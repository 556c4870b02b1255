-- ===== src/Wireless/Brain/Debounce.antt =====
-- The exclusive mode's debouncing: the takeover and the release against the history of ticks.
use gdut_net.Base.{
  ℕ, ◌^◌, ◌+◌, ◌≤◌, ◌<◌, String, ◌≡◌, ◌≢◌, ◌⊎◌, inl, inr, refl, Bool, true, false, Option, none,
  some, List, [], ◌∷◌, ◌&&◌, arith, sub64, sub64_exact, unwrap_or, ap, ◌∙◌, if◌then◌else◌,
}
use gdut_net.Protocol.{wired_exclusive, wired_plus_standby, off, joining}
use gdut_net.Wireless.Brain.{
  World, associate, disassociate, Brain, new, set_mode, on_auth, restart, decide,
}

-- The wired side is healthy: the link is up and the session connected.
abbrev pub healthy : World → Bool
healthy w = w.eth_link_up && w.wired_connected

-- A history of ticks, latest first. Its latest ticks, down to one at time t, all have the wired
-- side in the given health.
pub data Since (health : Bool) (t : ℕ) : List World → Type 0 where
  first : (w : World) (h : List World) → healthy w ≡ health → w.now ≡ t → Since health t (w ∷ h)
  more :
      (w : World) (h : List World) → healthy w ≡ health → Since health t h → Since health t (w ∷ h)

-- What a brain is given while its mode stays: ticks, login outcomes, restarts.
pub data Input : Type 0 where
  tick : World → Input
  report : Bool → String → ℕ → Input
  reset : Input

-- The brain after a history of inputs, latest first, from a brain b.
abbrev pub after : Brain → List Input → Brain
after b [] = b
after b (tick w ∷ h) = (decide (after b h) w).0
after b (report ok msg now ∷ h) = on_auth ok msg now (after b h)
after b (reset ∷ h) = restart (after b h)

-- The ticks of a history.
abbrev pub ticks : List Input → List World
ticks [] = []
ticks (tick w ∷ h) = w ∷ ticks h
ticks (report ok msg now ∷ h) = ticks h
ticks (reset ∷ h) = ticks h

-- What the two timers stand for.
record IsTimed (b : Brain) (h : List World) : Type 0 where
  exclusive : b.mode ≡ wired_exclusive
  unhealthy : (t : ℕ) → b.unhealthy_since ≡ some t → Since false t h
  healthy_for : (t : ℕ) → b.healthy_since ≡ some t → Since true t h

mode-decide : (b : Brain) (w : World) → (decide b w).0.mode ≡ b.mode
unfolding decide
mode-decide b w = ground arith

-- How one tick moves the timers.
decide-unhealthy_since :
    (b : Brain) (w : World)
    → b.mode ≡ wired_exclusive
    → (decide b w).0.unhealthy_since
      ≡ (if healthy w then none else some (unwrap_or w.now b.unhealthy_since))
unfolding decide
decide-unhealthy_since b w m = ground arith

decide-healthy_since :
    (b : Brain) (w : World)
    → b.mode ≡ wired_exclusive
    → (decide b w).0.healthy_since
      ≡ (if healthy w then some (unwrap_or w.now b.healthy_since) else none)
unfolding decide
decide-healthy_since b w m = ground arith

Since-step :
    (health : Bool) (old : Option ℕ) (w : World) (h : List World) (t : ℕ)
    → ((s : ℕ) → old ≡ some s → Since health s h)
    → healthy w ≡ health
    → unwrap_or w.now old ≡ t
    → Since health t (w ∷ h)
Since-step health none w h t ih e same = first w h e same
Since-step health (some s) w h t ih e same = more w h e (ih t (ap some same))

decide-IsTimed :
    (b : Brain) (w : World) (h : List World) → IsTimed b h → IsTimed (decide b w).0 (w ∷ h)
decide-IsTimed b w h i = record {
  exclusive = mode-decide b w ∙ i.exclusive;
  unhealthy = λ t e.
      Since-step false b.unhealthy_since w h t i.unhealthy
        (ground (arith, decide-unhealthy_since b w i.exclusive))
        (ground (arith, decide-unhealthy_since b w i.exclusive));
  healthy_for = λ t e.
      Since-step true b.healthy_since w h t i.healthy_for
        (ground (arith, decide-healthy_since b w i.exclusive))
        (ground (arith, decide-healthy_since b w i.exclusive));
}

on_auth-IsTimed :
    (ok : Bool) (msg : String) (now : ℕ) (b : Brain) (h : List World)
    → IsTimed b h
    → IsTimed (on_auth ok msg now b) h
unfolding on_auth
on_auth-IsTimed true msg now b h i = record {
  exclusive = i.exclusive;
  unhealthy = i.unhealthy;
  healthy_for = i.healthy_for;
}
on_auth-IsTimed false msg now b h i = record {
  exclusive = i.exclusive;
  unhealthy = i.unhealthy;
  healthy_for = i.healthy_for;
}

module _ (takeover release probe : ℕ) where
  abbrev start : Brain
  start = new wired_exclusive takeover release probe

  after-IsTimed : (h : List Input) → IsTimed (after start h) (ticks h)
  unfolding new restart
  after-IsTimed [] = record { exclusive = refl; unhealthy = λ t e. cc e; healthy_for = λ t e. cc e }
  after-IsTimed (tick w ∷ h) = decide-IsTimed _ w (ticks h) (after-IsTimed h)
  after-IsTimed (report ok msg now ∷ h) = on_auth-IsTimed ok msg now _ (ticks h) (after-IsTimed h)
  after-IsTimed (reset ∷ h) =
      let i = after-IsTimed h in
      record { exclusive = i.exclusive; unhealthy = i.unhealthy; healthy_for = i.healthy_for }

  -- The configured times stay.
  after_times :
      (h : List Input)
      → ((after start h).takeover_after ≡ takeover) × ((after start h).release_after ≡ release)
  unfolding new restart on_auth decide
  after_times [] = (refl, refl)
  after_times (tick w ∷ h) = ground (arith, after_times h)
  after_times (report ok msg now ∷ h) = ground (arith, after_times h)
  after_times (reset ∷ h) = after_times h

takeover_timer :
    (b : Brain) (w : World)
    → b.mode ≡ wired_exclusive
    → b.phase ≡ off
    → (decide b w).1 ≡ associate
    → (t : ℕ) × ((decide b w).0.unhealthy_since ≡ some t) × (b.takeover_after ≤ sub64 w.now t)
unfolding decide
takeover_timer b w m p a = (unwrap_or w.now b.unhealthy_since, ground arith, ground arith)

release_timer :
    (b : Brain) (w : World)
    → b.mode ≡ wired_exclusive
    → (decide b w).1 ≡ disassociate
    → (t : ℕ) × ((decide b w).0.healthy_since ≡ some t) × (b.release_after ≤ sub64 w.now t)
unfolding decide
release_timer b w m a = (unwrap_or w.now b.healthy_since, ground arith, ground arith)

-- In exclusive mode, from a new brain and through any ticks, login outcomes and restarts: a tick
-- that starts a takeover from Off ends a run of ticks without a healthy one, whose first was at
-- least `takeover` seconds before (as u64 subtraction counts them).
pub takeover_debounced :
    (takeover release probe : ℕ) (h : List Input) (w : World)
    → (after (new wired_exclusive takeover release probe) h).phase ≡ off
    → (decide (after (new wired_exclusive takeover release probe) h) w).1 ≡ associate
    → (t : ℕ) × Since false t (w ∷ ticks h) × (takeover ≤ sub64 w.now t)
takeover_debounced x r p h w o a =
    let timed = after-IsTimed x r p h in
    let (t, e, waited) = takeover_timer _ w timed.exclusive o a in
    (t, (after-IsTimed x r p (tick w ∷ h)).unhealthy t e, rw (← (after_times x r p h).0) waited)

-- In exclusive mode, from a new brain and through any ticks, login outcomes and restarts: a tick
-- that gives the WLAN up ends a run of healthy ticks, whose first was at least `release` seconds
-- before (as u64 subtraction counts them).
pub release_debounced :
    (takeover release probe : ℕ) (h : List Input) (w : World)
    → (decide (after (new wired_exclusive takeover release probe) h) w).1 ≡ disassociate
    → (t : ℕ) × Since true t (w ∷ ticks h) × (release ≤ sub64 w.now t)
release_debounced x r p h w a =
    let timed = after-IsTimed x r p h in
    let (t, e, waited) = release_timer _ w timed.exclusive a in
    (t, (after-IsTimed x r p (tick w ∷ h)).healthy_for t e, rw (← (after_times x r p h).1) waited)

-- Where the wired side has been out for long enough on the timer, and the clock has not gone back,
-- an unhealthy tick in Off starts the takeover.
pub takeover_due :
    (b : Brain) (w : World) (t : ℕ)
    → b.mode ≡ wired_exclusive
    → b.phase ≡ off
    → healthy w ≡ false
    → b.unhealthy_since ≡ some t
    → t + b.takeover_after ≤ w.now
    → w.now < 2 ^ 64
    → ((decide b w).1 ≡ associate) × ((decide b w).0.phase ≡ joining)
unfolding decide
takeover_due b w t m p e s due fits = ground (arith, sub64_exact w.now t)

-- Standby ticks leave both timers as they are.
standby_timers :
    (b : Brain) (w : World)
    → b.mode ≡ wired_plus_standby
    → ((decide b w).0.healthy_since ≡ b.healthy_since)
      × ((decide b w).0.unhealthy_since ≡ b.unhealthy_since)
      × ((decide b w).0.release_after ≡ b.release_after)
      × ((decide b w).0.phase ≢ off)
unfolding decide
standby_timers b w m = ground arith

-- The brain after ticks in the order given.
abbrev pub run : Brain → List World → Brain
run b [] = b
run b (w ∷ ws) = run (decide b w).0 ws

run-standby_timers :
    (b : Brain) (ws : List World)
    → b.mode ≡ wired_plus_standby
    → (b.phase ≢ off) ⊎ (ws ≢ [])
    → ((run b ws).healthy_since ≡ b.healthy_since)
      × ((run b ws).release_after ≡ b.release_after)
      × ((run b ws).phase ≢ off)
run-standby_timers b [] m (inl o) = (refl, refl, o)
run-standby_timers b [] m (inr o) = absurd (o refl)
run-standby_timers b (w ∷ ws) m o =
    let (h, u, r, o') = standby_timers b w m in
    let (h', r', o'') = run-standby_timers (decide b w).0 ws (mode-decide b w ∙ m) (inl o') in
    (h' ∙ h, r' ∙ r, o'')

-- The release timer is not cleared in standby mode: where it runs since t in a brain that is switched
-- to standby, then after any standby ticks, healthy or not, and the switch back to exclusive mode, the
-- very next tick, if healthy, gives the WLAN up once `release_after` has passed since t. There is at
-- least one standby tick, or the brain was not Off at the switch to standby. The clock fits 64 bits.
pub stale_release :
    (b : Brain) (ws : List World) (w : World) (t : ℕ)
    → b.mode ≡ wired_plus_standby
    → (b.phase ≢ off) ⊎ (ws ≢ [])
    → b.healthy_since ≡ some t
    → healthy w ≡ true
    → t + b.release_after ≤ w.now
    → w.now < 2 ^ 64
    → (decide (set_mode wired_exclusive (run b ws)) w).1 ≡ disassociate
unfolding decide set_mode
stale_release b ws w t m o s e due fits =
    let (h, r, o') = run-standby_timers b ws m o in ground (arith, h, r, o', sub64_exact w.now t)
