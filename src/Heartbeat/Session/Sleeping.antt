-- ===== src/Heartbeat/Session/Sleeping.antt =====
-- The interruptible sleep of the heartbeat session.
use gdut_net.Base.{
  ℕ, zero, suc, ◌+◌, ◌-◌, ◌*◌, ◌/◌, ◌≤◌, ◌<◌, ◌≡◌, refl, min, Bool, true, false, not, arith, ltb,
  if◌then◌else◌,
}
use gdut_net.Heartbeat.Spec.{Digests}
use gdut_net.Heartbeat.Session.{Udp, slice, sleep_until, sleep_interruptible}

module _ {S : Type 0} (udp : Udp S) (digests : Digests) where
  -- How a sleep ends: by the stop token, or not before its time.
  abbrev pub IsOver : ℕ → Bool × S → Type 0
  IsOver deadline r = (r.0 ≡ not (udp.is_cancelled r.1)) × (r.0 ≡ true → deadline ≤ udp.now r.1)

  branch-IsOver :
      (deadline : ℕ) (s : S) (rest : Bool × S)
      → (udp.now s < deadline → IsOver deadline rest)
      → let r : Bool × S =
          if ltb (udp.now s) deadline
          then (if udp.is_cancelled s then (false, s) else rest)
          else (not (udp.is_cancelled s), s) in
        IsOver deadline r
  branch-IsOver deadline s rest h = grind arith

  sleep_until-IsOver :
      (fuel deadline : ℕ) (s : S)
      → ((d : ℕ) (t : S) → udp.now t + d ≤ udp.now (udp.sleep d t))
      → deadline ≤ udp.now s + fuel * slice
      → IsOver deadline (sleep_until udp digests fuel deadline s)
  unfolding sleep_until
  sleep_until-IsOver zero deadline s slept h = (refl, λ _. omega arith)
  sleep_until-IsOver (suc fuel) deadline s slept h =
      let d = min slice (deadline - udp.now s) in
      branch-IsOver deadline s (sleep_until udp digests fuel deadline (udp.sleep d s))
        (λ early. sleep_until-IsOver fuel deadline (udp.sleep d s) slept (omega (arith, slept d s)))

  -- Where the system's sleep takes at least the time that it is asked for, the sliced sleep ends:
  -- its slices are enough to reach the deadline. It reports whether the token is still clear, and
  -- where it is clear, the whole time has passed.
  pub sleep_ends :
      (total : ℕ) (s : S)
      → ((d : ℕ) (t : S) → udp.now t + d ≤ udp.now (udp.sleep d t))
      → let r = sleep_interruptible udp digests total s in
        (r.0 ≡ not (udp.is_cancelled r.1)) × (r.0 ≡ true → udp.now s + total ≤ udp.now r.1)
  unfolding sleep_interruptible
  sleep_ends total s slept =
      sleep_until-IsOver (total / slice + 1) (udp.now s + total) s slept (omega arith)
