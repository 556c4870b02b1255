-- ===== src/Backoff/Delays.antt =====
-- The delays that a backoff hands out, in closed form.
use Prim.Native.Nat
use native.Mathlib.Nat.{pow-le-pow_right, mul-le-mul_left}
use gdut_net.Base.{
  ℕ, zero, suc, ◌+◌, ◌*◌, ◌^◌, ◌≤◌, ◌≡◌, refl, ◌∙◌, arith, leb, Bool-cases, inl, inr, u32_max,
}
use gdut_net.Backoff.{Backoff, duration_max, new, next_delay}

-- The delay of the call that comes after n others.
abbrev pub nth_delay : ℕ → Backoff → ℕ
nth_delay zero b = (next_delay b).1
nth_delay (suc n) b = nth_delay n (next_delay b).0

-- What n calls leave behind.
abbrev pub after : ℕ → Backoff → Backoff
after zero b = b
after (suc n) b = after n (next_delay b).0

scale_mono : (a m n : ℕ) → m ≤ n → a * 2 ^ m ≤ a * 2 ^ n
scale_mono a m n h = mul-le-mul_left a (pow-le-pow_right {n = 2} (omega arith) h)

-- One call at attempt k, where the cap is reached within twenty doublings.
next_delay_lem :
    (b : Backoff)
    → b.min ≤ b.max
    → b.max ≤ b.min * 2 ^ 20
    → b.max ≤ duration_max
    → (next_delay b).1 ≡ Nat.min (b.min * 2 ^ b.attempt) b.max
unfolding next_delay
next_delay_lem b h reach fits = elim (Bool-cases (leb b.attempt 20)) [
  | inl few ↦
      let e : Nat.min b.attempt 20 ≡ b.attempt = ground arith in
      rw e (omega (arith, scale_mono b.min 0 b.attempt (omega arith)))
  | inr many ↦
      let e : Nat.min b.attempt 20 ≡ 20 = ground arith in
      rw e (omega (arith, scale_mono b.min 20 b.attempt (ground arith)))
]

-- The fields of a backoff after n calls.
after_min : (n : ℕ) (b : Backoff) → (after n b).min ≡ b.min
after_min zero b = refl
after_min (suc n) b = after_min n (next_delay b).0 ∙ (unfold next_delay in refl)

after_max : (n : ℕ) (b : Backoff) → (after n b).max ≡ b.max
after_max zero b = refl
after_max (suc n) b = after_max n (next_delay b).0 ∙ (unfold next_delay in refl)

next_attempt : (b : Backoff) → (next_delay b).0.attempt ≡ Nat.min (b.attempt + 1) u32_max
unfolding next_delay
next_attempt b = refl

after_attempt :
    (n : ℕ) (b : Backoff)
    → b.attempt ≤ u32_max
    → (after n b).attempt ≡ Nat.min (b.attempt + n) u32_max
after_attempt zero b h = omega arith
after_attempt (suc n) b h =
    omega (arith, next_attempt b, after_attempt n (next_delay b).0 (omega (arith, next_attempt b)))

nth_delay-after : (n : ℕ) (b : Backoff) → nth_delay n b ≡ (next_delay (after n b)).1
nth_delay-after zero b = refl
nth_delay-after (suc n) b = nth_delay-after n (next_delay b).0

nth_delay_lem :
    (n : ℕ) (b : Backoff)
    → b.min ≤ b.max
    → b.max ≤ b.min * 2 ^ 20
    → b.max ≤ duration_max
    → nth_delay n b ≡ Nat.min (b.min * 2 ^ (after n b).attempt) b.max
nth_delay_lem n b h reach fits =
    let law =
      next_delay_lem (after n b) (omega (arith, after_min n b, after_max n b))
        (omega (arith, after_min n b, after_max n b)) (omega (arith, after_max n b)) in
    cc (nth_delay-after n b, law, after_min n b, after_max n b)

-- A backoff between `min` and `max`, where twenty doublings of `min` reach `max` and `max` is a
-- Duration: its delay number n (from 0) is `min` doubled n times and capped at `max`, for every n.
pub nth_delay-eq :
    (min max n : ℕ)
    → min ≤ max
    → max ≤ min * 2 ^ 20
    → max ≤ duration_max
    → nth_delay n (new min max) ≡ Nat.min (min * 2 ^ n) max
unfolding new
nth_delay-eq min max n h reach fits =
    let b : Backoff = record { min = min; max = max; attempt = 0 } in
    let law = nth_delay_lem n b h reach fits in
    let made = after_attempt n b (omega arith) in
    elim (Bool-cases (leb n 20)) [
      | inl few ↦ let e : (after n b).attempt ≡ n = ground (arith, made) in law ∙ rw e
      | inr many ↦
          let e : 20 ≤ (after n b).attempt = ground (arith, made) in
          omega (
            arith,
            law,
            scale_mono min 20 n (ground arith),
            scale_mono min 20 (after n b).attempt e,
          )
    ]
