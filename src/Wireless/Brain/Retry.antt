-- ===== src/Wireless/Brain/Retry.antt =====
-- Portal logins that fail: the retry schedule and what restarts it.
use Prim.Native.Nat
use gdut_net.Base.{
  ℕ, ◌+◌, ◌≤◌, ◌<◌, String, ◌≡◌, ◌⊎◌, refl, false, some, List, [], ◌∷◌, leb, ◌==◌, arith, add64,
  if◌then◌else◌, u32_max, length, ◌∙◌,
}
use gdut_net.Protocol.{wired_plus_standby, joining, error}
use gdut_net.Wireless.Brain.{World, nothing, associate, Brain, restart, on_auth, decide}
use gdut_net.Wireless.Brain.Debounce.{healthy}

-- The wait after the k-th failure in a row, k from 1: 5 s, 15 s, then 30 s.
abbrev pub wait_after : ℕ → ℕ
wait_after k = if leb k 1 then 5 else if k == 2 then 15 else 30

-- Failed logins in a row, each with its message and time, with anything that does not log in in
-- between: ticks and restarts.
pub data Between : Type 0 where
  tick : World → Between
  reset : Between

abbrev pub pass : List Between → Brain → Brain
pass [] b = b
pass (tick w ∷ r) b = pass r (decide b w).0
pass (reset ∷ r) b = pass r (restart b)

decide_count : (w : World) (b : Brain) → (decide b w).0.auth_fail_count ≡ b.auth_fail_count
unfolding decide
decide_count w b = ground arith

pass_count : (r : List Between) (b : Brain) → (pass r b).auth_fail_count ≡ b.auth_fail_count
pass_count [] b = refl
pass_count (tick w ∷ r) b = pass_count r (decide b w).0 ∙ decide_count w b
pass_count (reset ∷ r) b = pass_count r (restart b) ∙ (unfold restart in refl)

-- A failed login, after what came between.
abbrev pub Failure : Type 0
Failure = List Between × String × ℕ

abbrev pub fail_all : List Failure → Brain → Brain
fail_all [] b = b
fail_all ((r, msg, now) ∷ fs) b = fail_all fs (on_auth false msg now (pass r b))

on_auth_count :
    (msg : String) (now : ℕ) (b : Brain)
    → (on_auth false msg now b).auth_fail_count ≡ Nat.min (b.auth_fail_count + 1) u32_max
unfolding on_auth
on_auth_count msg now b = refl

fail_all_count :
    (fs : List Failure) (b : Brain)
    → b.auth_fail_count ≤ u32_max
    → (fail_all fs b).auth_fail_count ≡ Nat.min (b.auth_fail_count + length fs) u32_max
fail_all_count [] b h = omega arith
fail_all_count ((r, msg, now) ∷ fs) b h =
    let next = on_auth_count msg now (pass r b) in
    let same = pass_count r b in
    omega (
      arith,
      next,
      same,
      fail_all_count fs (on_auth false msg now (pass r b)) (omega (arith, next, same)),
    )

-- From a failure count of zero, the login that fails after k others, whatever ticks and restarts lie
-- between the failures, ends in Error with the next try due 5, 15 or 30 seconds later: 5 for k = 0,
-- 15 for k = 1, 30 from then on. A restart does not clear the count.
pub retry_schedule :
    (b : Brain) (fs : List Failure) (r : List Between) (msg : String) (now : ℕ)
    → b.auth_fail_count ≡ 0
    → ((on_auth false msg now (pass r (fail_all fs b))).phase ≡ error)
      × ((on_auth false msg now (pass r (fail_all fs b))).next_auth_at
          ≡ some (add64 now (wait_after (length fs + 1))))
      × ((on_auth false msg now (pass r (fail_all fs b))).last_error ≡ some msg)
unfolding on_auth
retry_schedule b fs r msg now z =
    ground (arith, pass_count r (fail_all fs b), fail_all_count fs b (omega arith))

-- In Error, where the WLAN is wanted (standby mode, or an unhealthy wired side), the tick starts a
-- join exactly when the retry time has come, and otherwise stays in Error and does nothing.
pub retry_gate :
    (b : Brain) (w : World) (t : ℕ)
    → b.phase ≡ error
    → b.next_auth_at ≡ some t
    → (b.mode ≡ wired_plus_standby) ⊎ (healthy w ≡ false)
    → ((t ≤ w.now) × ((decide b w).1 ≡ associate) × ((decide b w).0.phase ≡ joining))
      ⊎ ((w.now < t) × ((decide b w).1 ≡ nothing) × ((decide b w).0.phase ≡ error))
unfolding decide
retry_gate b w t p e wanted = ground arith
