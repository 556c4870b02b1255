-- ===== src/Backoff.antt =====
-- src/backoff.rs: the exponential backoff of redialing. A duration is a number of nanoseconds.
pub mod Delays
use Prim.Native.Nat
use gdut_net.Base.{ℕ, ◌+◌, ◌-◌, ◌*◌, ◌^◌, saturating_add32}

-- Duration::from_secs
abbrev pub from_secs : ℕ → ℕ
from_secs s = s * 1000000000

-- Duration::from_millis
abbrev pub from_millis : ℕ → ℕ
from_millis ms = ms * 1000000

-- Duration::MAX
abbrev pub duration_max : ℕ
duration_max = 2 ^ 64 * 1000000000 - 1

-- AUTH_FAIL_DELAY
abbrev pub auth_fail_delay : ℕ
auth_fail_delay = from_secs 600

pub record Backoff : Type 0 where
  pub min : ℕ
  pub max : ℕ
  pub attempt : ℕ

unfoldable pub new : ℕ → ℕ → Backoff
new min max = record { min = min; max = max; attempt = 0 }

-- Duration::saturating_mul
pub saturating_mul : ℕ → ℕ → ℕ
saturating_mul d k = Nat.min (d * k) duration_max

-- The backoff after the call, and the delay.
unfoldable pub next_delay : Backoff → Backoff × ℕ
unfolding saturating_mul saturating_add32
next_delay b =
    let d = saturating_mul b.min (2 ^ Nat.min b.attempt 20) in
    (record b { attempt = saturating_add32 b.attempt 1 }, Nat.max (Nat.min d b.max) b.min)

unfoldable pub reset : Backoff → Backoff
reset b = record b { attempt = 0 }
