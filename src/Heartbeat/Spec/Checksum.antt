-- ===== src/Heartbeat/Spec/Checksum.antt =====
-- The checksum of the second exchange.
use Prim.Native.Nat.{bit_xor, bit_xor-bitwise, digits, differ}
use gdut_net.Base.{ℕ, zero, suc, ◌+◌, ◌*◌, ◌/◌, ◌%◌, ◌^◌, ◌<◌, ◌≡◌, List, [], ◌∷◌, All, arith}
use gdut_net.Heartbeat.Spec.{Bytes4, to_le_bytes, xor_words, ka2_checksum}

differ_bit : (x y : ℕ) → x < 2 → y < 2 → differ x y < 2
differ_bit zero y h k = k
differ_bit (suc zero) zero h k = omega arith
differ_bit (suc zero) (suc zero) h k = omega arith
differ_bit (suc zero) (suc (suc y)) h k = absurd (omega arith)
differ_bit (suc (suc x)) y h k = absurd (omega arith)

digits_below : (k n a b : ℕ) → a < 2 ^ k → b < 2 ^ k → digits (λ y. y) differ n a b < 2 ^ k
digits_below k zero a b ha hb = hb
digits_below k (suc n) zero b ha hb = hb
digits_below zero (suc n) (suc a) b ha hb = absurd (omega arith)
digits_below (suc k) (suc n) (suc a) b ha hb =
    let ih = digits_below k n (suc a / 2) (b / 2) (omega arith) (omega arith) in
    let bit = differ_bit (suc a % 2) (b % 2) (omega arith) (omega arith) in omega (arith, ih, bit)

xor_below : (a b : ℕ) → a < 65536 → b < 65536 → bit_xor a b < 65536
xor_below a b ha hb = omega (arith, digits_below 16 a a b ha hb, bit_xor-bitwise a b)

abbrev pub IsByte : ℕ → Type 0
IsByte b = b < 256

xor_words_below :
    (sum : ℕ) (pkt : List ℕ) → sum < 65536 → All IsByte pkt → xor_words sum pkt < 65536
unfolding xor_words
xor_words_below sum [] h bytes = h
xor_words_below sum (a ∷ []) h bytes = h
xor_words_below sum (a ∷ b ∷ rest) h (ha, (hb, bytes)) =
    xor_words_below (bit_xor sum (a + b * 256)) rest (xor_below sum (a + b * 256) h (omega arith))
      bytes

-- Four bytes, lowest first, as a number.
abbrev pub from_le_bytes : Bytes4 → ℕ
from_le_bytes x = x.b0 + x.b1 * 256 + x.b2 * 65536 + x.b3 * 16777216

-- The multiplication of the checksum never wraps: for any packet of bytes, the four bytes read back
-- as the exclusive or of the 16-bit words, times 0x2c7, which is below 2^26.
pub checksum_exact :
    (pkt : List ℕ)
    → All IsByte pkt
    → (from_le_bytes (ka2_checksum pkt) ≡ xor_words 0 pkt * 0x2c7)
      × (from_le_bytes (ka2_checksum pkt) < 2 ^ 26)
unfolding ka2_checksum to_le_bytes
checksum_exact pkt bytes =
    let bound = xor_words_below 0 pkt (omega arith) bytes in
    (omega (arith, bound), omega (arith, bound))
