-- ===== src/Wireless/Portal/Login/Encoded.antt =====
-- The encoding of the fields of a URL.
use gdut_net.Base.{
  ℕ, ◌+◌, ◌-◌, ◌*◌, ◌/◌, ◌%◌, ◌<◌, ◌≡◌, refl, ap₂, ap, Bool, true, false, List, [], ◌∷◌, ◌||◌, ltb,
  ◌==◌, if◌then◌else◌, All, arith,
}
use gdut_net.Ipv4.{is_digit}
use gdut_net.Wireless.Portal.Login.{is_unreserved, hex_digit, urlencode}

-- The value of a digit that is written in base 16, with capitals.
abbrev pub from_hex : ℕ → ℕ
from_hex h = if ltb h b'A' then h - b'0' else h - b'A' + 10

-- What a server makes of a percent-encoded field.
pub percent_decode : List ℕ → List ℕ
percent_decode [] = []
percent_decode (c ∷ []) = c ∷ []
percent_decode (c ∷ h ∷ []) = c ∷ h ∷ []
percent_decode (c ∷ h ∷ l ∷ rest) =
    let after = percent_decode rest in
    let next = percent_decode (h ∷ l ∷ rest) in
    if c == b'%' then (from_hex h * 16 + from_hex l) ∷ after else c ∷ next

decode_plain :
    (c : ℕ) (rest : List ℕ)
    → (c == b'%') ≡ false
    → percent_decode (c ∷ rest) ≡ c ∷ percent_decode rest
unfolding percent_decode
decode_plain c [] h = refl
decode_plain c (x ∷ []) h = refl
decode_plain c (x ∷ y ∷ rest) h = rw h refl

-- A byte that cannot end a field or begin another.
abbrev pub IsSafe : ℕ → Type 0
IsSafe c = (is_unreserved c || c == b'%') ≡ true

hex_digit-IsSafe : (d : ℕ) → d < 16 → IsSafe (hex_digit d)
unfolding hex_digit is_unreserved is_digit
hex_digit-IsSafe d h = ground arith

hex_value :
    (b : ℕ) → b < 256 → from_hex (hex_digit (b / 16)) * 16 + from_hex (hex_digit (b % 16)) ≡ b
unfolding hex_digit
hex_value b h = ground arith

plain_byte : (b : ℕ) → is_unreserved b ≡ true → (b == b'%') ≡ false
unfolding is_unreserved is_digit
plain_byte b h = ground arith

-- The encoding of one byte, before an encoding that is right.
encode_step :
    (c : Bool) (b : ℕ) (bs rest : List ℕ)
    → is_unreserved b ≡ c
    → b < 256
    → percent_decode rest ≡ bs
    → All IsSafe rest
    → let out : List ℕ =
        if c then b ∷ rest else b'%' ∷ hex_digit (b / 16) ∷ hex_digit (b % 16) ∷ rest in
      (percent_decode out ≡ b ∷ bs) × All IsSafe out
unfolding percent_decode
encode_step true b bs rest u h e safe =
    (rw (decode_plain b rest (plain_byte b u)) (ap (λ xs. b ∷ xs) e), (ground (arith, u), safe))
encode_step false b bs rest u h e safe = (
  ap₂ (λ x xs. x ∷ xs) (hex_value b h) e,
  (
    ground arith,
    (hex_digit-IsSafe (b / 16) (omega arith), (hex_digit-IsSafe (b % 16) (omega arith), safe)),
  ),
)

-- An encoded field of any bytes is decoded by the server to the same bytes, and has only
-- letters, digits, `-._~` and `%` in it: no password or account can end its field, add another to
-- the query, or be read as something else.
pub urlencode_sound :
    (bs : List ℕ)
    → All (λ b. b < 256) bs
    → (percent_decode (urlencode bs) ≡ bs) × All IsSafe (urlencode bs)
unfolding urlencode percent_decode
urlencode_sound [] h = (refl, tt)
urlencode_sound (b ∷ bs) (h, hs) =
    let (e, safe) = urlencode_sound bs hs in
    encode_step (is_unreserved b) b bs (urlencode bs) refl h e safe
