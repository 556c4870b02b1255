-- ===== src/Crypto.antt =====
-- src/crypto.rs: the protection of the password, as a text `GDUT1:<entropy_hex>:<base64>`. DPAPI, the
-- registry, the source of random bytes, base64 and UTF-8 are the parameter `Vault`, over a state T.
-- Texts are the codes of their characters, bytes are numbers, and none is an error. The names of the
-- registry's key and value are in `Vault`, and the freeing of buffers is left out.
pub mod RoundTrip
use gdut_net.Base.{
  ℕ, zero, suc, ◌+◌, ◌-◌, ◌*◌, ◌/◌, ◌%◌, Bool, true, false, not, ◌&&◌, ◌||◌, Option, none, some,
  List, [], ◌∷◌, ◌++◌, length, map, any, ltb, leb, ◌==◌, if◌then◌else◌,
}
use gdut_net.Http.{strip_prefix, is_empty, split_once, lower}
use gdut_net.Ipv4.{◌>>=◌}
use gdut_net.Payload.{ensure, ◌>>◌}

-- The answer of `RegDeleteTreeW`: ERROR_FILE_NOT_FOUND is apart from all other errors.
pub data Deleted : Type 0 where
  removed no_key kept : Deleted

-- `get_value` is `RegGetValueW` into a buffer of 32 bytes, with the bytes that it found.
pub record Vault (T : Type 0) : Type 0 where
  pub base64_encode : List ℕ → List ℕ
  pub base64_decode : List ℕ → Option (List ℕ)
  pub from_utf8 : List ℕ → Option (List ℕ)
  pub as_bytes : List ℕ → List ℕ
  pub get_value : T → Option (List ℕ)
  pub fill : T → List ℕ × T
  pub create_key : T → Bool × T
  pub set_value : List ℕ → T → Bool × T
  pub close_key : T → Bool × T
  pub delete_tree : T → Deleted × T
  pub crypt_protect : List ℕ → List ℕ → T → Option (List ℕ)
  pub crypt_unprotect : List ℕ → List ℕ → T → Option (List ℕ)

-- BLOB_PREFIX, `GDUT1:`
abbrev pub blob_prefix : List ℕ
blob_prefix = b'G' ∷ b'D' ∷ b'U' ∷ b'T' ∷ b'1' ∷ b':' ∷ []

-- ENTROPY_LEN
abbrev pub entropy_len : ℕ
entropy_len = 32

abbrev pub is_hexdigit : ℕ → Bool
is_hexdigit c =
    (leb b'0' c && leb c b'9') || ((leb b'a' c && leb c b'f') || (leb b'A' c && leb c b'F'))

unfoldable pub wrap_blob : (List ℕ → List ℕ) → List ℕ → List ℕ → List ℕ
wrap_blob encode entropy_hex protected = blob_prefix ++ (entropy_hex ++ b':' ∷ encode protected)

-- The test of the entropy of a text.
unfoldable pub is_entropy : List ℕ → Bool
is_entropy hex =
    not (is_empty hex) && length hex % 2 == 0 && not (any (λ c. not (is_hexdigit c)) hex)

unfoldable pub unwrap_blob : (List ℕ → Option (List ℕ)) → List ℕ → Option (List ℕ × List ℕ)
unfolding split_once is_entropy
unwrap_blob decode text = do
  rest ← strip_prefix blob_prefix text
  (entropy_hex, encoded) ← split_once rest
  ensure (is_entropy entropy_hex)
  protected ← decode encoded
  if is_empty protected then none else some (map lower entropy_hex, protected)

-- A digit of `{b:02x}`
abbrev pub hex_digit : ℕ → ℕ
hex_digit n = if ltb n 10 then b'0' + n else b'a' + n - 10

unfoldable pub hex_encode : List ℕ → List ℕ
hex_encode [] = []
hex_encode (b ∷ bs) = hex_digit (b / 16) ∷ hex_digit (b % 16) ∷ hex_encode bs

abbrev pub digit_value : ℕ → Option ℕ
digit_value c =
    if leb b'0' c && leb c b'9'
    then some (c - b'0')
    else if leb b'a' c && leb c b'f'
    then some (c - b'a' + 10)
    else if leb b'A' c && leb c b'F'
    then some (c - b'A' + 10)
    else none

-- `u8::from_str_radix` of two characters, which takes a sign before a digit.
unfoldable pub from_str_radix : ℕ → ℕ → Option ℕ
from_str_radix c d =
    let both = digit_value c >>= λ x. digit_value d >>= λ y. some (16 * x + y) in
    if c == b'+' then digit_value d else both

-- Of a text of an even length, as `unwrap_blob` gives it.
unfoldable pub hex_decode : List ℕ → Option (List ℕ)
unfolding from_str_radix
hex_decode [] = some []
hex_decode (c ∷ []) = some []
hex_decode (c ∷ d ∷ cs) = do b ← from_str_radix c d; bs ← hex_decode cs; some (b ∷ bs)

module _ {T : Type 0} (os : Vault T) where
  -- New entropy, written to the registry.
  unfoldable pub new_entropy : T → Option (List ℕ) × T
  new_entropy t =
      let (entropy, t1) = os.fill t in
      let (created, t2) = os.create_key t1 in
      let (written, t3) = os.set_value entropy t2 in
      let (closed, t4) = os.close_key t3 in
      if created then (if written && closed then some entropy else none, t4) else (none, t2)

  unfoldable pub ensure_entropy : T → Option (List ℕ) × T
  unfolding new_entropy
  ensure_entropy t =
      let fresh = new_entropy t in
      elim (os.get_value t) [
        | none ↦ fresh
        | some bytes ↦ if length bytes == entropy_len then (some bytes, t) else fresh
      ]

  unfoldable pub delete_entropy : T → Bool × T
  delete_entropy t =
      let (deleted, t') = os.delete_tree t in
      elim deleted [ removed ↦ (true, t') | no_key ↦ (true, t') | kept ↦ (false, t') ]

  -- The text, once the entropy is there.
  unfoldable pub protect_with : List ℕ → List ℕ → T → Option (List ℕ)
  unfolding wrap_blob hex_encode
  protect_with plain entropy t = do
    protected ← os.crypt_protect entropy (os.as_bytes plain) t
    some (wrap_blob os.base64_encode (hex_encode entropy) protected)

  unfoldable pub protect : List ℕ → T → Option (List ℕ) × T
  unfolding ensure_entropy protect_with
  protect plain t =
      let (entropy, t1) = ensure_entropy t in (entropy >>= λ e. protect_with plain e t1, t1)

  unfoldable pub unprotect : List ℕ → T → Option (List ℕ)
  unfolding unwrap_blob hex_decode
  unprotect blob t = do
    (entropy_hex, protected) ← unwrap_blob os.base64_decode blob
    entropy ← hex_decode entropy_hex
    bytes ← os.crypt_unprotect entropy protected t
    os.from_utf8 bytes
