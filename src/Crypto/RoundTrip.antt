-- ===== src/Crypto/RoundTrip.antt =====
-- A password that is protected and read again.
use gdut_net.Base.{
  ℕ, ◌+◌, ◌*◌, ◌/◌, ◌%◌, ◌<◌, ◌≡◌, ◌≢◌, refl, ap, ap₂, subst, ◌∙◌, inl, inr, Bool, true, false, not,
  Option, some, List, [], ◌∷◌, ◌++◌, length, map, any, All, ◌==◌, arith, Option-cases, Bool-cases,
}
use gdut_net.Http.{split_once, lower, strip_prefix, is_empty}
use gdut_net.Ipv4.{◌>>=◌}
use gdut_net.Crypto.{
  Vault, blob_prefix, entropy_len, is_hexdigit, wrap_blob, is_entropy, unwrap_blob, hex_digit,
  hex_encode, digit_value, from_str_radix, hex_decode, new_entropy, ensure_entropy, protect_with,
  protect, unprotect,
}

-- Bytes are below 256.
abbrev pub AreBytes : List ℕ → Type 0
AreBytes = All (λ b. b < 256)

digit_value-hex_digit : (n : ℕ) → n < 16 → digit_value (hex_digit n) ≡ some n
digit_value-hex_digit n h = ground (arith, h)

hex_digit-is_hexdigit : (n : ℕ) → n < 16 → is_hexdigit (hex_digit n) ≡ true
hex_digit-is_hexdigit n h = ground (arith, h)

lower-hex_digit : (n : ℕ) → n < 16 → lower (hex_digit n) ≡ hex_digit n
lower-hex_digit n h = ground (arith, h)

radix_digits :
    (c d x y : ℕ)
    → c ≢ b'+'
    → digit_value c ≡ some x
    → digit_value d ≡ some y
    → from_str_radix c d ≡ some (16 * x + y)
unfolding from_str_radix
radix_digits c d x y unsigned high low =
    let both = ap₂ (λ (o o' : Option ℕ). o >>= λ m. o' >>= λ n. some (16 * m + n)) high low in
    ground (arith, unsigned, both)

radix_hex_digits :
    (b : ℕ) → b < 256 → from_str_radix (hex_digit (b / 16)) (hex_digit (b % 16)) ≡ some b
unfolding from_str_radix
radix_hex_digits b h =
    let high : b / 16 < 16 = omega arith in
    let low : b % 16 < 16 = omega arith in
    radix_digits (hex_digit (b / 16)) (hex_digit (b % 16)) (b / 16) (b % 16) (ground (arith, high))
      (digit_value-hex_digit (b / 16) high) (digit_value-hex_digit (b % 16) low)
    ∙ ap some (omega arith)

hex_decode-hex_encode : (bs : List ℕ) → AreBytes bs → hex_decode (hex_encode bs) ≡ some bs
unfolding hex_encode hex_decode
hex_decode-hex_encode [] h = refl
hex_decode-hex_encode (b ∷ bs) h =
    ground (arith, radix_hex_digits b h.0, hex_decode-hex_encode bs h.1)

length-hex_encode : (bs : List ℕ) → length (hex_encode bs) ≡ 2 * length bs
unfolding hex_encode
length-hex_encode [] = refl
length-hex_encode (b ∷ bs) = omega (arith, length-hex_encode bs)

lower-hex_encode : (bs : List ℕ) → AreBytes bs → map lower (hex_encode bs) ≡ hex_encode bs
unfolding hex_encode
lower-hex_encode [] h = refl
lower-hex_encode (b ∷ bs) h = ground (
  arith,
  lower-hex_digit (b / 16) (omega (arith, h.0)),
  lower-hex_digit (b % 16) (omega (arith, h.0)),
  lower-hex_encode bs h.1,
)

abbrev has_other : List ℕ → Bool
has_other = any (λ c. not (is_hexdigit c))

hex_encode-has_other : (bs : List ℕ) → AreBytes bs → has_other (hex_encode bs) ≡ false
unfolding hex_encode
hex_encode-has_other [] h = refl
hex_encode-has_other (b ∷ bs) h = ground (
  arith,
  hex_digit-is_hexdigit (b / 16) (omega (arith, h.0)),
  hex_digit-is_hexdigit (b % 16) (omega (arith, h.0)),
  hex_encode-has_other bs h.1,
)

is_entropy-hex_encode :
    (bs : List ℕ) → AreBytes bs → length bs ≡ 32 → is_entropy (hex_encode bs) ≡ true
unfolding is_entropy hex_encode
is_entropy-hex_encode [] h long = absurd (omega arith)
is_entropy-hex_encode (b ∷ bs) h long =
    let parity : length (hex_encode (b ∷ bs)) % 2 ≡ 0 = omega (arith, length-hex_encode (b ∷ bs)) in
    ground (arith, parity, hex_encode-has_other (b ∷ bs) h)

split_once-append :
    (hex rest : List ℕ) → has_other hex ≡ false → split_once (hex ++ b':' ∷ rest) ≡ some (hex, rest)
unfolding split_once
split_once-append [] rest h = refl
split_once-append (c ∷ cs) rest h = ground (arith, h, split_once-append cs rest)

strip_prefix-append : (p text : List ℕ) → strip_prefix p (p ++ text) ≡ some text
strip_prefix-append [] text = refl
strip_prefix-append (c ∷ p) text = ground (arith, strip_prefix-append p text)

unwrap_blob-wrap_blob :
    (encode : List ℕ → List ℕ) (decode : List ℕ → Option (List ℕ)) (hex protected : List ℕ)
    → is_entropy hex ≡ true
    → has_other hex ≡ false
    → decode (encode protected) ≡ some protected
    → is_empty protected ≡ false
    → unwrap_blob decode (wrap_blob encode hex protected) ≡ some (map lower hex, protected)
unfolding unwrap_blob wrap_blob
unwrap_blob-wrap_blob encode decode hex protected fine digits back full =
    let tail = hex ++ b':' ∷ encode protected in
    ground (
      arith,
      strip_prefix-append blob_prefix tail,
      split_once-append hex (encode protected) digits,
      fine,
      back,
      full,
    )

module _ {T : Type 0} (os : Vault T) where
  -- What is asked of the system: base64 and UTF-8 give back what they were given; the random bytes
  -- are bytes, as many as were asked for, and the registry holds bytes; and DPAPI decrypts, at any
  -- later time, what it encrypted with the same entropy, which is never empty.
  pub record IsLawful : Type 0 where
    pub decoding : (bytes : List ℕ) → os.base64_decode (os.base64_encode bytes) ≡ some bytes
    pub reading_utf8 : (text : List ℕ) → os.from_utf8 (os.as_bytes text) ≡ some text
    pub filling : (t : T) → (length (os.fill t).0 ≡ entropy_len) × AreBytes (os.fill t).0
    pub stored : (t : T) (bytes : List ℕ) → os.get_value t ≡ some bytes → AreBytes bytes
    pub decrypting :
        (entropy plain protected : List ℕ) (t t' : T)
        → os.crypt_protect entropy plain t ≡ some protected
        → os.crypt_unprotect entropy protected t' ≡ some plain
    pub encrypted :
        (entropy plain protected : List ℕ) (t : T)
        → os.crypt_protect entropy plain t ≡ some protected
        → is_empty protected ≡ false

  new_entropy-AreBytes :
      (t : T) (entropy : List ℕ)
      → IsLawful
      → (new_entropy os t).0 ≡ some entropy
      → (length entropy ≡ entropy_len) × AreBytes entropy
  unfolding new_entropy
  new_entropy-AreBytes t entropy lawful h =
      let same : (os.fill t).0 ≡ entropy = ground (arith, h) in
      subst (λ e. (length e ≡ entropy_len) × AreBytes e) same (lawful.filling t)

  ensure_entropy-AreBytes :
      (t : T) (entropy : List ℕ)
      → IsLawful
      → (ensure_entropy os t).0 ≡ some entropy
      → (length entropy ≡ entropy_len) × AreBytes entropy
  unfolding ensure_entropy
  ensure_entropy-AreBytes t entropy lawful h = elim (Option-cases (os.get_value t)) [
    | inl e ↦ new_entropy-AreBytes t entropy lawful (ground (arith, h, e))
    | inr (found, e) ↦ elim (Bool-cases (length found == entropy_len)) [
      | inl fits ↦
          let same : found ≡ entropy = ground (arith, h, e, fits) in
          subst (λ b. (length b ≡ entropy_len) × AreBytes b) same
            (ground (arith, fits), lawful.stored t found e)
      | inr short ↦ new_entropy-AreBytes t entropy lawful (ground (arith, h, e, short))
    ]
  ]

  protect_with-unprotect :
      (plain entropy blob : List ℕ) (t t' : T)
      → IsLawful
      → length entropy ≡ entropy_len
      → AreBytes entropy
      → protect_with os plain entropy t ≡ some blob
      → unprotect os blob t' ≡ some plain
  unfolding protect_with unprotect
  protect_with-unprotect plain entropy blob t t' lawful long bytes h =
      elim (Option-cases (os.crypt_protect entropy (os.as_bytes plain) t)) [
        | inl e ↦ absurd (ground (arith, h, e))
        | inr (protected, e) ↦
            let hex = hex_encode entropy in
            let same : some (wrap_blob os.base64_encode hex protected) ≡ some blob =
              ground (arith, h, e) in
            let whole =
              unwrap_blob-wrap_blob os.base64_encode os.base64_decode hex protected
                (is_entropy-hex_encode entropy bytes long) (hex_encode-has_other entropy bytes)
                (lawful.decoding protected)
                (lawful.encrypted entropy (os.as_bytes plain) protected t e) in
            let lowered : hex_decode (map lower hex) ≡ some entropy =
              ap hex_decode (lower-hex_encode entropy bytes)
              ∙ hex_decode-hex_encode entropy bytes in
            ground (
              arith,
              same,
              whole,
              lowered,
              lawful.decrypting entropy (os.as_bytes plain) protected t t' e,
              lawful.reading_utf8 plain,
            )
      ]

  -- A password that is protected is read again, at any later time, from the text that was made of it:
  -- where base64, UTF-8 and DPAPI give back what they were given, whether the entropy was in the
  -- registry already or is new.
  pub unprotect-protect :
      (plain blob : List ℕ) (t t' : T)
      → IsLawful
      → (protect os plain t).0 ≡ some blob
      → unprotect os blob t' ≡ some plain
  unfolding protect
  unprotect-protect plain blob t t' lawful h =
      let (found, t1) = ensure_entropy os t in
      elim (Option-cases found) [
        | inl e ↦ absurd (ground (arith, h, e))
        | inr (entropy, e) ↦
            let (long, bytes) = ensure_entropy-AreBytes t entropy lawful e in
            protect_with-unprotect plain entropy blob t1 t' lawful long bytes (ground (arith, h, e))
      ]
