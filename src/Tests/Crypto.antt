-- ===== src/Tests/Crypto.antt =====
-- A vault whose encryption puts a byte before the text, and whose registry is the state.
use gdut_net.Base.{
  ℕ, ◌≡◌, refl, Bool, true, subst, false, if◌then◌else◌, Option, none, some, List, [], ◌∷◌, arith,
}
use gdut_net.Crypto.{
  Vault, removed, protect, unprotect, wrap_blob, hex_encode, ensure_entropy, new_entropy,
  protect_with,
}
use gdut_net.Crypto.RoundTrip.{IsLawful, AreBytes, unprotect-protect}

abbrev ones : List ℕ
ones =
    1 ∷ 2 ∷ 3 ∷ 4 ∷ 5 ∷ 6 ∷ 7 ∷ 8 ∷ 9 ∷ 10 ∷ 171 ∷ 205 ∷ 255 ∷ 14 ∷ 15 ∷ 16 ∷ 1 ∷ 2 ∷ 3 ∷ 4 ∷ 5 ∷ 6
    ∷ 7 ∷ 8 ∷ 9 ∷ 10 ∷ 11 ∷ 12 ∷ 13 ∷ 14 ∷ 15 ∷ 16 ∷ []

abbrev tail : List ℕ → Option (List ℕ)
tail [] = none
tail (b ∷ bs) = some bs

abbrev vault : Vault Bool
vault = record {
  base64_encode = λ bytes. bytes;
  base64_decode = λ text. some text;
  from_utf8 = λ bytes. some bytes;
  as_bytes = λ text. text;
  get_value = λ t. if t then some ones else none;
  fill = λ t. (ones, t);
  create_key = λ t. (true, t);
  set_value = λ bytes t. (true, true);
  close_key = λ t. (true, t);
  delete_tree = λ t. (removed, false);
  crypt_protect = λ entropy plain t. some (99 ∷ plain);
  crypt_unprotect = λ entropy protected t. tail protected;
}

ones-AreBytes : AreBytes ones
ones-AreBytes = ground arith

stored_AreBytes : (t : Bool) (bytes : List ℕ) → vault.get_value t ≡ some bytes → AreBytes bytes
stored_AreBytes true bytes h = let same : ones ≡ bytes = cc h in subst AreBytes same ones-AreBytes
stored_AreBytes false bytes h = absurd (ground (arith, h))

vault-IsLawful : IsLawful vault
vault-IsLawful = record {
  decoding = λ bytes. refl;
  reading_utf8 = λ text. refl;
  filling = λ t. (refl, ones-AreBytes);
  stored = λ t bytes h. stored_AreBytes t bytes h;
  decrypting = λ entropy plain protected t t' h. ground (arith, h);
  encrypted = λ entropy plain protected t h. ground (arith, h);
}

abbrev text : List ℕ
text = b'p' ∷ b'w' ∷ []

abbrev blob : List ℕ
blob = wrap_blob (λ bytes. bytes) (hex_encode ones) (99 ∷ text)

protected_text : (protect vault text false).0 ≡ some blob
unfolding protect ensure_entropy new_entropy protect_with
protected_text = refl

unprotect-protect_example : unprotect vault blob true ≡ some text
unprotect-protect_example =
    unprotect-protect vault text blob false true vault-IsLawful protected_text
