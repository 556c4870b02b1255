-- ===== src/Cmdline.antt =====
-- src/cmdline.rs: the first token of a command line, as the codes of its characters.
use gdut_net.Base.{
  ℕ, ◌≡◌, refl, Bool, true, false, List, [], ◌∷◌, ◌++◌, any, ◌==◌, arith, if◌then◌else◌,
}
use gdut_net.Http.Transport.{is_ascii_whitespace}

-- The characters before the first that passes a test, or all.
unfoldable pub take_until : (ℕ → Bool) → List ℕ → List ℕ
take_until stop [] = []
take_until stop (c ∷ cs) = let rest = take_until stop cs in if stop c then [] else c ∷ rest

unfoldable pub first_token : List ℕ → List ℕ
unfolding take_until
first_token [] = []
first_token (c ∷ cs) =
    if c == b'"' then take_until (λ d. d == b'"') cs else take_until is_ascii_whitespace (c ∷ cs)

take_until-append :
    (stop : ℕ → Bool) (front : List ℕ) (c : ℕ) (rest : List ℕ)
    → any stop front ≡ false
    → stop c ≡ true
    → take_until stop (front ++ c ∷ rest) ≡ front
unfolding take_until
take_until-append stop [] c rest clear ends = ground (arith, ends)
take_until-append stop (d ∷ front) c rest clear ends =
    ground (arith, clear, take_until-append stop front c rest (ground (arith, clear)) ends)

-- The path of a command line that quotes it is read whole, spaces included, whatever arguments follow.
pub first_token_quoted :
    (path rest : List ℕ)
    → any (λ d. d == b'"') path ≡ false
    → first_token (b'"' ∷ (path ++ b'"' ∷ rest)) ≡ path
unfolding first_token
first_token_quoted path rest clear =
    ground (arith, take_until-append (λ d. d == b'"') path b'"' rest clear refl)
