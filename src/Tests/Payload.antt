-- ===== src/Tests/Payload.antt =====
-- A package of two files. The texts are coded by one number for each character.
use Prim.Native.Char.{Char, char, code, nul}
use Prim.Native.Nat.{compare, Ordering}
use text.Mathlib.TextEquality.{Char-path}
use gdut_net.Base.{
  ℕ, zero, suc, ◌≡◌, ◌∙◌, refl, ap, ap₂, String, Option, none, some, List, [], ◌∷◌, ◌++◌, arith,
}
use gdut_net.Ipv4.{codes}
use gdut_net.Payload.{
  PayloadEntry, Coding, check_names, pack_entries, toc_entry, footer, pack, unpack,
}
use gdut_net.Payload.RoundTrip.{unpack-pack}
use gdut_net.Payload.Table.{IsLawful}

abbrev Below : Ordering → Type 0
Below Ordering.lt = Unit {0}
Below Ordering.eq = ⊥
Below Ordering.gt = ⊥

abbrev Between : Ordering → Ordering → Type 0
Between Ordering.lt o = Below o
Between Ordering.eq _ = ⊥
Between Ordering.gt _ = ⊥

-- The clauses of `IsScalar`.
abbrev Scalar : Ordering → Ordering → Ordering → Type 0
Scalar Ordering.lt _ _ = Unit {0}
Scalar Ordering.eq o p = Between o p
Scalar Ordering.gt o p = Between o p

abbrev below : (o : Ordering) → Option (Below o)
below Ordering.lt = some tt
below Ordering.eq = none
below Ordering.gt = none

abbrev between : (o p : Ordering) → Option (Between o p)
between Ordering.lt p = below p
between Ordering.eq p = none
between Ordering.gt p = none

abbrev scalar : (o p q : Ordering) → Option (Scalar o p q)
scalar Ordering.lt p q = some tt
scalar Ordering.eq p q = between p q
scalar Ordering.gt p q = between p q

below-some : (o : Ordering) → Below o → (x : Below o) × (below o ≡ some x)
below-some Ordering.lt h = (tt, refl)
below-some Ordering.eq h = absurd h
below-some Ordering.gt h = absurd h

between-some : (o p : Ordering) → Between o p → (x : Between o p) × (between o p ≡ some x)
between-some Ordering.lt p h = below-some p h
between-some Ordering.eq p h = absurd h
between-some Ordering.gt p h = absurd h

scalar-some : (o p q : Ordering) → Scalar o p q → (x : Scalar o p q) × (scalar o p q ≡ some x)
scalar-some Ordering.lt p q h = (tt, refl)
scalar-some Ordering.eq p q h = between-some p q h
scalar-some Ordering.gt p q h = between-some p q h

abbrev to_char : ℕ → Char
to_char n = elim (scalar (compare n 55296) (compare 57343 n) (compare n 1114112)) [
  | none ↦ nul
  | some p ↦ char n p
]

to_char-code : (c : Char) → to_char (code c) ≡ c
to_char-code (char n p) =
    let (x, found) = scalar-some (compare n 55296) (compare 57343 n) (compare n 1114112) p in
    ap (λ o. elim o [ none ↦ nul | some q ↦ char n q ]) found ∙ Char-path (char n x) (char n p) refl

abbrev to_text : List ℕ → String
to_text [] = ""
to_text (n ∷ ns) = String.◌∷◌ (to_char n) (to_text ns)

to_text-codes : (s : String) → to_text (codes s) ≡ s
to_text-codes String.[] = refl
to_text-codes (String.◌∷◌ c s) = ap₂ (λ x y. String.◌∷◌ x y) (to_char-code c) (to_text-codes s)

abbrev zeros : ℕ → List ℕ
zeros zero = []
zeros (suc n) = 0 ∷ zeros n

abbrev coding : Coding
coding = record {
  as_bytes = codes;
  from_utf8 = λ ns. some (to_text ns);
  sha256 = λ bytes. zeros 32;
}

coding-IsLawful : IsLawful coding
coding-IsLawful = record {
  from_utf8-as_bytes = λ s. ap some (to_text-codes s);
  codes-le = λ s. omega arith;
  length-sha256 = λ bytes. refl;
}

abbrev entries : List PayloadEntry
entries =
    record { name = "gdut-net.exe"; content = 1 ∷ 2 ∷ 3 ∷ [] }
    ∷ record { name = "home.bat"; content = [] }
    ∷ []

-- The file, as `pack` writes it.
abbrev packed : List ℕ
packed =
    (9 ∷ 9 ∷ 1 ∷ 2 ∷ 3 ∷ [])
    ++ ((toc_entry coding 2 (record { name = "gdut-net.exe"; content = 1 ∷ 2 ∷ 3 ∷ [] })
          ++ toc_entry coding 5 (record { name = "home.bat"; content = [] }))
        ++ footer 2 5)

unpack-pack_example : unpack coding packed ≡ some (some entries)
unfolding pack check_names pack_entries
unpack-pack_example =
    unpack-pack coding (9 ∷ 9 ∷ []) entries packed coding-IsLawful refl (omega arith) (omega arith)
