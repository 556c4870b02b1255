-- ===== src/Http/Transport/Headers.antt =====
-- The headers of a reply, and what a probe takes from them.
use gdut_net.Base.{
  ℕ, ◌≤◌, ◌≡◌, refl, sym, ap, ap₂, ==_iff, ◌∙◌, inl, inr, Bool, true, false, Option, none, some,
  List, [], ◌∷◌, ◌++◌, append_assoc, length, length-append, arith, Bool-cases, Option-cases,
}
use gdut_net.Ipv4.{◌>>=◌}
use gdut_net.Http.Transport.{
  Response, starts_with, blank_line, split_blank, response_of, parse_status_code, split_lines,
  find_location, headers_complete,
}

-- What a probe takes from a response.
abbrev pub head_of : Option Response → Option (ℕ × List ℕ)
head_of none = none
head_of (some r) = some (r.status, r.location_lower)

starts_with-append :
    (p u y z : List ℕ) → length p ≤ length u → starts_with p (u ++ y) ≡ starts_with p (u ++ z)
unfolding starts_with
starts_with-append [] u y z h = refl
starts_with-append (q ∷ p) [] y z h = absurd (omega arith)
starts_with-append (q ∷ p) (c ∷ u) y z h = ground (arith, starts_with-append p u y z (omega arith))

abbrev pub headers_of : Option (List ℕ × List ℕ) → Option (List ℕ)
headers_of none = none
headers_of (some (headers, body)) = some headers

abbrev before_rest : ℕ → Bool → Option (List ℕ) → Option (List ℕ)
before_rest c true rest = some []
before_rest c false none = none
before_rest c false (some headers) = some (c ∷ headers)

headers_of-split_blank :
    (c : ℕ) (cs : List ℕ)
    → headers_of (split_blank (c ∷ cs))
      ≡ before_rest c (starts_with blank_line (c ∷ cs)) (headers_of (split_blank cs))
unfolding split_blank
headers_of-split_blank c cs = elim (Option-cases (split_blank cs)) [
  | inl e ↦ elim (Bool-cases (starts_with blank_line (c ∷ cs))) [
    | inl here ↦ ground (arith, e, here)
    | inr other ↦ ground (arith, e, other)
  ]
  | inr (found, e) ↦ elim (Bool-cases (starts_with blank_line (c ∷ cs))) [
    | inl here ↦ ground (arith, e, here)
    | inr other ↦ ground (arith, e, other)
  ]
]

starts_with-blank_line :
    (c : ℕ) (x y z : List ℕ)
    → starts_with blank_line (c ∷ (x ++ (blank_line ++ y)))
      ≡ starts_with blank_line (c ∷ (x ++ (blank_line ++ z)))
starts_with-blank_line c x y z =
    let at =
      λ (w : List ℕ). ap (λ l. starts_with blank_line (c ∷ l)) (append_assoc x blank_line w) in
    sym (at y)
    ∙ starts_with-append blank_line (c ∷ (x ++ blank_line)) y z
        (omega (arith, length-append x blank_line))
    ∙ at z

-- The headers do not hang on what comes after a blank line.
pub split_blank-headers :
    (x y z : List ℕ)
    → headers_of (split_blank (x ++ (blank_line ++ y)))
      ≡ headers_of (split_blank (x ++ (blank_line ++ z)))
unfolding split_blank
split_blank-headers [] y z = refl
split_blank-headers (c ∷ x) y z =
    headers_of-split_blank c (x ++ (blank_line ++ y))
    ∙ ap₂ (before_rest c) (starts_with-blank_line c x y z) (split_blank-headers x y z)
    ∙ sym (headers_of-split_blank c (x ++ (blank_line ++ z)))

starts_with-split : (p text : List ℕ) → starts_with p text ≡ true → (y : List ℕ) × (text ≡ p ++ y)
unfolding starts_with
starts_with-split [] text h = (text, refl)
starts_with-split (q ∷ p) [] h = absurd (ground (arith, h))
starts_with-split (q ∷ p) (c ∷ text) h =
    let (y, e) = starts_with-split p text (ground (arith, h)) in
    (y, ground (arith, h, e, ==_iff q c))

pub headers_complete-split :
    (buf : List ℕ)
    → headers_complete buf ≡ true
    → (x : List ℕ) × (y : List ℕ) × (buf ≡ x ++ (blank_line ++ y))
unfolding headers_complete
headers_complete-split [] h = absurd (ground (arith, h))
headers_complete-split (b ∷ bs) h = elim (Bool-cases (starts_with blank_line (b ∷ bs))) [
  | inl here ↦ let (y, e) = starts_with-split blank_line (b ∷ bs) here in ([], y, e)
  | inr later ↦
      let (x, y, e) = headers_complete-split bs (ground (arith, h, later)) in
      (b ∷ x, y, ap (λ l. b ∷ l) e)
]

with_status :
    (status : Option ℕ) (location body body' : List ℕ)
    → let of : List ℕ → Option Response =
        λ b. status >>= λ s. some (record { status = s; location_lower = location; body = b }) in
      head_of (of body) ≡ head_of (of body')
with_status none location body body' = refl
with_status (some s) location body body' = refl

response_of-headers :
    (headers body body' : List ℕ)
    → head_of (response_of (headers, body)) ≡ head_of (response_of (headers, body'))
unfolding response_of
response_of-headers headers body body' =
    with_status (parse_status_code (split_lines headers).0) (find_location (split_lines headers).1)
      body body'

-- What a probe takes from a response of these headers.
abbrev pub head_from : Option (List ℕ) → Option (ℕ × List ℕ)
head_from none = none
head_from (some headers) = head_of (response_of (headers, []))

pub head_of-headers_of :
    (o : Option (List ℕ × List ℕ)) → head_of (o >>= response_of) ≡ head_from (headers_of o)
head_of-headers_of none = refl
head_of-headers_of (some (headers, body)) = response_of-headers headers body []

pub none_complete : headers_complete [] ≡ false
unfolding headers_complete
none_complete = refl
