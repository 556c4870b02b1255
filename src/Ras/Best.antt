-- ===== src/Ras/Best.antt =====
-- Which connection of an entry is found, and so hung up.
use gdut_net.Base.{
  String, ◌/◌, ◌+◌, ◌==◌, ◌≢◌, some_inj, All-mono, All-both, All-front, All-middle, ℕ, ◌≡◌, ◌≤◌,
  inl, inr, refl, ap, ap₂, ◌||◌, sym, subst, ◌<◌, ◌∙◌, ◌++◌, Bool, true, false, Option, none, some,
  List, [], ◌∷◌, All, arith, Bool-cases, Option-cases, if◌then◌else◌,
}
use gdut_net.Ras.{
  RasConn, RasApi, Enumerated, is_named, is_exact, is_pppoe, find_by, or_else, choose,
  find_entry_connection,
}

module _ {H : Type 0} where
  -- How near a connection is to an entry: the entry itself, one of its name, one over PPPoE, any.
  abbrev pub rank : List ℕ → List ℕ → RasConn H → ℕ
  rank pbk name c =
      if is_exact pbk name c then 0 else if is_named name c then 1 else if is_pppoe c then 2 else 3

  -- A connection is the first of a list that passes a test.
  abbrev IsFirst : (RasConn H → Bool) → List (RasConn H) → RasConn H → Type 0
  IsFirst p cs c =
      (before : List (RasConn H)) × (after : List (RasConn H)) × (cs ≡ before ++ c ∷ after)
      × All (λ d. p d ≡ false) before
      × (p c ≡ true)

  find_by-IsFirst :
      (p : RasConn H → Bool) (cs : List (RasConn H)) (c : RasConn H)
      → find_by p cs ≡ some c
      → IsFirst p cs c
  unfolding find_by
  find_by-IsFirst p [] c h = absurd (ground (arith, h))
  find_by-IsFirst p (d ∷ cs) c h = elim (Bool-cases (p d)) [
    | inl here ↦
        let same : d ≡ c = some_inj (ap (λ b. if b then some d else find_by p cs) (sym here) ∙ h) in
        ([], cs, ap (λ x. x ∷ cs) same, tt, ap p (sym same) ∙ here)
    | inr other ↦
        let (before, after, e, none_before, passes) =
          find_by-IsFirst p cs c (ap (λ b. if b then some d else find_by p cs) (sym other) ∙ h) in
        (d ∷ before, after, ap (λ l. d ∷ l) e, (other, none_before), passes)
  ]

  find_by-none :
      (p : RasConn H → Bool) (cs : List (RasConn H))
      → find_by p cs ≡ none
      → All (λ d. p d ≡ false) cs
  unfolding find_by
  find_by-none p [] h = tt
  find_by-none p (d ∷ cs) h = elim (Bool-cases (p d)) [
    | inl here ↦ absurd (ground (arith, h, here))
    | inr other ↦ (other, find_by-none p cs (ground (arith, h, other)))
  ]

  -- The best of a list: none, of an empty list only, or the first of those that are nearest.
  abbrev pub IsBest : List ℕ → List ℕ → List (RasConn H) → Option (RasConn H) → Type 0
  IsBest pbk name cs none = cs ≡ []
  IsBest pbk name cs (some c) =
      (before : List (RasConn H)) × (after : List (RasConn H)) × (cs ≡ before ++ c ∷ after)
      × All (λ d. rank pbk name c < rank pbk name d) before
      × All (λ d. rank pbk name c ≤ rank pbk name d) cs

  -- The first that passes a test is the best, where passing it makes a rank, those that fail it and a
  -- property that all have are further off, and those of the property are not nearer.
  first-IsBest :
      (pbk name : List ℕ) (p q : RasConn H → Bool) (r : ℕ) (cs : List (RasConn H)) (c : RasConn H)
      → find_by p cs ≡ some c
      → All (λ d. q d ≡ false) cs
      → ((d : RasConn H) → q d ≡ false → r ≤ rank pbk name d)
      → ((d : RasConn H) → q d ≡ false → p d ≡ true → rank pbk name d ≡ r)
      → ((d : RasConn H) → q d ≡ false → p d ≡ false → r < rank pbk name d)
      → IsBest pbk name cs (some c)
  first-IsBest pbk name p q r cs c found all low at_rank high =
      let (before, after, e, fails, passes) = find_by-IsFirst p cs c found in
      let all' : All (λ d. q d ≡ false) (before ++ c ∷ after) =
        subst (All (λ d. q d ≡ false)) e all in
      let here : rank pbk name c ≡ r =
        at_rank c (All-middle (λ d. q d ≡ false) before c after all') passes in
      (
        before,
        after,
        e,
        All-mono (λ d. (p d ≡ false) × (q d ≡ false)) (λ d. rank pbk name c < rank pbk name d)
            before (λ d h. subst (λ x. x < rank pbk name d) (sym here) (high d h.1 h.0))
            (All-both (λ d. p d ≡ false) (λ d. q d ≡ false) before fails
              (All-front (λ d. q d ≡ false) before (c ∷ after) all')),
        All-mono (λ d. q d ≡ false) (λ d. rank pbk name c ≤ rank pbk name d) cs
            (λ d h. subst (λ x. x ≤ rank pbk name d) (sym here) (low d h)) all,
      )

  All-true : (cs : List (RasConn H)) → All (λ d. (λ (x : RasConn H). false) d ≡ false) cs
  All-true [] = tt
  All-true (c ∷ cs) = (refl, All-true cs)

  find_by-all : (cs : List (RasConn H)) → find_by (λ c. true) cs ≡ none → cs ≡ []
  unfolding find_by
  find_by-all [] h = refl
  find_by-all (c ∷ cs) h = absurd (ground (arith, h))

  -- A connection of the name, or one over PPPoE.
  abbrev is_near : List ℕ → RasConn H → Bool
  is_near name c = is_named name c || is_pppoe c

  exact-IsBest :
      (pbk name : List ℕ) (cs : List (RasConn H)) (c : RasConn H)
      → find_by (is_exact pbk name) cs ≡ some c
      → IsBest pbk name cs (some c)
  exact-IsBest pbk name cs c e =
      first-IsBest pbk name (is_exact pbk name) (λ d. false) 0 cs c e (All-true cs)
        (λ d h. omega arith) (λ d h p. ground (arith, p)) (λ d h p. ground (arith, p))

  named-IsBest :
      (pbk name : List ℕ) (cs : List (RasConn H)) (c : RasConn H)
      → All (λ d. is_exact pbk name d ≡ false) cs
      → find_by (is_named name) cs ≡ some c
      → IsBest pbk name cs (some c)
  named-IsBest pbk name cs c none_exact e =
      first-IsBest pbk name (is_named name) (is_exact pbk name) 1 cs c e none_exact
        (λ d h. ground (arith, h)) (λ d h p. ground (arith, h, p)) (λ d h p. ground (arith, h, p))

  pppoe-IsBest :
      (pbk name : List ℕ) (cs : List (RasConn H)) (c : RasConn H)
      → All (λ d. is_named name d ≡ false) cs
      → find_by is_pppoe cs ≡ some c
      → IsBest pbk name cs (some c)
  pppoe-IsBest pbk name cs c none_named e =
      first-IsBest pbk name is_pppoe (is_named name) 2 cs c e none_named (λ d h. ground (arith, h))
        (λ d h p. ground (arith, h, p)) (λ d h p. ground (arith, h, p))

  any-IsBest :
      (pbk name : List ℕ) (cs : List (RasConn H)) (c : RasConn H)
      → All (λ d. is_near name d ≡ false) cs
      → find_by (λ d. true) cs ≡ some c
      → IsBest pbk name cs (some c)
  any-IsBest pbk name cs c none_near e =
      first-IsBest pbk name (λ d. true) (is_near name) 3 cs c e none_near (λ d h. ground (arith, h))
        (λ d h p. ground (arith, h, p)) (λ d h p. absurd (ground (arith, p)))

  -- Of a list that is enumerated, the best is chosen.
  choose-IsBest :
      (pbk name : List ℕ) (cs : List (RasConn H)) → IsBest pbk name cs (choose pbk name cs)
  unfolding choose
  choose-IsBest pbk name cs =
      let exact = find_by (is_exact pbk name) cs in
      let named = find_by (is_named name) cs in
      let wan = find_by is_pppoe cs in
      let any = find_by (λ c. true) cs in
      let by : (o : Option (RasConn H))
          → choose pbk name cs ≡ o
          → IsBest pbk name cs o
          → IsBest pbk name cs (choose pbk name cs) =
        λ o e best. subst (IsBest pbk name cs) (sym e) best in
      elim (Option-cases exact) [
        | inr (c, e) ↦
            by (some c) (ap (λ o. or_else o (or_else named (or_else wan any))) e)
              (exact-IsBest pbk name cs c e)
        | inl e0 ↦ elim (Option-cases named) [
          | inr (c, e) ↦
              by (some c) (ap₂ (λ o o'. or_else o (or_else o' (or_else wan any))) e0 e)
                (named-IsBest pbk name cs c (find_by-none (is_exact pbk name) cs e0) e)
          | inl e1 ↦ elim (Option-cases wan) [
            | inr (c, e) ↦
                by (some c)
                  (ap₂ (λ o o'. or_else o (or_else o' (or_else wan any))) e0 e1
                    ∙ ap (λ o. or_else o any) e)
                  (pppoe-IsBest pbk name cs c (find_by-none (is_named name) cs e1) e)
            | inl e2 ↦
                let last : choose pbk name cs ≡ any =
                  ap₂ (λ o o'. or_else o (or_else o' (or_else wan any))) e0 e1
                  ∙ ap (λ o. or_else o any) e2 in
                elim (Option-cases any) [
                  | inl e3 ↦ by none (last ∙ e3) (find_by-all cs e3)
                  | inr (c, e) ↦ by (some c) (last ∙ e) (
                      any-IsBest pbk name cs c
                        (All-mono (λ d. (is_named name d ≡ false) × (is_pppoe d ≡ false))
                          (λ d. is_near name d ≡ false) cs (λ d h. ground (arith, h.0, h.1))
                          (All-both (λ d. is_named name d ≡ false) (λ d. is_pppoe d ≡ false) cs
                            (find_by-none (is_named name) cs e1) (find_by-none is_pppoe cs e2)))
                        e)
                ]
          ]
        ]
      ]

module _ {T H A : Type 0} (api : RasApi T H A) where
  -- What Windows yields in the end: the second enumeration, with room for the size that the first one
  -- has reported, where that one says that the buffer is too small (603).
  abbrev pub enumerated : T → Enumerated H
  enumerated t =
      let first = api.enum_connections 4 t in
      if first.code == 603 then api.enum_connections (first.size / api.conn_size + 1) t else first

  -- The connection that is found for an entry, in any state of the system. Where the enumeration
  -- succeeds, its second attempt included, it is the first of those that are nearest to the entry: its
  -- own of the phonebook, then one of its name, then one over PPPoE, then any; none is found only
  -- where none is listed. Where the enumeration fails, none is found.
  pub find_entry_connection-IsBest :
      (pbk name : String) (t : T)
      → let listed = enumerated t in
        let found = find_entry_connection api pbk name t in
        (listed.code ≡ 0
          → IsBest (api.encode_utf16 pbk) (api.encode_utf16 name) listed.connections found)
        × (listed.code ≢ 0 → found ≡ none)
  unfolding find_entry_connection
  find_entry_connection-IsBest pbk name t =
      let best =
        choose-IsBest (api.encode_utf16 pbk) (api.encode_utf16 name) (enumerated t).connections in
      elim (Bool-cases ((enumerated t).code == 0)) [
        | inl ok ↦ (λ e. rw ok best, λ n. absurd (n (ground (arith, ok))))
        | inr failed ↦ (λ e. absurd (ground (arith, failed, e)), λ n. rw failed refl)
      ]
