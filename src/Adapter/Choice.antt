-- ===== src/Adapter/Choice.antt =====
-- Which of the candidates is chosen.
use gdut_net.Base.{
  ℕ, String, ◌≡◌, ◌⊎◌, inl, inr, refl, ap, Bool, true, false, Option, none, some, List, [], ◌∷◌,
  ◌&&◌, is_some, is_some_and, if◌then◌else◌, arith,
}
use gdut_net.Adapter.{
  AdapterInfo, RawAdapter, Gaa, insert, sort, head, candidates, adapters, physical_adapter,
  wlan_adapter, is_ethernet, is_wlan,
}

-- The first adapter with a gateway.
pub first_routed : List AdapterInfo → Option AdapterInfo
first_routed [] = none
first_routed (x ∷ xs) = let rest = first_routed xs in if is_some x.gateway then some x else rest

-- The first with a gateway, or the first of all where none has one.
abbrev pub best : List AdapterInfo → Option AdapterInfo
best xs = elim (first_routed xs) [ none ↦ head xs | some a ↦ some a ]

abbrev routed : AdapterInfo → Bool
routed a = is_some a.gateway

best_cases :
    (xs : List AdapterInfo)
    → ((a : AdapterInfo) × (first_routed xs ≡ some a) × (is_some a.gateway ≡ true))
      ⊎ ((first_routed xs ≡ none) × (is_some_and (head xs) routed ≡ false))
unfolding first_routed
best_cases [] = inr (refl, refl)
best_cases (x ∷ xs) = grind (arith, best_cases xs)

insert-best :
    (x : AdapterInfo) (xs ys : List AdapterInfo)
    → head ys ≡ best xs
    → head (insert x ys) ≡ best (x ∷ xs)
unfolding insert first_routed
insert-best x xs [] h = ground (arith, best_cases xs)
insert-best x xs (y ∷ ys) h = ground (arith, best_cases xs)

pub sort-best : (xs : List AdapterInfo) → head (sort xs) ≡ best xs
unfolding sort first_routed
sort-best [] = refl
sort-best (x ∷ xs) = insert-best x xs (sort xs) (sort-best xs)

-- The end of `physical_adapter`, of the adapter that was chosen.
abbrev pub or_missing : Option AdapterInfo → String ⊎ AdapterInfo
or_missing none = inl "No usable physical Ethernet adapter found"
or_missing (some a) = inr a

-- Both ends, where a choice is made of the listed adapters.
abbrev pub physical_by :
    (List AdapterInfo → Option AdapterInfo)
    → (String → String)
    → String ⊎ List RawAdapter
    → String ⊎ AdapterInfo
physical_by pick lower (inl e) = inl e
physical_by pick lower (inr list) = or_missing (pick (candidates lower list))

abbrev pub wlan_by :
    (List AdapterInfo → Option AdapterInfo)
    → (String → String)
    → String ⊎ List RawAdapter
    → Option AdapterInfo
wlan_by pick lower (inl e) = none
wlan_by pick lower (inr list) = pick (candidates lower list)

by_best :
    (lower : String → String) (r : String ⊎ List RawAdapter)
    → (physical_by (λ xs. head (sort xs)) lower r ≡ physical_by best lower r)
      × (wlan_by (λ xs. head (sort xs)) lower r ≡ wlan_by best lower r)
by_best lower (inl e) = (refl, refl)
by_best lower (inr list) =
    let same = sort-best (candidates lower list) in (ap or_missing same, same)

-- The adapter that is dialed over, and that of the wireless side, is the first real candidate with
-- a gateway, in the system's order, or the first real candidate where none has a gateway.
pub adapter_best :
    (lower : String → String) (gaa : ℕ → Gaa)
    → (physical_adapter lower gaa
        ≡ physical_by best lower (adapters (λ a. is_ethernet a.if_type && a.oper_up) gaa))
      × (wlan_adapter lower gaa
          ≡ wlan_by best lower (adapters (λ a. is_wlan a.if_type && a.oper_up) gaa))
unfolding physical_adapter wlan_adapter
adapter_best lower gaa = (
  (by_best lower (adapters (λ a. is_ethernet a.if_type && a.oper_up) gaa)).0,
  (by_best lower (adapters (λ a. is_wlan a.if_type && a.oper_up) gaa)).1,
)
