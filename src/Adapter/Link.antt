-- ===== src/Adapter/Link.antt =====
-- The link state against the adapter that is dialed over.
use gdut_net.Base.{
  ℕ, String, ◌≡◌, ◌⊎◌, inl, inr, refl, sym, Bool, true, false, Option, none, some, List, [], ◌∷◌,
  map, retain, ◌&&◌, ◌||◌, is_some, any, if◌then◌else◌, arith,
}
use gdut_net.Adapter.{
  Entry, AdapterInfo, RawAdapter, raw_adapter, Gaa, buffer_overflow, gaa_error, table, answer,
  select, filter_map, with_ipv4, sort, head, candidates, adapters, is_real, link_scan,
  ethernet_link_up, physical_adapter, is_ethernet,
}
use gdut_net.Adapter.Choice.{physical_by}

module _ (lower : String → String) where
  -- The raw adapters of the ethernet entries, and of those that are up.
  abbrev plugged : List Entry → List RawAdapter
  plugged entries = map raw_adapter (retain (λ a. is_ethernet a.if_type && a.oper_up) entries)

  abbrev wired : List Entry → List RawAdapter
  wired entries = map raw_adapter (retain (λ a. is_ethernet a.if_type) entries)

  scan_up : (list : List RawAdapter) → link_scan lower (true, true) list ≡ (true, true)
  unfolding link_scan
  scan_up [] = refl
  scan_up (a ∷ rest) = rw (scan_up rest) (ground arith)

  -- A real adapter that is up.
  abbrev is_live : RawAdapter → Bool
  is_live a = is_real lower a && a.oper_up

  scan_live :
      (list : List RawAdapter) (found up : Bool)
      → any is_live list ≡ true
      → link_scan lower (found, up) list ≡ (true, true)
  unfolding link_scan
  scan_live [] found up h = absurd (ground arith)
  scan_live (a ∷ rest) found up h =
      grind (arith, scan_live rest found up, scan_live rest true (up || a.oper_up), scan_up rest)

  kept_first :
      (a : RawAdapter) (list : List RawAdapter) (rest : Bool)
      → (is_some (head (candidates lower list)) ≡ true → rest ≡ true)
      → is_some (head (candidates lower (a ∷ list))) ≡ true
      → (is_real lower a || rest) ≡ true
  unfolding candidates filter_map retain with_ipv4
  kept_first a list rest ih h = ground arith

  live_step :
      (ethernet up : Bool) (a : Entry) (ps ws : List Entry)
      → up ≡ a.oper_up
      → (is_some (head (candidates lower (map raw_adapter ps))) ≡ true
          → any is_live (map raw_adapter ws) ≡ true)
      → is_some (head (candidates lower (map raw_adapter (if ethernet && up then a ∷ ps else ps))))
        ≡ true
      → any is_live (map raw_adapter (if ethernet then a ∷ ws else ws)) ≡ true
  unfolding raw_adapter
  live_step true true a ps ws u ih h =
      let kept =
        kept_first (raw_adapter a) (map raw_adapter ps) (any is_live (map raw_adapter ws)) ih h in
      ground (arith, kept, u)
  live_step true false a ps ws u ih h = ground (arith, ih h)
  live_step false up a ps ws u ih h = ih h

  live_plugged :
      (entries : List Entry)
      → is_some (head (candidates lower (plugged entries))) ≡ true
      → any is_live (wired entries) ≡ true
  unfolding retain candidates filter_map
  live_plugged [] h = absurd (ground arith)
  live_plugged (a ∷ rest) h =
      live_step (is_ethernet a.if_type) a.oper_up a
        (retain (λ e. is_ethernet e.if_type && e.oper_up) rest)
        (retain (λ e. is_ethernet e.if_type) rest) refl (live_plugged rest) h

  sort_found :
      (xs : List AdapterInfo) (a : AdapterInfo) → head (sort xs) ≡ some a → is_some (head xs) ≡ true
  unfolding sort
  sort_found [] a h = absurd (ground arith)
  sort_found (x ∷ xs) a h = refl

  -- The end of `ethernet_link_up`.
  abbrev link_of : String ⊎ List RawAdapter → Option Bool
  link_of (inl e) = none
  link_of (inr list) =
      let (found, up) = link_scan lower (false, false) list in if found then some up else none

  up_of_physical :
      (g : Gaa) (a : AdapterInfo)
      → physical_by
          (λ xs. head (sort xs))
          lower
          (select (λ e. is_ethernet e.if_type && e.oper_up) g)
        ≡ inr a
      → link_of (select (λ e. is_ethernet e.if_type) g) ≡ some true
  unfolding select
  up_of_physical (buffer_overflow size) a h = absurd (ground arith)
  up_of_physical (gaa_error ret) a h = absurd (ground arith)
  up_of_physical (table entries) a h =
      let xs = candidates lower (plugged entries) in
      let found : is_some (head xs) ≡ true =
        elim (head (sort xs)) as (λ o. o ≡ head (sort xs) → is_some (head xs) ≡ true) [
          | none ↦ λ e. absurd (ground (arith, e, h))
          | some b ↦ λ e. sort_found xs b (sym e)
        ]
          refl in
      let scanned = scan_live (wired entries) false false (live_plugged entries found) in
      ground (arith, scanned)

  -- Over the same table of adapters the two questions agree: where a physical adapter is found to
  -- dial over, the link is reported up. So a link that is reported down, or unknown, never hides an
  -- adapter that could be dialed over.
  pub physical-up :
      (gaa : ℕ → Gaa) (a : AdapterInfo)
      → physical_adapter lower gaa ≡ inr a
      → ethernet_link_up lower gaa ≡ some true
  unfolding physical_adapter ethernet_link_up adapters
  physical-up gaa a h = up_of_physical (answer gaa) a h
