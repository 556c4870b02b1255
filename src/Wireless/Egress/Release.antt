-- ===== src/Wireless/Egress/Release.antt =====
-- What a release leaves behind.
use gdut_net.Base.{
  All-mono, some, ℕ, Bool, true, Option, All, inl, inr, refl, if◌then◌else◌, subst, not, ◌&&◌, ◌≡◌,
  ◌⊎◌, false, none, List, [], ◌∷◌, arith,
}
use gdut_net.Ipv4.{Ipv4Addr}
use gdut_net.Supervisor.Types.{WlanEndpoint}
use gdut_net.Wireless.Egress.{
  wanted, EgressOps, OwnedRoute, WirelessEgress, clean, release_metric, retry_cleanup, release,
}

-- A route is on a ledger.
abbrev pub IsListed : OwnedRoute → List OwnedRoute → Type 0
IsListed r [] = ⊥
IsListed r (x ∷ xs) = (r ≡ x) ⊎ IsListed r xs

module _ {T : Type 0} (io : EgressOps T) where
  -- Without an endpoint, a cleanup that goes well keeps no route.
  clean_all :
      (dests : List Ipv4Addr) (rs : List OwnedRoute) (t : T)
      → ((clean io dests none rs t).1 ≡ false) ⊎ ((clean io dests none rs t).0 ≡ [])
  unfolding clean
  clean_all dests [] t = ground arith
  clean_all dests (r ∷ rs) t =
      let later =
        clean_all dests rs (io.delete_route r.dest r.endpoint.gateway r.endpoint.ifindex t).1 in
      ground arith

  -- A release that reports success, whatever the system answered on the way, leaves no route on the
  -- ledger and no endpoint; any other release reports failure.
  pub ledger_cleared :
      (g : WirelessEgress T)
      → ((release io g).0 ≡ false)
        ⊎ (((release io g).1.added ≡ [])
            × ((release io g).1.route_endpoint ≡ none)
            × ((release io g).1.applied_endpoint ≡ none))
  unfolding release retry_cleanup release_metric
  ledger_cleared g = let all = clean_all g.dests g.added g.ops in ground arith

  -- What a system says of a route: a deletion that it reports as done leaves it out of the routing
  -- table, and neither a deletion nor a metric restore puts a route there.
  pub record Lawful (has : OwnedRoute → T → Bool) : Type 0 where
    pub deleted :
        (r : OwnedRoute) (t : T)
        → (io.delete_route r.dest r.endpoint.gateway r.endpoint.ifindex t).0 ≡ true
        → has r (io.delete_route r.dest r.endpoint.gateway r.endpoint.ifindex t).1 ≡ false
    pub delete_adds_none :
        (r : OwnedRoute) (dest gateway : Ipv4Addr) (ifindex : ℕ) (t : T)
        → has r t ≡ false
        → has r (io.delete_route dest gateway ifindex t).1 ≡ false
    pub restore_adds_none :
        (r : OwnedRoute) (ifindex : ℕ) (t : T)
        → has r t ≡ false
        → has r (io.restore_metric ifindex t).1 ≡ false

  module _ (has : OwnedRoute → T → Bool) (law : Lawful has) where
    -- A route is still on a ledger, or out of the system.
    abbrev pub IsTracked : List OwnedRoute → T → OwnedRoute → Type 0
    IsTracked kept t r = IsListed r kept ⊎ (has r t ≡ false)

    clean_absent :
        (r : OwnedRoute) (dests : List Ipv4Addr) (current : Option WlanEndpoint)
        (rs : List OwnedRoute) (t : T)
        → has r t ≡ false
        → has r (clean io dests current rs t).2 ≡ false
    unfolding clean
    clean_absent r dests current [] t h = h
    clean_absent r dests current (x ∷ rs) t h =
        let t' = (io.delete_route x.dest x.endpoint.gateway x.endpoint.ifindex t).1 in
        let skipped = clean_absent r dests current rs t h in
        let tried =
          clean_absent r dests current rs t'
            (law.delete_adds_none r x.dest x.endpoint.gateway x.endpoint.ifindex t h) in
        ground (arith, skipped, tried)

    also-IsTracked :
        (x : OwnedRoute) (rs kept : List OwnedRoute) (t : T)
        → All (IsTracked kept t) rs
        → All (IsTracked (x ∷ kept) t) rs
    also-IsTracked x rs kept t all =
        All-mono (IsTracked kept t) (IsTracked (x ∷ kept) t) rs
          (λ r h. elim h [ inl listed ↦ inl (inr listed) | inr gone ↦ inr gone ]) all

    -- One route of a cleanup, given what the rest comes to without and with its deletion.
    step-IsTracked :
        (keep gone : Bool) (x : OwnedRoute) (rs : List OwnedRoute)
        (skipped tried : List OwnedRoute × Bool × T)
        → All (IsTracked skipped.0 skipped.2) rs
        → All (IsTracked tried.0 tried.2) rs
        → (gone ≡ true → has x tried.2 ≡ false)
        → let r : List OwnedRoute × Bool × T =
            if keep
            then (x ∷ skipped.0, skipped.1, skipped.2)
            else if gone
            then tried
            else (x ∷ tried.0, false, tried.2) in
          All (IsTracked r.0 r.2) (x ∷ rs)
    step-IsTracked true gone x rs skipped tried h k absent =
        (inl (inl refl), also-IsTracked x rs skipped.0 skipped.2 h)
    step-IsTracked false true x rs skipped tried h k absent = (inr (absent refl), k)
    step-IsTracked false false x rs skipped tried h k absent =
        (inl (inl refl), also-IsTracked x rs tried.0 tried.2 k)

    -- A cleanup loses no route: each is kept on the ledger or is out of the system.
    clean-IsTracked :
        (dests : List Ipv4Addr) (current : Option WlanEndpoint) (rs : List OwnedRoute) (t : T)
        → All (IsTracked (clean io dests current rs t).0 (clean io dests current rs t).2) rs
    unfolding clean
    clean-IsTracked dests current [] t = tt
    clean-IsTracked dests current (x ∷ rs) t =
        let deletion = io.delete_route x.dest x.endpoint.gateway x.endpoint.ifindex t in
        step-IsTracked (wanted dests current x) deletion.0 x rs (clean io dests current rs t)
          (clean io dests current rs deletion.1) (clean-IsTracked dests current rs t)
          (clean-IsTracked dests current rs deletion.1)
          (λ gone. clean_absent x dests current rs deletion.1 (law.deleted x t gone))

    metric-IsTracked :
        (o : Option WlanEndpoint) (g : WirelessEgress T) (rs : List OwnedRoute)
        → All (IsTracked g.added g.ops) rs
        → let r : Bool × WirelessEgress T = elim o [
          | none ↦ (true, g)
          | some e ↦
              let (ok, t) = io.restore_metric e.ifindex g.ops in
              (ok, record g { ops = t; metric_release_pending = not ok })
        ] in
          All (IsTracked r.1.added r.1.ops) rs
    metric-IsTracked none g rs all = all
    metric-IsTracked (some e) g rs all =
        let t' = (io.restore_metric e.ifindex g.ops).1 in
        All-mono (IsTracked g.added g.ops) (IsTracked g.added t') rs
          (λ r h. elim h [
            | inl listed ↦ inl listed
            | inr gone ↦ inr (law.restore_adds_none r e.ifindex g.ops gone)
          ])
          all

    -- Either of two outcomes.
    either-IsTracked :
        (c : Bool) (x y : Bool × WirelessEgress T) (rs : List OwnedRoute)
        → All (IsTracked x.1.added x.1.ops) rs
        → All (IsTracked y.1.added y.1.ops) rs
        → All (IsTracked (if c then x else y).1.added (if c then x else y).1.ops) rs
    either-IsTracked true x y rs h k = h
    either-IsTracked false x y rs h k = k

    retry-IsTracked :
        (g : WirelessEgress T)
        → All (IsTracked (retry_cleanup io g).1.added (retry_cleanup io g).1.ops) g.added
    unfolding retry_cleanup release_metric
    retry-IsTracked g =
        let (kept, ok, t) = clean io g.dests g.route_endpoint g.added g.ops in
        let g1 : WirelessEgress T = record g { added = kept; ops = t } in
        let all = clean-IsTracked g.dests g.route_endpoint g.added g.ops in
        let (released, g2) = release_metric io g1 in
        either-IsTracked g.metric_release_pending (ok && released, g2) (ok, g1) g.added
          (metric-IsTracked g.applied_endpoint g1 g.added all) all

    cleared-IsTracked :
        (c : Bool) (g : WirelessEgress T) (rs : List OwnedRoute)
        → All (IsTracked g.added g.ops) rs
        → let g' : WirelessEgress T = if c then record g { applied_endpoint = none } else g in
          All (IsTracked g'.added g'.ops) rs
    cleared-IsTracked true g rs all = all
    cleared-IsTracked false g rs all = all

    release-IsTracked :
        (g : WirelessEgress T) → All (IsTracked (release io g).1.added (release io g).1.ops) g.added
    unfolding release release_metric
    release-IsTracked g =
        let g1 = (retry_cleanup io (record g { route_endpoint = none })).1 in
        let (metric, g2) = release_metric io g1 in
        cleared-IsTracked metric g2 g.added (
          metric-IsTracked g1.applied_endpoint g1 g.added
            (retry-IsTracked (record g { route_endpoint = none })))

    untracked :
        (kept rs : List OwnedRoute) (t : T)
        → kept ≡ []
        → All (IsTracked kept t) rs
        → All (λ r. has r t ≡ false) rs
    untracked kept rs t e all =
        All-mono (IsTracked kept t) (λ r. has r t ≡ false) rs
          (λ r h. elim h [ inl listed ↦ absurd (subst (IsListed r) e listed) | inr gone ↦ gone ])
          all

    -- A release loses no route that the client owns, whatever the system answers: each one is out of
    -- the routing table afterwards, or still on the ledger, where the next cleanup finds it. One that
    -- reports success leaves none of them in the routing table, an empty ledger and no endpoint; any
    -- other reports failure. The system deletes a route where it says so, and neither a deletion nor
    -- a metric restore adds one.
    pub release_clean :
        (g : WirelessEgress T)
        → let (ok, g') = release io g in
          All (IsTracked g'.added g'.ops) g.added
          × ((ok ≡ false)
              ⊎ (All (λ r. has r g'.ops ≡ false) g.added
                  × (g'.added ≡ [])
                  × (g'.route_endpoint ≡ none)
                  × (g'.applied_endpoint ≡ none)))
    release_clean g =
        let all = release-IsTracked g in
        let (ok, g') = release io g in
        (
          all,
          elim (ledger_cleared g) [
            | inl failed ↦ inl failed
            | inr (empty, routes, applied) ↦
                inr (untracked g'.added g.added g'.ops empty all, empty, routes, applied)
          ],
        )
