-- ===== src/Wireless/Egress.antt =====
-- WirelessEgress of src/wireless/egress.rs: the routes and the metric that the client owns. The
-- operating system is the parameter `EgressOps`; `true` is its `Ok`.
pub mod Release
use gdut_net.Base.{
  ℕ, Bool, true, false, not, Option, none, some, List, [], ◌∷◌, ◌++◌, ◌&&◌, ◌||◌, ◌==◌, any,
  if◌then◌else◌,
}
use gdut_net.Ipv4.{Ipv4Addr}
use gdut_net.Supervisor.Types.{WlanEndpoint, route_settle}

pub record EgressOps (T : Type 0) : Type 0 where
  pub add_route : Ipv4Addr → Ipv4Addr → ℕ → T → Bool × T
  pub delete_route : Ipv4Addr → Ipv4Addr → ℕ → T → Bool × T
  pub suppress_metric : ℕ → ℕ → T → T
  pub restore_metric : ℕ → T → Bool × T

-- An entry of `added`: a destination by a gateway and an interface.
pub record OwnedRoute : Type 0 where
  pub dest : Ipv4Addr
  pub endpoint : WlanEndpoint

pub record WirelessEgress (T : Type 0) : Type 0 where
  pub ops : T
  pub dests : List Ipv4Addr
  pub added : List OwnedRoute
  pub applied_endpoint : Option WlanEndpoint
  pub route_endpoint : Option WlanEndpoint
  pub metric_release_pending : Bool

-- `==` of addresses
abbrev pub same_addr : Ipv4Addr → Ipv4Addr → Bool
same_addr x y = x.a == y.a && x.b == y.b && x.c == y.c && x.d == y.d

-- `==` of endpoints
abbrev pub same_endpoint : WlanEndpoint → WlanEndpoint → Bool
same_endpoint x y = same_addr x.gateway y.gateway && x.ifindex == y.ifindex

-- The route endpoint is the one of a route.
abbrev pub is_current : Option WlanEndpoint → WlanEndpoint → Bool
is_current none e = false
is_current (some x) e = same_endpoint x e

-- `wanted` of `retry_cleanup`
abbrev pub wanted : List Ipv4Addr → Option WlanEndpoint → OwnedRoute → Bool
wanted dests current r = any (λ d. same_addr d r.dest) dests && is_current current r.endpoint

module _ {T : Type 0} where
  unfoldable pub new : T → WirelessEgress T
  new ops = record {
    ops = ops;
    dests = [];
    added = [];
    applied_endpoint = none;
    route_endpoint = none;
    metric_release_pending = false;
  }

  unfoldable pub has_pending_cleanup : WirelessEgress T → Bool
  has_pending_cleanup g =
      g.metric_release_pending || any (λ r. not (wanted g.dests g.route_endpoint r)) g.added

module _ {T : Type 0} (io : EgressOps T) where
  -- The `retain` of `retry_cleanup`: the routes that stay, whether all deletions went well, and the
  -- system afterwards.
  unfoldable pub clean :
      List Ipv4Addr → Option WlanEndpoint → List OwnedRoute → T → List OwnedRoute × Bool × T
  clean dests current [] t = ([], true, t)
  clean dests current (r ∷ rs) t =
      let (gone, t') = io.delete_route r.dest r.endpoint.gateway r.endpoint.ifindex t in
      let (kept, ok, u) = clean dests current rs t in
      let (kept', ok', u') = clean dests current rs t' in
      if wanted dests current r
      then (r ∷ kept, ok, u)
      else if gone
      then (kept', ok', u')
      else (r ∷ kept', false, u')

  unfoldable pub release_metric : WirelessEgress T → Bool × WirelessEgress T
  release_metric g = elim g.applied_endpoint [
    | none ↦ (true, g)
    | some e ↦
        let (ok, t) = io.restore_metric e.ifindex g.ops in
        (ok, record g { ops = t; metric_release_pending = not ok })
  ]

  unfoldable pub retry_cleanup : WirelessEgress T → Bool × WirelessEgress T
  unfolding clean release_metric
  retry_cleanup g =
      let (kept, ok, t) = clean g.dests g.route_endpoint g.added g.ops in
      let g1 = record g { added = kept; ops = t } in
      let (released, g2) = release_metric g1 in
      if g.metric_release_pending then (ok && released, g2) else (ok, g1)

  unfoldable pub own_destinations : List Ipv4Addr → WirelessEgress T → WirelessEgress T
  unfolding retry_cleanup
  own_destinations dests g = (retry_cleanup (record g { dests = dests })).1

  -- The loop of `acquire` over the destinations.
  unfoldable pub add_all :
      WlanEndpoint → List Ipv4Addr → List OwnedRoute → T → List OwnedRoute × Bool × T
  add_all e [] added t = (added, true, t)
  add_all e (d ∷ ds) added t =
      let r : OwnedRoute = record { dest = d; endpoint = e } in
      let (ok, t') = io.add_route d e.gateway e.ifindex t in
      let skipped = add_all e ds added t in
      let pushed = add_all e ds (added ++ r ∷ []) t' in
      let (rest, rest_ok, u) = add_all e ds added t' in
      if any (λ x. same_addr x.dest d && same_endpoint x.endpoint e) added
      then skipped
      else if ok
      then pushed
      else (rest, false, u)

  -- `none` is the error.
  unfoldable pub acquire : WlanEndpoint → WirelessEgress T → Option ℕ × WirelessEgress T
  unfolding retry_cleanup add_all
  acquire e g =
      let (cleaned, g1) = retry_cleanup (record g { route_endpoint = some e }) in
      let (added, ok, t) = add_all e g1.dests g1.added g1.ops in
      (
        if cleaned && ok then some route_settle else none,
        record g1 { added = added; ops = t; applied_endpoint = some e },
      )

  unfoldable pub suppress_metric : WlanEndpoint → ℕ → WirelessEgress T → WirelessEgress T
  suppress_metric e target g = if target == 0 then g else record g {
    metric_release_pending = false;
    ops = io.suppress_metric e.ifindex target g.ops;
    applied_endpoint = some e;
  }

  unfoldable pub release : WirelessEgress T → Bool × WirelessEgress T
  unfolding retry_cleanup release_metric
  release g =
      let (routes, g1) = retry_cleanup (record g { route_endpoint = none }) in
      let (metric, g2) = release_metric g1 in
      (routes && metric, if metric then record g2 { applied_endpoint = none } else g2)
