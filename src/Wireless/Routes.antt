-- ===== src/Wireless/Routes.antt =====
-- RouteGuard of src/wireless/routes.rs, the operating system's side of the egress: the routes that it
-- has added and the metric that it has changed. The calls of the IP Helper library are the parameter
-- `IpHelper`, over a system T; an error code is its own, and 0 is success. Logging is left out.
pub mod Restored
use gdut_net.Base.{
  ℕ, Bool, true, false, not, Option, none, some, List, [], ◌∷◌, ◌++◌, ◌&&◌, ◌||◌, ◌==◌, any, retain,
  is_none_or, is_some_and, if◌then◌else◌,
}
use gdut_net.Ipv4.{Ipv4Addr}
use gdut_net.Supervisor.Types.{WlanEndpoint}
use gdut_net.Wireless.Egress.{EgressOps, same_addr}

-- An entry: destination, gateway, interface.
pub record Entry : Type 0 where
  pub dest : Ipv4Addr
  pub gateway : Ipv4Addr
  pub ifindex : ℕ

-- What is used of an interface's row.
pub record InterfaceRow : Type 0 where
  pub metric : ℕ
  pub automatic : Bool

-- A row of the forwarding table: whether its protocol is NETMGMT, the length of its prefix, and the
-- route.
pub record ForwardRow : Type 0 where
  pub netmgmt : Bool
  pub prefix_length : ℕ
  pub entry : Entry

pub record IpHelper (T : Type 0) : Type 0 where
  pub create_forward_entry : Entry → T → ℕ × T
  pub delete_forward_entry : Entry → T → ℕ × T
  pub forward_table : T → Option (List ForwardRow)
  pub get_interface : ℕ → T → Option InterfaceRow
  pub set_interface : ℕ → InterfaceRow → T → ℕ × T

-- The original of an interface's metric.
pub record SavedMetric : Type 0 where
  pub ifindex : ℕ
  pub metric : ℕ
  pub automatic : Bool

pub record RouteGuard (T : Type 0) : Type 0 where
  pub added : List Entry
  pub saved_metric : Option SavedMetric
  pub applied_metric_ifindex : Option ℕ
  pub system : T

-- `==` of entries
abbrev pub same_entry : Entry → Entry → Bool
same_entry x y = same_addr x.dest y.dest && same_addr x.gateway y.gateway && x.ifindex == y.ifindex

-- ERROR_SUCCESS or ERROR_OBJECT_ALREADY_EXISTS
abbrev pub is_added : ℕ → Bool
is_added err = err == 0 || err == 5010

-- ERROR_SUCCESS or ERROR_NOT_FOUND
abbrev pub is_deleted : ℕ → Bool
is_deleted err = err == 0 || err == 1168

unfoldable pub new : {T : Type 0} → T → RouteGuard T
new t = record { added = []; saved_metric = none; applied_metric_ifindex = none; system = t }

module _ {T : Type 0} (api : IpHelper T) where
  unfoldable pub set_metric : ℕ → ℕ → T → Bool × T
  set_metric ifindex metric t = elim (api.get_interface ifindex t) [
    | none ↦ (false, t)
    | some row ↦
        let (err, t') =
          api.set_interface ifindex (record { metric = metric; automatic = false }) t in
        (err == 0, t')
  ]

  unfoldable pub add_route : Ipv4Addr → Ipv4Addr → ℕ → RouteGuard T → Bool × RouteGuard T
  add_route dest gateway ifindex g =
      let entry : Entry = record { dest = dest; gateway = gateway; ifindex = ifindex } in
      let (err, t) = api.create_forward_entry entry g.system in
      if any (λ x. same_entry x entry) g.added
      then (true, g)
      else if is_added err
      then (true, record g { added = g.added ++ entry ∷ []; system = t })
      else (false, record g { system = t })

  unfoldable pub delete_route : Ipv4Addr → Ipv4Addr → ℕ → RouteGuard T → Bool × RouteGuard T
  delete_route dest gateway ifindex g =
      let entry : Entry = record { dest = dest; gateway = gateway; ifindex = ifindex } in
      let (err, t) = api.delete_forward_entry entry g.system in
      if is_deleted err
      then (true, record g { added = retain (λ x. not (same_entry x entry)) g.added; system = t })
      else (false, record g { system = t })

  -- The deletions of `ensure` and of `teardown`: the entries of a copy that are not kept.
  unfoldable pub delete_unless : (Entry → Bool) → List Entry → RouteGuard T → RouteGuard T
  unfolding delete_route
  delete_unless keep [] g = g
  delete_unless keep (e ∷ es) g =
      let (_, g') = delete_route e.dest e.gateway e.ifindex g in
      if keep e then delete_unless keep es g else delete_unless keep es g'

  -- The additions of `ensure`.
  unfoldable pub add_all : Ipv4Addr → ℕ → List Ipv4Addr → RouteGuard T → RouteGuard T
  unfolding add_route
  add_all gateway ifindex [] g = g
  add_all gateway ifindex (d ∷ ds) g = add_all gateway ifindex ds (add_route d gateway ifindex g).1

  unfoldable pub ensure : List Ipv4Addr → Ipv4Addr → ℕ → RouteGuard T → RouteGuard T
  unfolding delete_unless add_all
  ensure dests gateway ifindex g =
      let is_wanted : Entry → Bool = λ e.
        any (λ d. same_addr d e.dest) dests
        && same_addr gateway e.gateway
        && ifindex == e.ifindex in
      add_all gateway ifindex dests (delete_unless is_wanted g.added g)

  -- The suppression itself, with the original on record.
  unfoldable pub suppress : ℕ → ℕ → RouteGuard T → RouteGuard T
  unfolding set_metric
  suppress ifindex target g =
      let (ok, t) = set_metric ifindex target g.system in
      record g {
        applied_metric_ifindex = if ok then some ifindex else g.applied_metric_ifindex;
        system = t;
      }

  unfoldable pub set_standby_metric : ℕ → ℕ → RouteGuard T → RouteGuard T
  unfolding suppress
  set_standby_metric ifindex target g =
      let read : RouteGuard T = elim (api.get_interface ifindex g.system) [
        | none ↦ g
        | some row ↦ suppress ifindex target (record g {
          saved_metric =
              some (record { ifindex = ifindex; metric = row.metric; automatic = row.automatic });
        })
      ] in
      if target == 0
      then g
      else if is_some_and g.applied_metric_ifindex (λ i. i == ifindex)
      then g
      else if is_none_or g.saved_metric (λ m. not (m.ifindex == ifindex))
      then read
      else suppress ifindex target g

  -- The automatic metric again, after the value: whether it went well.
  unfoldable pub restore_automatic : ℕ → T → Bool × T
  restore_automatic ifindex t = elim (api.get_interface ifindex t) [
    | none ↦ (false, t)
    | some row ↦
        let (err, t') = api.set_interface ifindex (record row { automatic = true }) t in
        (err == 0, t')
  ]

  -- The value of a saved metric, and its automatic setting.
  unfoldable pub restore_saved : SavedMetric → T → Bool × T
  unfolding set_metric restore_automatic
  restore_saved m t =
      let (ok, t1) = set_metric m.ifindex m.metric t in
      let automatic = restore_automatic m.ifindex t1 in
      if ok then (if m.automatic then automatic else (true, t1)) else (false, t1)

  unfoldable pub restore_metric : RouteGuard T → Bool × RouteGuard T
  unfolding restore_saved
  restore_metric g = elim g.saved_metric [
    | none ↦ (true, record g { applied_metric_ifindex = none })
    | some m ↦
        let (ok, t) = restore_saved m g.system in
        (
          ok,
          record g {
            applied_metric_ifindex = none;
            saved_metric = if ok then none else some m;
            system = t;
          },
        )
  ]

  unfoldable pub teardown : RouteGuard T → RouteGuard T
  unfolding delete_unless restore_metric
  teardown g = (restore_metric (delete_unless (λ e. false) g.added g)).1

  -- `impl EgressOps for RouteGuard`
  unfoldable pub egress_ops : EgressOps (RouteGuard T)
  unfolding add_route delete_route set_standby_metric restore_metric
  egress_ops = record {
    add_route = add_route;
    delete_route = delete_route;
    suppress_metric = set_standby_metric;
    restore_metric = λ ifindex. restore_metric;
  }

  -- The loop of `cleanup_stale`: the host routes of the client's own kind to the destinations.
  unfoldable pub delete_stale : List Ipv4Addr → List ForwardRow → T → T
  delete_stale dests [] t = t
  delete_stale dests (row ∷ rows) t =
      let (_, t') = api.delete_forward_entry row.entry t in
      if row.netmgmt && row.prefix_length == 32 && any (λ d. same_addr d row.entry.dest) dests
      then delete_stale dests rows t'
      else delete_stale dests rows t

  unfoldable pub cleanup_stale : List Ipv4Addr → T → T
  unfolding delete_stale
  cleanup_stale dests t = elim (api.forward_table t) [
    | none ↦ t
    | some rows ↦ delete_stale dests rows t
  ]
