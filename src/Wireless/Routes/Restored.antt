-- ===== src/Wireless/Routes/Restored.antt =====
-- The metric comes back.
use gdut_net.Base.{ℕ, ◌≡◌, ◌≢◌, true, false, none, some, arith}
use gdut_net.Wireless.Routes.{
  InterfaceRow, IpHelper, RouteGuard, set_metric, suppress, set_standby_metric, restore_automatic,
  restore_saved, restore_metric,
}

module _ {T : Type 0} (api : IpHelper T) where
  -- A system that does what it is asked: an interface that is set reads as it was set.
  abbrev pub IsObeying : ℕ → Type 0
  IsObeying ifindex =
      (row : InterfaceRow) (t : T)
      → ((api.set_interface ifindex row t).0 ≡ 0)
        × (api.get_interface ifindex (api.set_interface ifindex row t).1 ≡ some row)

  -- A suppressed metric is restored by the next release to what the interface had, its automatic
  -- setting with it, and nothing is left to restore: where the interface can be read, the system
  -- does what it is asked, and no metric was saved or suppressed before.
  pub suppress_restored :
      (ifindex target : ℕ) (row : InterfaceRow) (g : RouteGuard T)
      → IsObeying ifindex
      → api.get_interface ifindex g.system ≡ some row
      → target ≢ 0
      → g.saved_metric ≡ none
      → g.applied_metric_ifindex ≡ none
      → let suppressed = set_standby_metric api ifindex target g in
        let (ok, released) = restore_metric api suppressed in
        (api.get_interface ifindex suppressed.system
          ≡ some (record { metric = target; automatic = false }))
        × (ok ≡ true)
        × (api.get_interface ifindex released.system ≡ some row)
        × (released.saved_metric ≡ none)
  unfolding set_standby_metric suppress set_metric restore_metric restore_saved restore_automatic
  suppress_restored ifindex target row g obeys read on saved applied =
      let low : InterfaceRow = record { metric = target; automatic = false } in
      let t1 = (api.set_interface ifindex low g.system).1 in
      let plain : InterfaceRow = record { metric = row.metric; automatic = false } in
      let t2 = (api.set_interface ifindex plain t1).1 in
      let auto : InterfaceRow = record { metric = row.metric; automatic = true } in
      ground (arith, read, on, saved, applied, obeys low g.system, obeys plain t1, obeys auto t2)
