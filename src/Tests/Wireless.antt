-- ===== src/Tests/Wireless.antt =====
-- Brains and worlds on which the theorems of the wireless side are applied.
use gdut_net.Base.{
  All, ℕ, ◌+◌, ◌≤◌, ◌≡◌, ◌⊎◌, inr, refl, Bool, true, false, Option, none, some, List, [], ◌∷◌,
  arith, length, add64, sub64,
}
use gdut_net.Ipv4.{Ipv4Addr}
use gdut_net.Supervisor.Types.{WlanEndpoint}
use gdut_net.Wireless.Egress.{EgressOps, OwnedRoute, WirelessEgress, release}
use gdut_net.Wireless.Egress.Release.{Lawful, IsTracked, release_clean}
use gdut_net.Wireless.Routes.{
  InterfaceRow, IpHelper, RouteGuard, set_standby_metric, restore_metric,
}
use gdut_net.Wireless.Routes.Restored.{suppress_restored}
use gdut_net.Probe.{ProbeVerdict}
use gdut_net.Protocol.{NetMode, wired_exclusive, wired_plus_standby, WPhase, off, joining, error}
use gdut_net.Wireless.Brain.{World, disassociate, Brain, new, set_mode, on_auth, decide}
use gdut_net.Wireless.Brain.Invariant.{
  deciding, reporting, IsConsistent, apply_all, calls-IsConsistent,
}
use gdut_net.Wireless.Brain.Debounce.{
  Since, Input, ticks, run, takeover_debounced, release_debounced, stale_release,
}
use gdut_net.Wireless.Brain.Retry.{Between, Failure, pass, fail_all, wait_after, retry_schedule}

-- A world at a time, with a healthy wired side or none, and a joined WLAN or none.
abbrev world : ℕ → Bool → Bool → Option ProbeVerdict → World
world now wired joined probe = record {
  now = now;
  eth_link_up = wired;
  wired_connected = wired;
  wlan_associated = joined;
  wlan_ip = joined;
  probe = probe;
}

abbrev brain : NetMode → WPhase → Option ℕ → Option ℕ → Option ℕ → Brain
brain mode phase unhealthy healthy retry = record {
  mode = mode;
  phase = phase;
  unhealthy_since = unhealthy;
  healthy_since = healthy;
  last_probe_at = none;
  auth_busy = false;
  auth_fail_count = 0;
  next_auth_at = retry;
  last_error = elim retry [ none ↦ none | some t ↦ some "refused" ];
  takeover_after = 8;
  release_after = 10;
  probe_interval = 30;
}

calls_example : IsConsistent (
    apply_all
      (deciding (world 0 false true none)
        ∷ deciding (world 2 false true none)
        ∷ reporting false "refused" 3
        ∷ [])
      (new wired_plus_standby 8 10 30))
calls_example = calls-IsConsistent wired_plus_standby 8 10 30 (
    deciding (world 0 false true none)
    ∷ deciding (world 2 false true none)
    ∷ reporting false "refused" 3
    ∷ [])

abbrev joined_brain : Brain
joined_brain = brain wired_plus_standby joining none none none

joined-IsConsistent : IsConsistent joined_brain
joined-IsConsistent = record { busy = refl; retry = refl; message = refl }

-- Out since second 100, takeover at 108.
abbrev outage : List Input
outage = Input.tick (world 100 false false none) ∷ []

takeover_debounced_example :
    (t : ℕ) × Since false t (world 108 false false none ∷ ticks outage) × (8 ≤ sub64 108 t)
unfolding new decide
takeover_debounced_example =
    takeover_debounced 8 10 30 outage (world 108 false false none) refl refl

-- A takeover, then healthy from second 120 on.
abbrev recovery : List Input
recovery =
    Input.tick (world 120 true true none)
    ∷ Input.tick (world 108 false false none)
    ∷ Input.tick (world 100 false false none)
    ∷ []

release_debounced_example :
    (t : ℕ) × Since true t (world 130 true true none ∷ ticks recovery) × (10 ≤ sub64 130 t)
unfolding new decide
release_debounced_example = release_debounced 8 10 30 recovery (world 130 true true none) refl

abbrev waiting : Brain
waiting = brain wired_exclusive off (some 100) none none

-- Off when switched to standby, with the release timer of second 100.
abbrev standby : Brain
standby = brain wired_plus_standby off none (some 100) none

stale_release_example :
    (decide
      (set_mode wired_exclusive (run standby (world 105 false true none ∷ [])))
      (world 110 true true none)).1
    ≡ disassociate
stale_release_example =
    stale_release standby (world 105 false true none ∷ []) (world 110 true true none) 100 refl
      (inr (λ e. cc e)) refl refl (omega arith) (omega arith)

abbrev once : List Failure
once = ([], "refused", 50) ∷ []

abbrev retried : Brain
retried = pass (Between.reset ∷ []) (fail_all once joined_brain)

retry_schedule_example :
    ((on_auth false "again" 60 retried).phase ≡ error)
    × ((on_auth false "again" 60 retried).next_auth_at
        ≡ some (add64 60 (wait_after (length once + 1))))
    × ((on_auth false "again" 60 retried).last_error ≡ some "again")
retry_schedule_example = retry_schedule joined_brain once (Between.reset ∷ []) "again" 60 refl

abbrev erring : Brain
erring = brain wired_plus_standby error none none (some 65)

-- Whether the route is in the routing table, which has no other: a system that refuses nothing.
abbrev obliging : EgressOps Bool
obliging = record {
  add_route = λ dest gateway ifindex t. (true, true);
  delete_route = λ dest gateway ifindex t. (true, false);
  suppress_metric = λ ifindex target t. t;
  restore_metric = λ ifindex t. (true, t);
}

abbrev portal_addr : Ipv4Addr
portal_addr = record { a = 10; b = 0; c = 3; d = 2 }

abbrev wlan : WlanEndpoint
wlan = record { gateway = record { a = 10; b = 0; c = 0; d = 1 }; ifindex = 12 }

abbrev egress : WirelessEgress Bool
egress = record {
  ops = true;
  dests = portal_addr ∷ [];
  added = record { dest = portal_addr; endpoint = wlan } ∷ [];
  applied_endpoint = some wlan;
  route_endpoint = some wlan;
  metric_release_pending = false;
}

abbrev in_table : OwnedRoute → Bool → Bool
in_table r t = t

abbrev obliging_lawful : Lawful obliging in_table
obliging_lawful = record {
  deleted = λ r t gone. refl;
  delete_adds_none = λ r dest gateway ifindex t absent. refl;
  restore_adds_none = λ r ifindex t absent. absent;
}

release_clean_example :
    let (ok, g') = release obliging egress in
    All (IsTracked obliging in_table obliging_lawful g'.added g'.ops) egress.added
    × ((ok ≡ false)
        ⊎ (All (λ r. in_table r g'.ops ≡ false) egress.added
            × (g'.added ≡ [])
            × (g'.route_endpoint ≡ none)
            × (g'.applied_endpoint ≡ none)))
release_clean_example = release_clean obliging in_table obliging_lawful egress

-- A system of one interface.
abbrev one_interface : IpHelper InterfaceRow
one_interface = record {
  create_forward_entry = λ e t. (0, t);
  delete_forward_entry = λ e t. (0, t);
  forward_table = λ t. none;
  get_interface = λ i t. some t;
  set_interface = λ i row t. (0, row);
}

abbrev wlan_row : InterfaceRow
wlan_row = record { metric = 35; automatic = true }

abbrev guard : RouteGuard InterfaceRow
guard = record { added = []; saved_metric = none; applied_metric_ifindex = none; system = wlan_row }

suppress_restored_example :
    let suppressed = set_standby_metric one_interface 12 5 guard in
    let (ok, released) = restore_metric one_interface suppressed in
    (one_interface.get_interface 12 suppressed.system
      ≡ some (record { metric = 5; automatic = false }))
    × (ok ≡ true)
    × (one_interface.get_interface 12 released.system ≡ some wlan_row)
    × (released.saved_metric ≡ none)
suppress_restored_example =
    suppress_restored one_interface 12 5 wlan_row guard (λ row t. (refl, refl)) refl (omega arith)
      refl refl
