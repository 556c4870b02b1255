-- ===== src/Runtime/Prober.antt =====
-- RealProber of src/runtime.rs: the adapter that a probe is bound to. The two reads of the adapters
-- are `gaa` and `gaa'`; the echo and the HTTP request from an address are the parameter `ask`. The
-- texts of the errors, which are only logged, are left out.
pub mod Bound
use gdut_net.Base.{ℕ, String, Bool, Option, none, some, inl, inr, ◌||◌, str_eq, if◌then◌else◌}
use gdut_net.Adapter.{Gaa, AdapterInfo, ppp_adapter, physical_adapter}
use gdut_net.Ipv4.{Ipv4Addr}
use gdut_net.Probe.{ProbeVerdict, link_down, probe_once}

pub record RealProber : Type 0 where
  pub interface : String
  pub http_url : String

-- `self.interface.is_empty() || name == self.interface`
abbrev pub fits : RealProber → AdapterInfo → Bool
fits p a = str_eq p.interface "" || str_eq a.name p.interface

-- The answers to the echo, and to the HTTP request.
abbrev pub Ask : Type 0
Ask = Ipv4Addr → Option Ipv4Addr → String → Bool × Option (ℕ × String)

module _ (lower : String → String) where
  unfoldable pub resolve_physical : RealProber → (ℕ → Gaa) → Option AdapterInfo
  unfolding physical_adapter
  resolve_physical p gaa' = elim (physical_adapter lower gaa') [
    | inl e ↦ none
    | inr a ↦ if fits p a then some a else none
  ]

  unfoldable pub resolve_adapter : RealProber → (ℕ → Gaa) → (ℕ → Gaa) → Option AdapterInfo
  unfolding ppp_adapter resolve_physical
  resolve_adapter p gaa gaa' =
      let physical = resolve_physical p gaa' in
      elim (ppp_adapter gaa) [ none ↦ physical | some a ↦ if fits p a then some a else physical ]

  unfoldable pub probe : Ask → RealProber → (ℕ → Gaa) → (ℕ → Gaa) → ProbeVerdict
  unfolding resolve_adapter probe_once
  probe ask p gaa gaa' = elim (resolve_adapter p gaa gaa') [
    | none ↦ link_down
    | some a ↦ let (icmp, http) = ask a.ipv4 a.gateway p.http_url in probe_once icmp http
  ]
