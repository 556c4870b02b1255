-- ===== src/Runtime/Prober/Bound.antt =====
-- What a probe is bound to.
use gdut_net.Base.{ℕ, String, ◌≡◌, ◌≢◌, ◌⊎◌, inl, inr, refl, sym, true, false, none, some, arith}
use gdut_net.Adapter.{Gaa, AdapterInfo, ppp_adapter, physical_adapter, ethernet_link_up}
use gdut_net.Adapter.Link.{physical-up}
use gdut_net.Probe.{link_down}
use gdut_net.Runtime.Prober.{RealProber, fits, Ask, resolve_physical, resolve_adapter, probe}

module _ (lower : String → String) (ask : Ask) (p : RealProber) where
  -- The adapter that a probe is bound to has the configured name, where one is configured; it is
  -- the adapter of the PPP session wherever that has the name or none is configured, and a physical
  -- one otherwise.
  pub resolve_cases :
      (gaa gaa' : ℕ → Gaa) (a : AdapterInfo)
      → resolve_adapter lower p gaa gaa' ≡ some a
      → (fits p a ≡ true)
        × ((ppp_adapter gaa ≡ some a)
            ⊎ ((physical_adapter lower gaa' ≡ inr a)
                × ((b : AdapterInfo) → ppp_adapter gaa ≡ some b → fits p b ≡ false)))
  unfolding resolve_adapter resolve_physical
  resolve_cases gaa gaa' a h = grind arith

  unresolved :
      (gaa gaa' : ℕ → Gaa)
      → ppp_adapter gaa ≡ none
      → ((a : AdapterInfo) → physical_adapter lower gaa' ≢ inr a)
      → probe lower ask p gaa gaa' ≡ link_down
  unfolding probe resolve_adapter resolve_physical
  unresolved gaa gaa' e h =
      elim (physical_adapter lower gaa')
          as (λ r. r ≡ physical_adapter lower gaa' → probe lower ask p gaa gaa' ≡ link_down) [
            | inl m ↦ λ q. ground (arith, e, q)
            | inr a ↦ λ q. absurd (h a (sym q))
          ]
        refl

  -- Without a session, and with an Ethernet link that is not reported up over the same table of
  -- adapters, a probe reports the link down, whatever would answer.
  pub unplugged-link_down :
      (gaa : ℕ → Gaa)
      → ppp_adapter gaa ≡ none
      → ethernet_link_up lower gaa ≢ some true
      → probe lower ask p gaa gaa ≡ link_down
  unplugged-link_down gaa e h = unresolved gaa gaa e (λ a q. h (physical-up lower gaa a q))
