-- ===== src/Probe/Verdicts.antt =====
-- What a probe concludes, and from what.
use gdut_net.Base.{ℕ, String, ◌≡◌, ◌≢◌, ◌↔◌, ◌⊎◌, Bool, true, false, Option, none, some, arith}
use gdut_net.Probe.{ProbeVerdict, alive, link_down, kicked, combine, is_auth_redirect, probe_once}

kicked_of_redirect :
    (icmp : Bool) (location : String)
    → is_auth_redirect location ≡ true
    → probe_once icmp (some (302, location)) ≡ kicked
unfolding probe_once
kicked_of_redirect icmp location h = ground arith

redirect_of_kicked :
    (icmp : Bool) (status : ℕ) (location : String)
    → probe_once icmp (some (status, location)) ≡ kicked
    → (status ≡ 302) × (is_auth_redirect location ≡ true)
unfolding probe_once
redirect_of_kicked icmp status location h = ground arith

no_reply-not-kicked : (icmp : Bool) → probe_once icmp none ≢ kicked
unfolding probe_once
no_reply-not-kicked icmp = ground arith

-- A probe concludes that the client was kicked exactly when the HTTP reply is a 302 to an
-- authentication page, whatever the echo said.
pub probe_once-kicked :
    (icmp : Bool) (http : Option (ℕ × String))
    → (probe_once icmp http ≡ kicked)
      ↔ ((location : String) × (http ≡ some (302, location)) × (is_auth_redirect location ≡ true))
probe_once-kicked icmp none =
    ((λ h. absurd (no_reply-not-kicked icmp h)), (λ (location, e, auth). cc e))
probe_once-kicked icmp (some (status, location)) = (
  (λ h.
      let (found, auth) = redirect_of_kicked icmp status location h in (location, cc found, auth)),
  (λ (page, e, auth). rw e (kicked_of_redirect icmp page auth)),
)

-- A probe concludes that the link is down exactly when the echo failed and no HTTP reply came.
pub probe_once-link_down :
    (icmp : Bool) (http : Option (ℕ × String))
    → (probe_once icmp http ≡ link_down) ↔ ((icmp ≡ false) × (http ≡ none))
unfolding probe_once
probe_once-link_down icmp none = ground arith
probe_once-link_down icmp (some (status, location)) = ground arith

-- `combine` at all its inputs: a kick seen over HTTP decides; else either good sign is enough.
pub combine_cases :
    (icmp : Option Bool) (http : Option ProbeVerdict)
    → ((combine icmp http ≡ kicked) ↔ (http ≡ some kicked))
      × ((combine icmp http ≡ alive)
          ↔ ((http ≢ some kicked) × ((icmp ≡ some true) ⊎ (http ≡ some alive))))
unfolding combine
combine_cases icmp http = ground arith
