-- ===== src/Probe.antt =====
-- src/probe.rs, and `is_auth_redirect` of src/http.rs: the verdict of a two-level probe. The ICMP
-- echo and the HTTP request themselves are inputs.
pub mod Verdicts
use text.Mathlib.Text.{find?}
use gdut_net.Base.{
  ℕ, String, Bool, true, false, Option, none, some, List, [], ◌∷◌, ◌&&◌, ◌==◌, if◌then◌else◌,
  is_some, any,
}

pub data ProbeVerdict : Type 0 where
  alive link_down kicked : ProbeVerdict

pub ProbeVerdict-discrete : Discrete ProbeVerdict
ProbeVerdict-discrete = hlevel

unfoldable pub verdict_from_http : Bool → Bool → ProbeVerdict
verdict_from_http saw_redirect nexturl_is_auth =
    if saw_redirect && nexturl_is_auth then kicked else alive

unfoldable pub combine : Option Bool → Option ProbeVerdict → ProbeVerdict
combine _ (some kicked) = kicked
combine (some true) _ = alive
combine _ (some alive) = alive
combine _ _ = link_down

-- The Location, in lower case, names an authentication page.
unfoldable pub is_auth_redirect : String → Bool
is_auth_redirect location_lower =
    any (λ k. is_some (find? location_lower k)) ("wlanacip" ∷ "nexturl" ∷ "portal" ∷ [])

-- The conclusion from an HTTP reply (status and Location), where there was one.
pub http_verdict : Option (ℕ × String) → Option ProbeVerdict
unfolding verdict_from_http
http_verdict none = none
http_verdict (some (status, location)) =
    some (verdict_from_http (status == 302) (is_auth_redirect location))

-- `probe_once`, of the echo's outcome and the HTTP reply.
unfoldable pub probe_once : Bool → Option (ℕ × String) → ProbeVerdict
unfolding http_verdict combine
probe_once icmp http = combine (some icmp) (http_verdict http)
