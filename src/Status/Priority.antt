-- ===== src/Status/Priority.antt =====
-- What the light says.
use gdut_net.Base.{◌≡◌, ◌≢◌, ◌↔◌, some, arith}
use gdut_net.Protocol.{SessionStatus, WPhase, StateSnapshot}
use gdut_net.Status.{Light, Primary, view, wired_primary, light_of}

-- The light of a snapshot says which side carries the traffic: it is that of the wired side exactly
-- when the session is up, that of the WLAN exactly when the session is not up and the WLAN is
-- online, and it is out exactly when the session is idle and the WLAN is not online. The service is
-- never shown as down.
pub view_lights :
    (s : StateSnapshot)
    → ((view (some s)).light ≡ Light.wired ↔ s.status ≡ SessionStatus.connected)
      × ((view (some s)).light ≡ Light.wireless
          ↔ (s.status ≢ SessionStatus.connected) × (s.wireless.phase ≡ WPhase.online))
      × ((view (some s)).light ≡ Light.off
          ↔ (s.status ≡ SessionStatus.idle) × (s.wireless.phase ≢ WPhase.online))
      × ((view (some s)).primary ≢ Primary.service_down)
unfolding view wired_primary light_of
view_lights s = ground arith
