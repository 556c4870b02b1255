-- ===== src/Status.antt =====
-- src/status.rs: how a snapshot is shown. The words of the source are data.
pub mod Priority
use gdut_net.Base.{
  ℕ, String, Bool, true, false, Option, none, some, List, [], ◌∷◌, ◌<+>◌, if◌then◌else◌,
}
use gdut_net.Protocol.{
  is_connected, SessionStatus, HeartbeatStatus, NetMode, wired_exclusive, wired_plus_standby,
  WPhase, WirelessSnapshot, StateSnapshot,
}

pub data Light : Type 0 where
  wired wireless busy off : Light

pub data Primary : Type 0 where
  service_down connected wireless_online dialing backoff auth_fail idle : Primary

pub record StatusView : Type 0 where
  pub primary : Primary
  pub light : Light

-- The match on the status that is left once a session that is up has been answered for.
unfoldable pub wired_primary : SessionStatus → Primary
wired_primary SessionStatus.dialing = Primary.dialing
wired_primary SessionStatus.backoff = Primary.backoff
wired_primary SessionStatus.auth_fail = Primary.auth_fail
wired_primary SessionStatus.idle = Primary.idle
wired_primary SessionStatus.connected = Primary.idle

unfoldable pub light_of : Primary → Light
light_of Primary.idle = off
light_of _ = busy

abbrev pub is_online : WPhase → Bool
is_online WPhase.online = true
is_online _ = false

unfoldable pub view : Option StateSnapshot → StatusView
unfolding wired_primary light_of
view none = record { primary = service_down; light = off }
view (some s) =
    let primary = wired_primary s.status in
    if is_connected s.status
    then record { primary = Primary.connected; light = wired }
    else if is_online s.wireless.phase
    then record { primary = wireless_online; light = wireless }
    else record { primary = primary; light = light_of primary }

-- `word_zh`
unfoldable pub word_zh : Primary → String
word_zh service_down = "服务未运行"
word_zh Primary.connected = "已连接"
word_zh wireless_online = "无线接管"
word_zh Primary.dialing = "拨号中"
word_zh Primary.backoff = "重拨中"
word_zh Primary.auth_fail = "认证失败"
word_zh Primary.idle = "空闲"

unfoldable pub egress_zh : Primary → String
egress_zh Primary.connected = "有线"
egress_zh wireless_online = "无线"
egress_zh _ = "—"

unfoldable pub session_zh : SessionStatus → String
session_zh SessionStatus.connected = "已连接"
session_zh SessionStatus.dialing = "拨号中"
session_zh SessionStatus.backoff = "重拨中"
session_zh SessionStatus.auth_fail = "认证失败"
session_zh SessionStatus.idle = "空闲"

unfoldable pub session_en : SessionStatus → String
session_en SessionStatus.idle = "Idle"
session_en SessionStatus.dialing = "Dialing"
session_en SessionStatus.connected = "Connected"
session_en SessionStatus.backoff = "Backoff (retrying)"
session_en SessionStatus.auth_fail = "Auth failed"

unfoldable pub wphase_zh : WPhase → String
wphase_zh WPhase.off = "关闭"
wphase_zh WPhase.joining = "连接中"
wphase_zh WPhase.authing = "认证中"
wphase_zh WPhase.online = "已接管"
wphase_zh WPhase.error = "错误"

unfoldable pub wphase_en : WPhase → String
wphase_en WPhase.off = "Off"
wphase_en WPhase.joining = "Joining"
wphase_en WPhase.authing = "Authenticating"
wphase_en WPhase.online = "Online"
wphase_en WPhase.error = "Error"

unfoldable pub heartbeat_en : HeartbeatStatus → String
heartbeat_en HeartbeatStatus.off = "Off"
heartbeat_en HeartbeatStatus.running = "Running"
heartbeat_en (HeartbeatStatus.error e) = "Error (" <+> e <+> ")"

unfoldable pub mode_en : NetMode → String
mode_en wired_exclusive = "Wired only (auto wireless takeover)"
mode_en wired_plus_standby = "Wired + wireless standby"

unfoldable pub wireless_en : WirelessSnapshot → String
unfolding wphase_en
wireless_en w =
    let phase = wphase_en w.phase in
    elim w.ip [
      | some ip ↦ phase <+> " " <+> ip
      | none ↦ elim w.last_error [ none ↦ phase | some e ↦ phase <+> " (" <+> e <+> ")" ]
    ]

unfoldable pub status_line_zh : Option StateSnapshot → String
unfolding session_zh wphase_zh
status_line_zh none = "服务未运行"
status_line_zh (some s) =
    "有线：" <+> session_zh s.status <+> " · WiFi：" <+> wphase_zh s.wireless.phase
