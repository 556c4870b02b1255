-- ===== src/Wireless/Brain.antt =====
-- Brain of src/wireless/mod.rs: the decision core of the wireless takeover. Times are whole seconds
-- on u64; subtraction and addition wrap as in a release build.
pub mod Invariant
pub mod Debounce
pub mod Retry
use gdut_net.Base.{
  ℕ, ◌-◌, String, Bool, true, false, not, Option, none, some, ◌&&◌, ◌||◌, ltb, leb, ◌==◌,
  if◌then◌else◌, is_none, is_none_or, unwrap_or, add64, sub64, saturating_add32,
}
use gdut_net.Probe.{ProbeVerdict, kicked}
use gdut_net.Protocol.{
  NetMode, wired_exclusive, wired_plus_standby, WPhase, off, joining, authing, online, error,
  WirelessSnapshot, is_off,
}

-- AUTH_RETRY_DELAYS, at an index up to 2
abbrev pub auth_retry_delay : ℕ → ℕ
auth_retry_delay idx = if idx == 0 then 5 else if idx == 1 then 15 else 30

-- JOIN_TIMEOUT_SECS
abbrev pub join_timeout_secs : ℕ
join_timeout_secs = 60

pub record World : Type 0 where
  pub now : ℕ
  pub eth_link_up : Bool
  pub wired_connected : Bool
  pub wlan_associated : Bool
  pub wlan_ip : Bool
  pub probe : Option ProbeVerdict

pub data Action : Type 0 where
  nothing associate disassociate portal_auth probe_now : Action

pub record Brain : Type 0 where
  pub mode : NetMode
  pub phase : WPhase
  pub unhealthy_since : Option ℕ
  pub healthy_since : Option ℕ
  pub last_probe_at : Option ℕ
  pub auth_busy : Bool
  pub auth_fail_count : ℕ
  pub next_auth_at : Option ℕ
  pub last_error : Option String
  pub takeover_after : ℕ
  pub release_after : ℕ
  pub probe_interval : ℕ

unfoldable pub new : NetMode → ℕ → ℕ → ℕ → Brain
new mode takeover_after release_after probe_interval = record {
  mode = mode;
  phase = off;
  unhealthy_since = none;
  healthy_since = none;
  last_probe_at = none;
  auth_busy = false;
  auth_fail_count = 0;
  next_auth_at = none;
  last_error = none;
  takeover_after = takeover_after;
  release_after = release_after;
  probe_interval = probe_interval;
}

unfoldable pub set_mode : NetMode → Brain → Brain
set_mode m b = record b { mode = m }

unfoldable pub reset_off : Brain → Brain
reset_off b = record b {
  phase = off;
  auth_busy = false;
  next_auth_at = none;
  last_error = none;
  last_probe_at = none;
}

unfoldable pub restart : Brain → Brain
unfolding reset_off
restart b = reset_off b

-- The outcome of a portal login.
unfoldable pub on_auth : Bool → String → ℕ → Brain → Brain
unfolding saturating_add32 add64
on_auth ok msg now b =
    let count = saturating_add32 b.auth_fail_count 1 in
    let idx = if ltb (count - 1) 2 then count - 1 else 2 in
    if ok
    then record b {
      auth_busy = false;
      phase = online;
      auth_fail_count = 0;
      next_auth_at = none;
      last_error = none;
      last_probe_at = none;
    }
    else record b {
      auth_busy = false;
      auth_fail_count = count;
      next_auth_at = some (add64 now (auth_retry_delay idx));
      phase = error;
      last_error = some msg;
    }

unfoldable pub snapshot : Brain → WirelessSnapshot
snapshot b = record { phase = b.phase; ip = none; last_error = b.last_error }

unfoldable pub start_join : Brain → Brain × Action
start_join b = (
  record b { phase = joining; auth_busy = false; next_auth_at = none; last_error = none },
  associate,
)

-- `self.next_auth_at.is_none_or(|t| w.now >= t)`
abbrev pub retry_due : Brain → World → Bool
retry_due b w = is_none_or b.next_auth_at (λ t. leb t w.now)

abbrev pub is_kicked : Option ProbeVerdict → Bool
is_kicked (some kicked) = true
is_kicked _ = false

-- A login: the phase Authing, with the login under way.
pub begin_auth : Brain → Brain × Action
begin_auth b = (record b { phase = authing; auth_busy = true; next_auth_at = none }, portal_auth)

-- The Online case of `keep_wireless`.
pub keep_online : Brain → World → Brain × Action
unfolding start_join begin_auth sub64
keep_online b w =
    if is_kicked w.probe
    then begin_auth b
    else if not w.wlan_associated || not w.wlan_ip
    then start_join b
    else if is_none_or b.last_probe_at (λ t. leb b.probe_interval (sub64 w.now t))
    then (record b { last_probe_at = some w.now }, probe_now)
    else (b, nothing)

pub keep_in : WPhase → Brain → World → Brain × Action
unfolding start_join begin_auth keep_online
keep_in off b w = start_join b
keep_in error b w = if retry_due b w then start_join b else (b, nothing)
keep_in joining b w = if w.wlan_associated && w.wlan_ip then begin_auth b else (b, nothing)
keep_in authing b w =
    if not b.auth_busy && retry_due b w
    then (record b { auth_busy = true }, portal_auth)
    else (b, nothing)
keep_in online b w = keep_online b w

unfoldable pub keep_wireless : Brain → World → Brain × Action
unfolding keep_in
keep_wireless b w = keep_in b.phase b w

-- The exclusive mode while the wired side is healthy.
pub decide_healthy : Brain → World → Brain × Action
unfolding reset_off sub64
decide_healthy b w =
    let since = unwrap_or w.now b.healthy_since in
    let b' = record b { unhealthy_since = none; healthy_since = some since } in
    if leb b.release_after (sub64 w.now since) && not (is_off b.phase)
    then (reset_off b', disassociate)
    else (b', nothing)

pub unhealthy_in : WPhase → Bool → Brain → World → Brain × Action
unfolding start_join keep_wireless
unhealthy_in off debounced b w = if debounced then start_join b else (b, nothing)
unhealthy_in error debounced b w = if retry_due b w then start_join b else (b, nothing)
unhealthy_in _ debounced b w = keep_wireless b w

-- The exclusive mode while it is not.
pub decide_unhealthy : Brain → World → Brain × Action
unfolding unhealthy_in sub64
decide_unhealthy b w =
    let since = unwrap_or w.now b.unhealthy_since in
    let b' = record b { healthy_since = none; unhealthy_since = some since } in
    unhealthy_in b.phase (leb b.takeover_after (sub64 w.now since)) b' w

pub decide_in : NetMode → Brain → World → Brain × Action
unfolding keep_wireless decide_healthy decide_unhealthy
decide_in wired_plus_standby b w = keep_wireless b w
decide_in wired_exclusive b w =
    if w.eth_link_up && w.wired_connected then decide_healthy b w else decide_unhealthy b w

unfoldable pub decide : Brain → World → Brain × Action
unfolding decide_in
decide b w = decide_in b.mode b w
