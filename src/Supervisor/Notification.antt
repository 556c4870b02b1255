-- ===== src/Supervisor/Notification.antt =====
-- src/supervisor/notification.rs: toasts, at most one in flight for a key, and at most one delivered
-- in a throttle window.
pub mod Throttle
use gdut_net.Base.{
  ℕ, ◌-◌, String, Bool, true, false, not, Option, none, some, List, [], ◌∷◌, ◌++◌, ltb,
  if◌then◌else◌, any, retain,
}
use gdut_net.Supervisor.Types.{ToastKey, heartbeat_error, redial_failing, Effect, notify}

-- NOTIFY_THROTTLE_MS
abbrev pub notify_throttle_ms : ℕ
notify_throttle_ms = 1800000

pub record NotificationLedger : Type 0 where
  pub in_flight : List ToastKey
  pub delivered_at : List (ToastKey × ℕ)

-- NotificationLedger::default()
abbrev pub empty : NotificationLedger
empty = record { in_flight = []; delivered_at = [] }

-- `==` of keys
abbrev pub key_eq : ToastKey → ToastKey → Bool
key_eq heartbeat_error heartbeat_error = true
key_eq redial_failing redial_failing = true
key_eq _ _ = false

-- `Vec::remove` at the first position of a key
pub remove_first : ToastKey → List ToastKey → List ToastKey
remove_first key [] = []
remove_first key (k ∷ ks) = let rest = remove_first key ks in if key_eq k key then ks else k ∷ rest

-- `find`, and the time that it finds
unfoldable pub find_delivery : ToastKey → List (ToastKey × ℕ) → Option ℕ
find_delivery key [] = none
find_delivery key ((k, at) ∷ r) =
    let rest = find_delivery key r in if key_eq k key then some at else rest

-- `in_flight.contains(&key)`
abbrev pub pending : ToastKey → NotificationLedger → Bool
pending key l = any (λ k. key_eq k key) l.in_flight

unfoldable pub on_result : ToastKey → Bool → ℕ → NotificationLedger → NotificationLedger
unfolding remove_first retain
on_result key delivered now l =
    let removed = record l { in_flight = remove_first key l.in_flight } in
    let opened = record removed {
      delivered_at = retain (λ entry. not (key_eq entry.0 key)) l.delivered_at ++ (key, now) ∷ [];
    } in
    if pending key l then (if delivered then opened else removed) else l

-- The throttle window of an earlier delivery is still open.
unfoldable pub throttled : ℕ → Option ℕ → Bool
throttled now none = false
throttled now (some at) = ltb (now - at) notify_throttle_ms

unfoldable pub maybe_notify :
    ToastKey → String → String → ℕ → NotificationLedger → NotificationLedger × List Effect
unfolding find_delivery throttled
maybe_notify key title body now l =
    if pending key l
    then (l, [])
    else if throttled now (find_delivery key l.delivered_at)
    then (l, [])
    else (record l { in_flight = l.in_flight ++ key ∷ [] }, notify key title body ∷ [])
