-- ===== src/Protocol/EventLog.antt =====
-- EventLog of src/ipc/protocol.rs: a ring of the latest twenty event lines.
pub mod Latest
use gdut_net.Base.{
  ℕ, zero, suc, ◌+◌, ◌-◌, ◌/◌, ◌%◌, ◌≤◌, ◌<◌, String, ◌≡◌, refl, List, [], ◌∷◌, ◌++◌, arith, leb,
  if◌then◌else◌, length, drop, length-append, length-drop, ◌<+>◌, decimal2, Bool-cases, inl, inr,
}

pub record EventLog : Type 0 where
  pub cap : ℕ
  pub ring : List String

-- EventLog::default() and EventLog::new()
unfoldable pub new : EventLog
new = record { cap = 20; ring = [] }

-- `[HH:MM:SS] msg`, of the second of the day in UTC.
unfoldable pub event_line : ℕ → String → String
event_line unix_secs msg =
    let d = unix_secs % 86400 in
    "["
    <+> decimal2 (d / 3600)
    <+> ":"
    <+> decimal2 (d % 3600 / 60)
    <+> ":"
    <+> decimal2 (d % 60)
    <+> "] "
    <+> msg

-- pop_front of a VecDeque
unfoldable pub pop_front : List String → List String
pop_front [] = []
pop_front (x ∷ xs) = xs

unfoldable pub push : EventLog → ℕ → String → EventLog
unfolding pop_front
push log unix_secs msg =
    let kept = if leb log.cap (length log.ring) then pop_front log.ring else log.ring in
    record log { ring = kept ++ event_line unix_secs msg ∷ [] }
