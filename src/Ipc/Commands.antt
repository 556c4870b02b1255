-- ===== src/Ipc/Commands.antt =====
-- src/ipc/commands.rs: the mailbox between the windows and the pipe's worker. The steps that other
-- threads can come between are a send, the receiver's taking of the wake token, and its taking of
-- the pending commands. The channel of capacity one is a flag.
pub mod Refined
pub mod Waking
use gdut_net.Base.{Bool, true, false, Option, none, some, List, [], ◌∷◌, ◌++◌, if◌then◌else◌}
use gdut_net.Protocol.{Command, redial, set_mode, NetMode}

pub record Pending : Type 0 where
  pub redial : Bool
  pub mode : Option NetMode

pub record Mailbox : Type 0 where
  pub pending : Pending
  pub wake : Bool
  pub receiving : Bool

-- Pending::default
abbrev pub empty : Pending
empty = record { redial = false; mode = none }

unfoldable pub channel : Mailbox
channel = record { pending = empty; wake = false; receiving = false }

-- The match of `send`.
abbrev pub record_command : Command → Pending → Pending
record_command redial p = record p { redial = true }
record_command (set_mode mode) p = record p { mode = some mode }

-- `try_send` of a token where one waits changes nothing.
unfoldable pub send : Command → Mailbox → Mailbox
send c m = record m { pending = record_command c m.pending; wake = true }

-- `self.wake.recv()`, which blocks while there is no token.
unfoldable pub take_wake : Mailbox → Mailbox
take_wake m = if m.wake then record m { wake = false; receiving = true } else m

-- The commands of a batch: the mode first, then the redial.
abbrev pub batch : Pending → List Command
batch p =
    let redials : List Command = if p.redial then redial ∷ [] else [] in
    elim p.mode [ none ↦ redials | some mode ↦ set_mode mode ∷ redials ]

-- The rest of `recv`, once it has a token.
unfoldable pub take_pending : Mailbox → Option (List Command) × Mailbox
take_pending m =
    if m.receiving
    then (some (batch m.pending), record m { pending = empty; receiving = false })
    else (none, m)

pub data Step : Type 0 where
  sent : Command → Step
  woken taken : Step

-- The batches that come out, of any interleaving of the steps.
unfoldable pub run : List Step → Mailbox → List (List Command) × Mailbox
unfolding send take_wake take_pending
run [] m = ([], m)
run (sent c ∷ steps) m = run steps (send c m)
run (woken ∷ steps) m = run steps (take_wake m)
run (taken ∷ steps) m =
    let (out, m1) = take_pending m in
    let (outs, m2) = run steps m1 in (elim out [ none ↦ outs | some b ↦ b ∷ outs ], m2)
