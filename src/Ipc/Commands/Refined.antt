-- ===== src/Ipc/Commands/Refined.antt =====
-- The mailbox against a mailbox that keeps every command.
use gdut_net.Base.{
  ◌≡◌, refl, ap, sym, subst, Bool, true, false, Option, none, some, List, [], ◌∷◌, ◌++◌,
  if◌then◌else◌, arith,
}
use gdut_net.Protocol.{Command, redial, set_mode, NetMode}
use gdut_net.Ipc.Commands.{
  Pending, Mailbox, channel, record_command, send, take_wake, batch, take_pending, Step, sent,
  woken, taken, run,
}

-- The queue has the commands in the order they were sent; a batch is what they come to together.
pub record Queue : Type 0 where
  pub commands : List Command
  pub wake : Bool
  pub receiving : Bool

-- The latest mode that was asked for, if one was.
pub latest_mode : List Command → Option NetMode
latest_mode [] = none
latest_mode (redial ∷ cs) = latest_mode cs
latest_mode (set_mode mode ∷ cs) = elim (latest_mode cs) [ none ↦ some mode | some m ↦ some m ]

-- Whether a redial was asked for.
pub redial_asked : List Command → Bool
redial_asked [] = false
redial_asked (redial ∷ cs) = true
redial_asked (set_mode mode ∷ cs) = redial_asked cs

abbrev pub summary : List Command → Pending
summary cs = record { redial = redial_asked cs; mode = latest_mode cs }

pub queue_run : List Step → Queue → List (List Command) × Queue
queue_run [] q = ([], q)
queue_run (sent c ∷ steps) q =
    queue_run steps (record q { commands = q.commands ++ c ∷ []; wake = true })
queue_run (woken ∷ steps) q =
    queue_run steps (if q.wake then record q { wake = false; receiving = true } else q)
queue_run (taken ∷ steps) q =
    let (outs, q') = queue_run steps (record q { commands = []; receiving = false }) in
    let idle = queue_run steps q in
    if q.receiving then (batch (summary q.commands) ∷ outs, q') else idle

-- What the mailbox forgets of a queue.
abbrev forget : Queue → Mailbox
forget q = record { pending = summary q.commands; wake = q.wake; receiving = q.receiving }

redial_asked-append :
    (cs : List Command) (c : Command)
    → redial_asked (cs ++ c ∷ []) ≡ (record_command c (summary cs)).redial
unfolding redial_asked
redial_asked-append [] redial = refl
redial_asked-append [] (set_mode mode) = refl
redial_asked-append (redial ∷ cs) redial = refl
redial_asked-append (redial ∷ cs) (set_mode mode) = refl
redial_asked-append (set_mode m ∷ cs) redial = redial_asked-append cs redial
redial_asked-append (set_mode m ∷ cs) (set_mode mode) = redial_asked-append cs (set_mode mode)

latest_mode-append :
    (cs : List Command) (c : Command)
    → latest_mode (cs ++ c ∷ []) ≡ (record_command c (summary cs)).mode
unfolding latest_mode
latest_mode-append [] redial = refl
latest_mode-append [] (set_mode mode) = refl
latest_mode-append (redial ∷ cs) redial = latest_mode-append cs redial
latest_mode-append (redial ∷ cs) (set_mode mode) = latest_mode-append cs (set_mode mode)
latest_mode-append (set_mode m ∷ cs) redial = rw (latest_mode-append cs redial)
latest_mode-append (set_mode m ∷ cs) (set_mode mode) = rw (latest_mode-append cs (set_mode mode))

send-forget :
    (c : Command) (q : Queue)
    → send c (forget q) ≡ forget (record q { commands = q.commands ++ c ∷ []; wake = true })
unfolding send
send-forget c q = rw (redial_asked-append q.commands c, latest_mode-append q.commands c)

woken_queue : Queue → Queue
woken_queue q = if q.wake then record q { wake = false; receiving = true } else q

take_wake-forget : (q : Queue) → take_wake (forget q) ≡ forget (woken_queue q)
unfolding take_wake woken_queue
take_wake-forget q = ground arith

-- The same batches, and in the end the same pending commands.
abbrev Agree : List Step → Mailbox → Queue → Type 0
Agree steps m q =
    ((run steps m).0 ≡ (queue_run steps q).0) × ((run steps m).1 ≡ forget (queue_run steps q).1)

taken_refines :
    (steps : List Step) (cs : List Command) (wakes receives : Bool)
    → let q : Queue = record { commands = cs; wake = wakes; receiving = receives } in
      Agree steps
        (forget (record q { commands = []; receiving = false }))
        (record q { commands = []; receiving = false })
      → Agree steps (forget q) q
      → Agree (taken ∷ steps) (forget q) q
unfolding run queue_run redial_asked latest_mode take_pending
taken_refines steps cs wakes true emptied idle =
    (ap (λ outs. batch (summary cs) ∷ outs) emptied.0, emptied.1)
taken_refines steps cs wakes false emptied idle = idle

refines_from : (steps : List Step) (q : Queue) → Agree steps (forget q) q
unfolding run queue_run redial_asked latest_mode woken_queue
refines_from [] q = (refl, refl)
refines_from (sent c ∷ steps) q =
    let q' = record q { commands = q.commands ++ c ∷ []; wake = true } in
    subst (λ m. Agree steps m q') (sym (send-forget c q)) (refines_from steps q')
refines_from (woken ∷ steps) q =
    subst (λ m. Agree steps m (woken_queue q)) (sym (take_wake-forget q))
      (refines_from steps (woken_queue q))
refines_from (taken ∷ steps) q =
    taken_refines steps q.commands q.wake q.receiving
      (refines_from steps (record q { commands = []; receiving = false })) (refines_from steps q)

-- The mailbox refines a queue of all the commands sent, under any interleaving of sends with the
-- two halves of receives: the batches that come out are the same, where a batch of the queue is the
-- latest mode asked for since the last batch, if any, and then one redial, if any was asked for.
pub mailbox_refines :
    (steps : List Step)
    → (run steps channel).0
      ≡ (queue_run steps (record { commands = []; wake = false; receiving = false })).0
unfolding channel redial_asked latest_mode
mailbox_refines steps =
    (refines_from steps (record { commands = []; wake = false; receiving = false })).0
