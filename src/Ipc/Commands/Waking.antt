-- ===== src/Ipc/Commands/Waking.antt =====
-- The wake token of the mailbox.
use gdut_net.Base.{◌≡◌, ◌⊎◌, inl, inr, refl, true, List, [], ◌∷◌, arith}
use gdut_net.Ipc.Commands.{
  Mailbox, empty, channel, send, take_wake, take_pending, Step, sent, woken, taken, run,
}

-- Something pending has a token waiting, or a receiver that has taken one.
abbrev pub IsAnnounced : Mailbox → Type 0
IsAnnounced m = (m.wake ≡ true) ⊎ (m.receiving ≡ true) ⊎ (m.pending ≡ empty)

take_wake-IsAnnounced : (m : Mailbox) → IsAnnounced m → IsAnnounced (take_wake m)
unfolding take_wake
take_wake-IsAnnounced m h = grind arith

take_pending-IsAnnounced : (m : Mailbox) → IsAnnounced m → IsAnnounced (take_pending m).1
unfolding take_pending
take_pending-IsAnnounced m h = grind arith

run-IsAnnounced : (steps : List Step) (m : Mailbox) → IsAnnounced m → IsAnnounced (run steps m).1
unfolding run send
run-IsAnnounced [] m h = h
run-IsAnnounced (sent c ∷ steps) m h = run-IsAnnounced steps (send c m) (inl refl)
run-IsAnnounced (woken ∷ steps) m h =
    run-IsAnnounced steps (take_wake m) (take_wake-IsAnnounced m h)
run-IsAnnounced (taken ∷ steps) m h =
    run-IsAnnounced steps (take_pending m).1 (take_pending-IsAnnounced m h)

-- Under any interleaving of sends with the two halves of receives no wake-up is lost: whenever
-- something is pending, a token is in the channel or the receiver has one in hand.
pub pending_announced :
    (steps : List Step)
    → let m = (run steps channel).1 in (m.wake ≡ true) ⊎ (m.receiving ≡ true) ⊎ (m.pending ≡ empty)
unfolding channel
pending_announced steps = run-IsAnnounced steps channel (inr (inr refl))
