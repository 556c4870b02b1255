-- ===== src/Ipc/Session/Confirmed.antt =====
-- Which snapshot confirms a command.
use gdut_net.Base.{
  ℕ, zero, suc, ◌≡◌, ◌≤◌, Bool, true, false, Option, none, some, List, [], ◌∷◌, length,
  if◌then◌else◌, arith, inl, inr, Bool-cases,
}
use gdut_net.Protocol.{StateSnapshot, NetMode, set_mode}
use gdut_net.Ipc.Session.{
  Pipe, Session, got, failed, next_snapshot, same_mode, await_confirm, confirm_mode, send,
  send_and_confirm, switch_mode,
}

-- The first state that a test accepts.
abbrev pub find : (StateSnapshot → Bool) → List StateSnapshot → Option StateSnapshot
find p [] = none
find p (x ∷ xs) = if p x then some x else find p xs

find_lem :
    (p : StateSnapshot → Bool) (xs : List StateSnapshot) (x : StateSnapshot)
    → find p xs ≡ some x
    → p x ≡ true
find_lem p [] x found = ground arith
find_lem p (y ∷ ys) x found = ground (arith, find_lem p ys x)

-- The test that a mode is confirmed.
abbrev pub has_mode : NetMode → StateSnapshot → Bool
has_mode mode state = same_mode state.mode mode

-- A last frame that does not confirm the mode.
abbrev IsStale : NetMode → Option StateSnapshot → Type 0
IsStale mode none = Unit
IsStale mode (some x) = has_mode mode x ≡ false

module _ {T : Type 0} (api : Pipe T) (reads : ℕ) where
  -- The snapshots that a session reads next.
  unfoldable pub Reads : List StateSnapshot → Session T → Type 0
  Reads [] s = Unit
  Reads (x ∷ xs) s =
      ((next_snapshot api reads s).0 ≡ got x) × Reads xs (next_snapshot api reads s).1

  await_found :
      (p : StateSnapshot → Bool) (frames : ℕ) (last : Option StateSnapshot) (s : Session T)
      (x : StateSnapshot) (xs : List StateSnapshot)
      → Reads xs s
      → length xs ≤ frames
      → find p xs ≡ some x
      → (await_confirm api reads p frames last s).0 ≡ got x
  unfolding await_confirm Reads
  await_found p frames last s x [] h few found = ground arith
  await_found p zero last s x (y ∷ ys) h few found = ground arith
  await_found p (suc frames) last s x (y ∷ ys) h few found =
      ground (arith, h.0, await_found p frames (some y) (next_snapshot api reads s).1 x ys h.1)

  await_stale :
      (mode : NetMode) (frames : ℕ) (last : Option StateSnapshot) (s : Session T)
      (xs : List StateSnapshot)
      → IsStale mode last
      → Reads xs s
      → length xs ≡ frames
      → find (has_mode mode) xs ≡ none
      → confirm_mode mode (await_confirm api reads (has_mode mode) frames last s).0 ≡ failed
  unfolding await_confirm Reads confirm_mode
  await_stale mode zero last s xs stale h few missing = ground (arith, stale)
  await_stale mode (suc frames) last s [] stale h few missing = ground arith
  await_stale mode (suc frames) last s (y ∷ ys) stale h few missing =
      elim (Bool-cases (has_mode mode y)) [
        | inl hit ↦ ground (arith, hit)
        | inr lacks ↦ ground (
          arith,
          h.0,
          lacks,
          await_stale mode frames (some y) (next_snapshot api reads s).1 ys lacks h.1,
        )
      ]

  -- A switch of the mode, on a connection that reads a first snapshot, takes the command, and then
  -- reads at most five snapshots: the first of these that has the mode is returned, and where all
  -- five lack it, the switch fails. What the first snapshot says of the mode does not count.
  pub switch_confirmed :
      (mode : NetMode) (s : Session T) (first : StateSnapshot) (xs : List StateSnapshot)
      → (next_snapshot api reads s).0 ≡ got first
      → (send api (set_mode mode) (next_snapshot api reads s).1).0 ≡ true
      → Reads xs (send api (set_mode mode) (next_snapshot api reads s).1).1
      → length xs ≤ 5
      → ((x : StateSnapshot)
          → find (has_mode mode) xs ≡ some x
          → switch_mode api reads mode s ≡ got x)
        × (find (has_mode mode) xs ≡ none → length xs ≡ 5 → switch_mode api reads mode s ≡ failed)
  unfolding switch_mode send_and_confirm confirm_mode
  switch_confirmed mode s first xs read sent h few =
      let s2 = (send api (set_mode mode) (next_snapshot api reads s).1).1 in
      (
        λ x found. ground (
          arith,
          read,
          sent,
          find_lem (has_mode mode) xs x found,
          await_found (has_mode mode) 5 none s2 x xs h few found,
        ),
        λ missing five. ground (arith, read, sent, await_stale mode 5 none s2 xs tt h five missing),
      )
