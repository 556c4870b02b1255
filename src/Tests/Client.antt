-- ===== src/Tests/Client.antt =====
-- Pipes and command lines on which the theorems of the clients are applied.
use gdut_net.Base.{
  ℕ, ◌≡◌, ◌≢◌, refl, String, true, Option, none, some, List, [], ◌∷◌, arith, is_some, if◌then◌else◌,
  ◌&&◌, ◌==◌, length,
}
use gdut_net.Protocol.{
  SessionStatus, HeartbeatStatus, NetMode, wired_exclusive, wired_plus_standby,
  wireless_snapshot_default, StateSnapshot,
}
use gdut_net.Protocol.Frame.{fresh, feed}
use gdut_net.Ipc.Session.{
  Pipe, Session, got, failed, unfinished, next_snapshot, read_chunk, receive, take_buffered, send,
  switch_mode,
}
use gdut_net.Ipc.Session.Confirmed.{Reads, find, has_mode, switch_confirmed}
use gdut_net.Ipc.Session.Ending.{ClosesWithin, next_snapshot_ends}
use gdut_net.SetupArgs.{parse, mode}
use gdut_net.SetupArgs.Described.{is_known, described, parse-described}

abbrev state_in : NetMode → StateSnapshot
state_in mode = record {
  status = SessionStatus.idle;
  since_unix = none;
  ip = none;
  last_drop_reason = none;
  redial_attempts = 0;
  heartbeat = HeartbeatStatus.off;
  mode = mode;
  wireless = wireless_snapshot_default;
  events = [];
}

-- A pipe of the chunks that are still to come; a frame is a message by its first byte.
abbrev decode : List ℕ → Option StateSnapshot
decode [] = none
decode (b ∷ bs) =
    if b == 1
    then some (state_in wired_exclusive)
    else if b == 2
    then some (state_in wired_plus_standby)
    else none

abbrev read_first : List (List ℕ) → Option (List ℕ) × List (List ℕ)
read_first [] = (some [], [])
read_first (c ∷ cs) = (some c, cs)

abbrev chunks_pipe : Pipe (List (List ℕ))
chunks_pipe = record {
  open_pipe = λ t. (true, t);
  sleep = λ d t. t;
  read = read_first;
  write_all = λ bytes t. (true, t);
  flush = λ t. (true, t);
  from_slice = decode;
  to_vec = λ c. 9 ∷ [];
}

-- The first snapshot, a frame that is no message, one more of the old mode, and the new mode in two
-- pieces.
abbrev connection : Session (List (List ℕ))
connection = record {
  pipe = (1 ∷ 10 ∷ []) ∷ (7 ∷ 10 ∷ []) ∷ (1 ∷ 10 ∷ 2 ∷ []) ∷ (10 ∷ []) ∷ [];
  decoder = fresh;
  buf = [];
}

-- What the client reads after its command.
abbrev answers : List StateSnapshot
answers = state_in wired_exclusive ∷ state_in wired_plus_standby ∷ []

switch_confirmed_example :
    ((x : StateSnapshot)
      → find (has_mode wired_plus_standby) answers ≡ some x
      → switch_mode chunks_pipe 5 wired_plus_standby connection ≡ got x)
    × (find (has_mode wired_plus_standby) answers ≡ none
        → length answers ≡ 5
        → switch_mode chunks_pipe 5 wired_plus_standby connection ≡ failed)
unfolding next_snapshot read_chunk receive take_buffered send feed Reads
switch_confirmed_example =
    switch_confirmed chunks_pipe 5 wired_plus_standby connection (state_in wired_exclusive) answers
      refl refl (refl, (refl, tt)) (omega arith)

next_snapshot_ends_example : (next_snapshot chunks_pipe 5 connection).0 ≢ unfinished
unfolding ClosesWithin
next_snapshot_ends_example = next_snapshot_ends chunks_pipe 4 connection (λ _ _ _ _. refl)

abbrev arguments : List String
arguments = "--silent" ∷ "--uninstall" ∷ "--purge" ∷ "--silent" ∷ []

parse-described_example : parse arguments ≡ (
    if is_known arguments && is_some (mode (described arguments))
    then some (described arguments)
    else none)
parse-described_example = parse-described arguments
