-- ===== src/Ipc/Session.antt =====
-- src/ipc/session.rs: a client's connection to the service's pipe. The pipe, the JSON library and the
-- sleep are the parameter `Pipe`, over a state T of the pipe; an error of theirs is a Boolean or none.
pub mod Confirmed
pub mod Ending
use gdut_net.Base.{
  ℕ, zero, suc, Bool, true, false, Option, none, some, List, [], ◌∷◌, ◌++◌, if◌then◌else◌,
}
use gdut_net.Protocol.{StateSnapshot, NetMode, Command, set_mode, NetMode-discrete}
use gdut_net.Protocol.Frame.{FrameDecoder, fresh, feed, encode_frame}

pub record Pipe (T : Type 0) : Type 0 where
  pub open_pipe : T → Bool × T
  pub sleep : ℕ → T → T
  pub read : T → Option (List ℕ) × T
  pub write_all : List ℕ → T → Bool × T
  pub flush : T → Bool × T
  pub from_slice : List ℕ → Option StateSnapshot
  pub to_vec : Command → List ℕ

-- CONNECT_RETRIES
abbrev pub connect_retries : ℕ
connect_retries = 20

-- CONNECT_RETRY_DELAY, in milliseconds.
abbrev pub connect_retry_delay : ℕ
connect_retry_delay = 250

-- The connection, with the state of its pipe.
pub record Session (T : Type 0) : Type 0 where
  pub pipe : T
  pub decoder : FrameDecoder
  pub buf : List (List ℕ)

-- `Ok`, `Err`, or a loop that has not come to its end within the reads that it was given.
pub data Outcome : Type 0 where
  got : StateSnapshot → Outcome
  failed unfinished : Outcome

-- `==` of modes
abbrev pub same_mode : NetMode → NetMode → Bool
same_mode a b = elim (NetMode-discrete a b) [ yes _ ↦ true | no _ ↦ false ]

-- The check of the snapshot that `set_mode_confirmed` read last.
unfoldable pub confirm_mode : NetMode → Outcome → Outcome
confirm_mode mode (got state) = if same_mode state.mode mode then got state else failed
confirm_mode mode failed = failed
confirm_mode mode unfinished = unfinished

module _ {T : Type 0} (api : Pipe T) where
  -- The loop of `connect` over the tries that are left.
  unfoldable pub connect_within : ℕ → T → Option (Session T) × T
  connect_within zero t = (none, t)
  connect_within (suc tries) t =
      let (ok, t1) = api.open_pipe t in
      let rest = connect_within tries (api.sleep connect_retry_delay t1) in
      if ok then (some (record { pipe = t1; decoder = fresh; buf = [] }), t1) else rest

  unfoldable pub connect : T → Option (Session T) × T
  unfolding connect_within
  connect t = connect_within connect_retries t

  -- The inner loop of `next_snapshot`: the first frame that is a message, and the frames after it.
  unfoldable pub take_buffered : List (List ℕ) → Option StateSnapshot × List (List ℕ)
  take_buffered [] = (none, [])
  take_buffered (frame ∷ frames) =
      let rest = take_buffered frames in
      elim (api.from_slice frame) [ none ↦ rest | some state ↦ (some state, frames) ]

  -- A chunk that was read, fed to the decoder: whether the loop goes on.
  unfoldable pub receive : List ℕ → Session T → Bool × Session T
  unfolding feed
  receive [] s = (false, s)
  receive (b ∷ bs) s =
      let (decoder, frames) = feed s.decoder (b ∷ bs) in
      elim frames [
        | none ↦ (false, record s { decoder = decoder })
        | some new ↦ (true, record s { decoder = decoder; buf = s.buf ++ new })
      ]

  -- A read of the pipe.
  unfoldable pub read_chunk : Session T → Bool × Session T
  unfolding receive
  read_chunk s =
      let (chunk, t) = api.read s.pipe in
      let s' : Session T = record s { pipe = t } in
      elim chunk [ none ↦ (false, s') | some bytes ↦ receive bytes s' ]

  -- The loop of `next_snapshot`, for as many reads.
  unfoldable pub next_snapshot : ℕ → Session T → Outcome × Session T
  unfolding take_buffered read_chunk
  next_snapshot zero s =
      let (state, buf) = take_buffered s.buf in
      let s1 : Session T = record s { buf = buf } in
      elim state [ none ↦ (unfinished, s1) | some state ↦ (got state, s1) ]
  next_snapshot (suc reads) s =
      let (state, buf) = take_buffered s.buf in
      let s1 : Session T = record s { buf = buf } in
      let (ok, s2) = read_chunk s1 in
      let rest = next_snapshot reads s2 in
      let read : Outcome × Session T = if ok then rest else (failed, s2) in
      elim state [ none ↦ read | some state ↦ (got state, s1) ]

  unfoldable pub send : Command → Session T → Bool × Session T
  unfolding encode_frame
  send c s =
      let (written, t1) = api.write_all (encode_frame (api.to_vec c)) s.pipe in
      let (flushed, t2) = api.flush t1 in
      if written then (flushed, record s { pipe = t2 }) else (false, record s { pipe = t1 })

  -- The loop of `send_and_confirm`, over the frames that are left, with the last one.
  unfoldable pub await_confirm :
      ℕ → (StateSnapshot → Bool) → ℕ → Option StateSnapshot → Session T → Outcome × Session T
  unfolding next_snapshot
  await_confirm reads confirm zero last s = elim last [
    | none ↦ (failed, s)
    | some state ↦ (got state, s)
  ]
  await_confirm reads confirm (suc frames) last s =
      let (o, s1) = next_snapshot reads s in
      elim o [
        | got state ↦
            let rest = await_confirm reads confirm frames (some state) s1 in
            if confirm state then (got state, s1) else rest
        | failed ↦ (failed, s1)
        | unfinished ↦ (unfinished, s1)
      ]

  unfoldable pub send_and_confirm :
      ℕ → Command → (StateSnapshot → Bool) → ℕ → Session T → Outcome × Session T
  unfolding send await_confirm
  send_and_confirm reads cmd confirm max_frames s =
      let (ok, s1) = send cmd s in
      if ok then await_confirm reads confirm max_frames none s1 else (failed, s1)

  unfoldable pub status_snapshot : ℕ → T → Outcome
  unfolding connect next_snapshot
  status_snapshot reads t = elim (connect t).0 [
    | none ↦ failed
    | some s ↦ (next_snapshot reads s).0
  ]

  -- `set_mode_confirmed`, once it is connected.
  unfoldable pub switch_mode : ℕ → NetMode → Session T → Outcome
  unfolding next_snapshot send_and_confirm confirm_mode
  switch_mode reads mode s =
      let (first, s1) = next_snapshot reads s in
      let last = send_and_confirm reads (set_mode mode) (λ state. same_mode state.mode mode) 5 s1 in
      elim first [
        | got state ↦ confirm_mode mode last.0
        | failed ↦ failed
        | unfinished ↦ unfinished
      ]

  unfoldable pub set_mode_confirmed : ℕ → NetMode → T → Outcome
  unfolding connect switch_mode
  set_mode_confirmed reads mode t = elim (connect t).0 [
    | none ↦ failed
    | some s ↦ switch_mode reads mode s
  ]
