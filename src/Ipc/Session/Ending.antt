-- ===== src/Ipc/Session/Ending.antt =====
-- A client does not wait for ever on a pipe that is closed.
use gdut_net.Base.{
  ℕ, zero, suc, ◌≡◌, ◌≢◌, sym, subst, Bool, true, false, Option, none, some, List, [], ◌∷◌, arith,
}
use gdut_net.Ipc.Session.{
  Pipe, Session, unfinished, take_buffered, receive, read_chunk, next_snapshot,
}

-- Whether a read brings bytes: it neither fails nor meets the end.
abbrev pub is_data : Option (List ℕ) → Bool
is_data none = false
is_data (some []) = false
is_data (some (b ∷ bs)) = true

module _ {T : Type 0} (api : Pipe T) where
  -- At most so many reads bring bytes before the pipe is closed.
  unfoldable pub ClosesWithin : ℕ → T → Type 0
  ClosesWithin zero t = is_data (api.read t).0 ≡ false
  ClosesWithin (suc n) t = is_data (api.read t).0 ≡ true → ClosesWithin n (api.read t).1

  receive-pipe :
      (bytes : List ℕ) (s : Session T)
      → ((receive api bytes s).0 ≡ true → is_data (some bytes) ≡ true)
        × ((receive api bytes s).1.pipe ≡ s.pipe)
  unfolding receive
  receive-pipe [] s = ground arith
  receive-pipe (b ∷ bs) s = ground arith

  answer-pipe :
      (chunk : Option (List ℕ)) (s : Session T)
      → let r : Bool × Session T = elim chunk [
        | none ↦ (false, s)
        | some bytes ↦ receive api bytes s
      ] in
        (r.0 ≡ true → is_data chunk ≡ true) × (r.1.pipe ≡ s.pipe)
  answer-pipe none s = ground arith
  answer-pipe (some bytes) s = receive-pipe bytes s

  read_chunk-pipe :
      (s : Session T)
      → ((read_chunk api s).0 ≡ true → is_data (api.read s.pipe).0 ≡ true)
        × ((read_chunk api s).1.pipe ≡ (api.read s.pipe).1)
  unfolding read_chunk
  read_chunk-pipe s = answer-pipe (api.read s.pipe).0 (record s { pipe = (api.read s.pipe).1 })

  -- Where at most `reads` reads bring bytes before the pipe is closed, the wait for a snapshot ends
  -- with the read after those: with a snapshot or with an error.
  pub next_snapshot_ends :
      (reads : ℕ) (s : Session T)
      → ClosesWithin reads s.pipe
      → (next_snapshot api (suc reads) s).0 ≢ unfinished
  unfolding next_snapshot ClosesWithin
  next_snapshot_ends zero s closes =
      let s1 : Session T = record s { buf = (take_buffered api s.buf).1 } in
      ground (arith, read_chunk-pipe s1, closes)
  next_snapshot_ends (suc reads) s closes =
      let s1 : Session T = record s { buf = (take_buffered api s.buf).1 } in
      let (brought, at_next) = read_chunk-pipe s1 in
      let later : (read_chunk api s1).0 ≡ true
          → (next_snapshot api (suc reads) (read_chunk api s1).1).0 ≢ unfinished =
        λ ok.
          next_snapshot_ends reads (read_chunk api s1).1
            (subst (ClosesWithin reads) (sym at_next) (closes (brought ok))) in
      ground (arith, later)
