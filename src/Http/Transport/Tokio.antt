-- ===== src/Http/Transport/Tokio.antt =====
-- `get_async` of src/http.rs: the GET that the probes and the login make. The sockets and the timer of
-- tokio are the parameter `Sockets`, over a state T; its arguments are the fields of `Request`.
use gdut_net.Base.{
  ℕ, zero, suc, ◌+◌, ◌-◌, Bool, false, ◌&&◌, Option, none, some, List, [], ◌++◌, length, ltb,
  if◌then◌else◌,
}
use gdut_net.Http.{Target, is_empty}
use gdut_net.Http.Transport.{
  Net, ReadPolicy, Request, Response, is_partial, headers_complete, request_bytes, response,
  cut_off, target_address,
}
use gdut_net.Ipv4.{Ipv4Addr, ◌>>=◌}

-- A read that finds the end of the stream answers []. `expires` is the world in which the timer of a
-- deadline has won over the whole exchange, which is then dropped.
pub record Sockets (T : Type 0) : Type 0 where
  pub connect : Ipv4Addr → ℕ → T → Bool × T
  pub write_all : List ℕ → T → Bool × T
  pub read : ℕ → T → Option (List ℕ) × T
  pub expires : ℕ → T → Option T

module _ {T : Type 0} (net : Net T) (sockets : Sockets T) where
  -- The loop that reads, for as many rounds. No round tests the deadline.
  unfoldable pub read_all : ℕ → ReadPolicy → ℕ → List ℕ → T → Option (List ℕ) × T
  unfolding headers_complete
  read_all zero policy max_bytes buf t = (some buf, t)
  read_all (suc rounds) policy max_bytes buf t =
      let left = max_bytes - length buf in
      let limit = if ltb left 4096 then left else 4096 in
      let (chunk, t') = sockets.read limit t in
      let more : List ℕ → Option (List ℕ) × T = λ bytes.
        let rest = read_all rounds policy max_bytes (buf ++ bytes) t' in
        if is_partial policy && headers_complete (buf ++ bytes)
        then (some (buf ++ bytes), t')
        else rest in
      let read : Option (List ℕ) × T = elim chunk [
        | none ↦ (cut_off net policy buf, t')
        | some bytes ↦ if is_empty bytes then (some buf, t') else more bytes
      ] in
      if ltb (length buf) max_bytes then read else (some buf, t)

  -- The part that opens the connection and writes the request.
  unfoldable pub open_stream : Request → Target × Ipv4Addr → T → Bool × T
  unfolding request_bytes
  open_stream req (target, addr) t =
      let (bound, t1) = net.bind req.bind_ip t in
      let (connected, t2) = sockets.connect addr target.port t1 in
      let sent = sockets.write_all (request_bytes target req.user_agent) t2 in
      if bound then (if connected then sent else (false, t2)) else (false, t1)

  -- The future `io`.
  unfoldable pub exchange : Request → T → Option Response × T
  unfolding open_stream read_all response target_address
  exchange req t = elim (target_address net req.url) [
    | none ↦ (none, t)
    | some target ↦
        let (sent, t1) = open_stream req target t in
        let (buf, t2) = read_all req.max_bytes req.read_policy req.max_bytes [] t1 in
        if sent then (buf >>= response net, t2) else (none, t1)
  ]

  unfoldable pub get_async : Request → T → Option Response × T
  unfolding exchange
  get_async req t = elim (sockets.expires (net.now t + req.timeout) t) [
    | none ↦ exchange req t
    | some late ↦ (none, late)
  ]
