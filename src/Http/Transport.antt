-- ===== src/Http/Transport.antt =====
-- The transport of src/http.rs, and its synchronous `get` (Tokio has `get_async`): a GET over one connection, in the time and the bytes that it is given.
-- The sockets, the clock and the reading of UTF-8 are the parameter `Net`, over a state T. Bytes and
-- the codes of texts are numbers, times are nanoseconds, and an error is none or false. A host that is
-- no IPv4 address is an error, since the socket is an IPv4 one.
pub mod Chunks
pub mod Headers
pub mod Pieces
pub mod Tokio
use gdut_net.Base.{
  ℕ, zero, suc, ◌+◌, ◌-◌, ◌*◌, String, Bool, true, false, not, ◌&&◌, ◌||◌, Option, none, some, List,
  [], ◌∷◌, ◌++◌, length, drop, map, ltb, leb, ◌==◌, if◌then◌else◌,
}
use gdut_net.Http.{Target, parse_url, strip_prefix, is_empty, split_once, lower, parse_uint}
use gdut_net.Ipv4.{Ipv4Addr, codes, is_space, parse_ipv4, ◌>>=◌}

pub data ReadPolicy : Type 0 where
  complete accept_partial : ReadPolicy

-- A call is given the time that is left; a read that finds the end of the stream answers [].
pub record Net (T : Type 0) : Type 0 where
  pub from_utf8_lossy : List ℕ → List ℕ
  pub now : T → ℕ
  pub bind : Ipv4Addr → T → Bool × T
  pub connect : Ipv4Addr → ℕ → ℕ → T → Bool × T
  pub write : List ℕ → ℕ → T → Option ℕ × T
  pub read : ℕ → ℕ → T → Option (List ℕ) × T

pub record Request : Type 0 where
  pub url : List ℕ
  pub bind_ip : Ipv4Addr
  pub user_agent : List ℕ
  pub timeout : ℕ
  pub max_bytes : ℕ
  pub read_policy : ReadPolicy

pub record Response : Type 0 where
  pub status : ℕ
  pub location_lower : List ℕ
  pub body : List ℕ

abbrev pub is_partial : ReadPolicy → Bool
is_partial accept_partial = true
is_partial complete = false

unfoldable pub read_acceptable : ReadPolicy → Bool → Bool → Bool
read_acceptable policy read_ok got_bytes = read_ok || (is_partial policy && got_bytes)

abbrev pub is_ascii_whitespace : ℕ → Bool
is_ascii_whitespace c = c == 9 || c == 10 || c == 12 || c == 13 || c == 32

-- `split_ascii_whitespace`, its next word and what comes after it.
unfoldable pub skip_space : (ℕ → Bool) → List ℕ → List ℕ
skip_space space [] = []
skip_space space (c ∷ cs) = let rest = skip_space space cs in if space c then rest else c ∷ cs

unfoldable pub take_word : List ℕ → List ℕ × List ℕ
take_word [] = ([], [])
take_word (c ∷ cs) =
    let (word, rest) = take_word cs in
    if is_ascii_whitespace c then ([], c ∷ cs) else (c ∷ word, rest)

unfoldable pub next_word : List ℕ → Option (List ℕ × List ℕ)
unfolding skip_space take_word
next_word text =
    let found = take_word (skip_space is_ascii_whitespace text) in
    if is_empty found.0 then none else some found

unfoldable pub parse_status_code : List ℕ → Option ℕ
unfolding next_word parse_uint
parse_status_code line = do
  (version, rest) ← next_word line
  mark ← strip_prefix (codes "HTTP/") version
  (code, rest') ← next_word rest
  parse_uint 65536 code

unfoldable pub starts_with : List ℕ → List ℕ → Bool
starts_with [] text = true
starts_with (p ∷ ps) [] = false
starts_with (p ∷ ps) (c ∷ cs) = p == c && starts_with ps cs

abbrev pub blank_line : List ℕ
blank_line = 13 ∷ 10 ∷ 13 ∷ 10 ∷ []

-- `split_once("\r\n\r\n")`
unfoldable pub split_blank : List ℕ → Option (List ℕ × List ℕ)
unfolding starts_with
split_blank [] = none
split_blank (c ∷ cs) =
    let rest : Option (List ℕ × List ℕ) = elim (split_blank cs) [
      | none ↦ none
      | some (headers, body) ↦ some (c ∷ headers, body)
    ] in
    if starts_with blank_line (c ∷ cs) then some ([], drop 4 (c ∷ cs)) else rest

-- The line that is being read, and the lines after it: `split("\r\n")`, which goes on after the
-- newline of a match.
unfoldable pub split_lines : List ℕ → List ℕ × List (List ℕ)
split_lines [] = ([], [])
split_lines (c ∷ []) = (c ∷ [], [])
split_lines (c ∷ d ∷ cs) =
    let after = split_lines cs in
    let (line, lines) = split_lines (d ∷ cs) in
    if c == 13 && d == 10 then ([], after.0 ∷ after.1) else (c ∷ line, lines)

unfoldable pub trim_end : List ℕ → List ℕ
trim_end [] = []
trim_end (c ∷ cs) = let rest = trim_end cs in if is_space c && is_empty rest then [] else c ∷ rest

unfoldable pub trim : List ℕ → List ℕ
unfolding skip_space trim_end
trim text = trim_end (skip_space is_space text)

-- `==` of texts
unfoldable pub codes_eq : List ℕ → List ℕ → Bool
unfolding starts_with
codes_eq xs ys = starts_with xs ys && length xs == length ys

-- The value of the first header of this name.
unfoldable pub find_location : List (List ℕ) → List ℕ
unfolding codes_eq trim
find_location [] = []
find_location (line ∷ lines) =
    let rest = find_location lines in
    elim (split_once line) [
      | none ↦ rest
      | some (key, value) ↦
          if codes_eq (map lower (trim key)) (codes "location")
          then map lower (trim value)
          else rest
    ]

-- The response of headers and a body.
unfoldable pub response_of : List ℕ × List ℕ → Option Response
unfolding parse_status_code split_lines find_location
response_of (headers, body) = do
  status ← parse_status_code (split_lines headers).0
  some (record {
    status = status;
    location_lower = find_location (split_lines headers).1;
    body = body;
  })

-- `windows(4).any`
unfoldable pub headers_complete : List ℕ → Bool
unfolding starts_with
headers_complete [] = false
headers_complete (b ∷ bs) = starts_with blank_line (b ∷ bs) || headers_complete bs

unfoldable pub request_bytes : Target → List ℕ → List ℕ
request_bytes target user_agent =
    codes "GET "
    ++ (target.path
        ++ (codes " HTTP/1.0\r\nHost: "
            ++ (target.host_header
                ++ (codes "\r\nUser-Agent: "
                    ++ (user_agent ++ codes "\r\nConnection: close\r\n\r\n")))))

module _ {T : Type 0} (net : Net T) where
  unfoldable pub response : List ℕ → Option Response
  unfolding split_blank response_of
  response buf = split_blank (net.from_utf8_lossy buf) >>= response_of

  -- The loop that writes a request, for as many rounds.
  unfoldable pub write_loop : ℕ → ℕ → List ℕ → T → Bool × T
  write_loop zero deadline request t = (is_empty request, t)
  write_loop (suc rounds) deadline request t =
      let budget = deadline - net.now t in
      let (wrote, t') = net.write request budget t in
      let written : Bool × T = elim wrote [
        | none ↦ (false, t')
        | some n ↦ if n == 0 then (false, t') else write_loop rounds deadline (drop n request) t'
      ] in
      if is_empty request
      then (true, t)
      else if ltb (net.now t) deadline
      then written
      else (false, t)

  -- What a read error leads to.
  abbrev pub cut_off : ReadPolicy → List ℕ → Option (List ℕ)
  cut_off policy buf = if read_acceptable policy false (not (is_empty buf)) then some buf else none

  -- The loop that reads, for as many rounds.
  unfoldable pub read_loop : ℕ → ReadPolicy → ℕ → ℕ → List ℕ → T → Option (List ℕ) × T
  unfolding read_acceptable headers_complete
  read_loop zero policy deadline max_bytes buf t = (some buf, t)
  read_loop (suc rounds) policy deadline max_bytes buf t =
      let left = max_bytes - length buf in
      let limit = if ltb left 4096 then left else 4096 in
      let (chunk, t') = net.read limit (deadline - net.now t) t in
      let more : List ℕ → Option (List ℕ) × T = λ bytes.
        let rest = read_loop rounds policy deadline max_bytes (buf ++ bytes) t' in
        if is_partial policy && headers_complete (buf ++ bytes)
        then (some (buf ++ bytes), t')
        else rest in
      let read : Option (List ℕ) × T = elim chunk [
        | none ↦ (cut_off policy buf, t')
        | some bytes ↦ if is_empty bytes then (some buf, t') else more bytes
      ] in
      if ltb (length buf) max_bytes
      then (if ltb (net.now t) deadline then read else (cut_off policy buf, t))
      else (some buf, t)

  -- `target_address`
  unfoldable pub target_address : List ℕ → Option (Target × Ipv4Addr)
  target_address url = do target ← parse_url url; addr ← parse_ipv4 target.host; some (target, addr)

  -- The part of `get` that opens the connection and writes the request.
  unfoldable pub open_request : Request → ℕ → Target × Ipv4Addr → T → Bool × T
  unfolding write_loop request_bytes
  open_request req deadline (target, addr) t =
      let (bound, t1) = net.bind req.bind_ip t in
      let (connected, t2) = net.connect addr target.port (deadline - net.now t1) t1 in
      let bytes = request_bytes target req.user_agent in
      let sent = write_loop (length bytes) deadline bytes t2 in
      if bound
      then if ltb (net.now t1) deadline
        then (if connected then sent else (false, t2))
        else (false, t1)
      else (false, t1)

  unfoldable pub get : Request → T → Option Response × T
  unfolding open_request read_loop response target_address
  get req t =
      let deadline = net.now t + req.timeout in
      elim (target_address req.url) [
        | none ↦ (none, t)
        | some target ↦
            let (sent, t1) = open_request req deadline target t in
            let (buf, t2) = read_loop req.max_bytes req.read_policy deadline req.max_bytes [] t1 in
            if sent then (buf >>= response, t2) else (none, t1)
      ]
