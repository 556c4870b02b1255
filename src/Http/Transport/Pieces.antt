-- ===== src/Http/Transport/Pieces.antt =====
-- A reply that arrives in pieces, as `get_async` reads it.
use gdut_net.Base.{
  ℕ, zero, suc, ◌+◌, ◌-◌, ◌≤◌, ◌<◌, ◌≡◌, ◌≢◌, refl, sym, ap, ◌∙◌, inl, inr, true, false, none, some,
  List, [], ◌∷◌, ◌++◌, append_assoc, length, length-append, leb, ltb, arith, Bool-cases,
  if◌then◌else◌,
}
use gdut_net.Http.{Target}
use gdut_net.Ipv4.{Ipv4Addr}
use gdut_net.Http.Transport.{
  Net, Request, accept_partial, blank_line, starts_with, headers_complete, response, target_address,
}
use gdut_net.Http.Transport.Chunks.{
  IsLossy, IsWhole, head_of-response, is_empty_lem, length-positive,
}
use gdut_net.Http.Transport.Headers.{head_of, none_complete}
use gdut_net.Http.Transport.Tokio.{Sockets, read_all, open_stream, exchange, get_async}

starts_with-longer :
    (p head buf bytes more : List ℕ)
    → starts_with p head ≡ true
    → length head ≤ length buf
    → buf ++ bytes ≡ head ++ more
    → starts_with p buf ≡ true
unfolding starts_with
starts_with-longer [] head buf bytes more h size e = refl
starts_with-longer (q ∷ p) [] buf bytes more h size e = absurd (ground (arith, h))
starts_with-longer (q ∷ p) (c ∷ head) [] bytes more h size e = absurd (omega (arith, size))
starts_with-longer (q ∷ p) (c ∷ head) (d ∷ buf) bytes more h size e =
    ground (arith, h, e, starts_with-longer p head buf bytes more)

-- Where the headers are whole in a part of a reply, they are whole in a longer part.
headers_complete-longer :
    (head buf bytes more : List ℕ)
    → headers_complete head ≡ true
    → length head ≤ length buf
    → buf ++ bytes ≡ head ++ more
    → headers_complete buf ≡ true
unfolding headers_complete
headers_complete-longer [] buf bytes more h size e = absurd (ground (arith, h))
headers_complete-longer (c ∷ head) [] bytes more h size e = absurd (omega (arith, size))
headers_complete-longer (c ∷ head) (d ∷ buf) bytes more h size e =
    elim (Bool-cases (starts_with blank_line (c ∷ head))) [
      | inl here ↦
          ground (arith, starts_with-longer blank_line (c ∷ head) (d ∷ buf) bytes more here size e)
      | inr later ↦ ground (arith, h, later, e, headers_complete-longer head buf bytes more)
    ]

-- Bytes without whole headers are fewer than those that have them.
short_lem :
    (buf bytes head more : List ℕ)
    → buf ++ bytes ≡ head ++ more
    → headers_complete head ≡ true
    → headers_complete buf ≡ false
    → length buf < length head
short_lem buf bytes head more e whole begun = elim (Bool-cases (leb (length head) (length buf))) [
  | inl longer ↦
      let h = headers_complete-longer head buf bytes more whole (ground (arith, longer)) e in
      absurd (ground (arith, begun, h))
  | inr shorter ↦ ground (arith, shorter)
]

module _ {T : Type 0} (net : Net T) (sockets : Sockets T) where
  -- What is asked of a connection with a reply to come, of which so many bytes at least come without an
  -- error: as long as some of these are left, each read of some bytes gives at least one of the next.
  pub record IsSource (supplies : ℕ → List ℕ → T → Type 0) : Type 0 where
    pub reading :
        (limit sure : ℕ) (bytes : List ℕ) (t : T)
        → supplies sure bytes t
        → 0 < sure
        → 0 < limit
        → (chunk : List ℕ) × (rest : List ℕ) × ((sockets.read limit t).0 ≡ some chunk)
          × (chunk ≢ [])
          × (length chunk ≤ limit)
          × (bytes ≡ chunk ++ rest)
          × supplies (sure - length chunk) rest (sockets.read limit t).1

  module _ (supplies : ℕ → List ℕ → T → Type 0) (source : IsSource supplies) where
    read_all-IsWhole :
        (rounds max_bytes sure : ℕ) (buf bytes head more : List ℕ) (t : T)
        → supplies sure bytes t
        → buf ++ bytes ≡ head ++ more
        → headers_complete head ≡ true
        → headers_complete buf ≡ false
        → length head ≤ length buf + sure
        → length head ≤ max_bytes
        → max_bytes ≤ length buf + rounds
        → IsWhole net (head ++ more) (read_all net sockets rounds accept_partial max_bytes buf t).0
    unfolding read_all
    read_all-IsWhole zero max_bytes sure buf bytes head more t has e whole begun sured fits enough =
        absurd (omega (arith, short_lem buf bytes head more e whole begun, fits, enough))
    read_all-IsWhole (suc rounds) max_bytes sure buf bytes head more t has e whole begun sured fits
          enough =
        let short = short_lem buf bytes head more e whole begun in
        let room : length buf < max_bytes = omega (arith, short, fits) in
        let left = max_bytes - length buf in
        let limit = if ltb left 4096 then left else 4096 in
        let (chunk, rest, is_chunk, some_chunk, small, e', has') =
          source.reading limit sure bytes t has (omega (arith, short, sured))
            (ground (arith, room)) in
        let t' = (sockets.read limit t).1 in
        let joined : (buf ++ chunk) ++ rest ≡ head ++ more =
          append_assoc buf chunk rest ∙ ap (λ l. buf ++ l) (sym e') ∙ e in
        elim (Bool-cases (headers_complete (buf ++ chunk))) [
          | inl done ↦ (
            buf ++ chunk,
            rest,
            ground (arith, room, is_chunk, is_empty_lem net chunk some_chunk, done),
            done,
            sym joined,
          )
          | inr partly ↦
              let (b, r, is_b, full, same) =
                read_all-IsWhole rounds max_bytes (sure - length chunk) (buf ++ chunk) rest head
                  more t' has' joined whole partly (omega (arith, sured, length-append buf chunk))
                  fits
                  (omega (
                    arith,
                    enough,
                    length-positive net chunk some_chunk,
                    length-append buf chunk,
                  )) in
              (
                b,
                r,
                ground (arith, room, is_chunk, is_empty_lem net chunk some_chunk, partly, is_b),
                full,
                same,
              )
        ]

    -- The answer of a probe does not hang on the pieces that a reply arrives in, nor on what comes after
    -- its headers: where the part of the reply up to the end of its headers fits the limit of bytes and
    -- comes without an error, the status and the Location are those of the whole reply, however long
    -- its body is, and whether or not that ever arrives. This is where the URL is one of an IPv4
    -- address, the request is sent, the exchange ends before the timer, and an ASCII byte of the reply
    -- is a character of its own.
    pub get_async_in_pieces :
        (req : Request) (target : Target × Ipv4Addr) (head more : List ℕ) (t : T)
        → IsLossy net
        → req.read_policy ≡ accept_partial
        → sockets.expires (net.now t + req.timeout) t ≡ none
        → target_address net req.url ≡ some target
        → (open_stream net sockets req target t).0 ≡ true
        → supplies (length head) (head ++ more) (open_stream net sockets req target t).1
        → headers_complete head ≡ true
        → length head ≤ req.max_bytes
        → head_of (get_async net sockets req t).0 ≡ head_of (response net (head ++ more))
    unfolding get_async exchange
    get_async_in_pieces req target head more t lossy partial timely found sent has whole fits =
        let t1 = (open_stream net sockets req target t).1 in
        let (b, rest, is_b, full, same) =
          read_all-IsWhole req.max_bytes req.max_bytes (length head) [] (head ++ more) head more t1
            has refl whole none_complete (omega arith) fits (omega arith) in
        let read : (read_all net sockets req.max_bytes req.read_policy req.max_bytes [] t1).0
            ≡ some b =
          ap (λ p. (read_all net sockets req.max_bytes p req.max_bytes [] t1).0) partial ∙ is_b in
        let answer : (get_async net sockets req t).0 ≡ response net b =
          ground (arith, timely, found, sent, read) in
        ap head_of answer
        ∙ head_of-response net b rest lossy full
        ∙ ap (λ w. head_of (response net w)) (sym same)
