-- ===== src/Http/Transport/Chunks.antt =====
-- A reply that arrives in pieces, as `get` reads it.
use gdut_net.Base.{
  ℕ, zero, suc, ◌+◌, ◌-◌, ◌≤◌, ◌<◌, ◌≡◌, ◌≢◌, refl, sym, ap, subst, ◌∙◌, inl, inr, true, false,
  Option, some, List, [], ◌∷◌, ◌++◌, append_assoc, append-nil, length, length-append, ltb, arith,
  Bool-cases, if◌then◌else◌,
}
use gdut_net.Http.{is_empty, Target}
use gdut_net.Ipv4.{Ipv4Addr}
use gdut_net.Http.Transport.{
  Net, Request, accept_partial, blank_line, split_blank, headers_complete, response, read_loop,
  open_request, target_address, get,
}
use gdut_net.Http.Transport.Headers.{
  head_of, headers_of, head_from, headers_complete-split, split_blank-headers, head_of-headers_of,
  none_complete,
}

module _ {T : Type 0} (net : Net T) where
  -- What is asked of the reading of UTF-8: an ASCII byte is a character of its own.
  pub record IsLossy : Type 0 where
    pub nothing : net.from_utf8_lossy [] ≡ []
    pub ascii :
        (x y : List ℕ) (b : ℕ)
        → b < 128
        → net.from_utf8_lossy (x ++ b ∷ y) ≡ net.from_utf8_lossy x ++ b ∷ net.from_utf8_lossy y

  -- What is asked of a connection that has these bytes to come, in time: each read of some bytes gives
  -- at least one of the next.
  pub record IsSupply (deadline : ℕ) (supplies : T → List ℕ → Type 0) : Type 0 where
    pub in_time : (t : T) (bytes : List ℕ) → supplies t bytes → bytes ≢ [] → net.now t < deadline
    pub reading :
        (limit budget : ℕ) (t : T) (bytes : List ℕ)
        → supplies t bytes
        → bytes ≢ []
        → 0 < limit
        → (chunk : List ℕ) × (rest : List ℕ) × ((net.read limit budget t).0 ≡ some chunk)
          × (chunk ≢ [])
          × (length chunk ≤ limit)
          × (bytes ≡ chunk ++ rest)
          × supplies (net.read limit budget t).1 rest

  lossy-blank_line :
      (x y : List ℕ)
      → IsLossy
      → net.from_utf8_lossy (x ++ (blank_line ++ y))
        ≡ net.from_utf8_lossy x ++ (blank_line ++ net.from_utf8_lossy y)
  lossy-blank_line x y lossy =
      let read = net.from_utf8_lossy in
      let at : (b : ℕ) → b < 128 → (z : List ℕ) → read (b ∷ z) ≡ b ∷ read z =
        λ b small z. lossy.ascii [] z b small ∙ ap (λ l. l ++ b ∷ read z) lossy.nothing in
      let tail : read (10 ∷ 13 ∷ 10 ∷ y) ≡ 10 ∷ 13 ∷ 10 ∷ read y =
        at 10 (omega arith) (13 ∷ 10 ∷ y)
        ∙ ap (λ l. 10 ∷ l)
            (at 13 (omega arith) (10 ∷ y) ∙ ap (λ l. 13 ∷ l) (at 10 (omega arith) y)) in
      lossy.ascii x (10 ∷ 13 ∷ 10 ∷ y) 13 (omega arith) ∙ ap (λ l. read x ++ 13 ∷ l) tail

  -- The head of a response does not hang on what comes after its headers.
  pub head_of-response :
      (buf rest : List ℕ)
      → IsLossy
      → headers_complete buf ≡ true
      → head_of (response net buf) ≡ head_of (response net (buf ++ rest))
  unfolding response
  head_of-response buf rest lossy whole =
      let (x, y, e) = headers_complete-split buf whole in
      let read = net.from_utf8_lossy in
      let from : (z w : List ℕ)
          → w ≡ x ++ (blank_line ++ z)
          → head_of (response net w)
            ≡ head_from (headers_of (split_blank (read x ++ (blank_line ++ read z)))) =
        λ z w same.
          head_of-headers_of (split_blank (read w))
          ∙ ap (λ l. head_from (headers_of (split_blank l)))
              (ap read same ∙ lossy-blank_line x z lossy) in
      let longer : buf ++ rest ≡ x ++ (blank_line ++ (y ++ rest)) =
        ap (λ l. l ++ rest) e ∙ append_assoc x (blank_line ++ y) rest in
      from y buf e
      ∙ ap head_from (split_blank-headers (read x) (read y) (read (y ++ rest)))
      ∙ sym (from (y ++ rest) (buf ++ rest) longer)

  -- What the reading of a probe leaves: a part of what was to come, with all of the headers.
  abbrev pub IsWhole : List ℕ → Option (List ℕ) → Type 0
  IsWhole wire buf =
      (b : List ℕ) × (rest : List ℕ) × (buf ≡ some b)
      × (headers_complete b ≡ true)
      × (wire ≡ b ++ rest)

  pub is_empty_lem : (bytes : List ℕ) → bytes ≢ [] → is_empty bytes ≡ false
  is_empty_lem [] h = absurd (h refl)
  is_empty_lem (b ∷ bs) h = refl

  pub length-positive : (bytes : List ℕ) → bytes ≢ [] → 0 < length bytes
  length-positive [] h = absurd (h refl)
  length-positive (b ∷ bs) h = omega arith

  some_left_lem :
      (buf bytes : List ℕ)
      → headers_complete (buf ++ bytes) ≡ true
      → headers_complete buf ≡ false
      → bytes ≢ []
  some_left_lem buf bytes whole begun e =
      let same : buf ++ bytes ≡ buf = ap (λ l. buf ++ l) e ∙ append-nil buf in
      ground (arith, whole, begun, ap headers_complete same)

  read_loop-IsWhole :
      (rounds deadline max_bytes : ℕ) (buf bytes : List ℕ) (t : T) (supplies : T → List ℕ → Type 0)
      → IsSupply deadline supplies
      → supplies t bytes
      → headers_complete (buf ++ bytes) ≡ true
      → headers_complete buf ≡ false
      → length (buf ++ bytes) ≤ max_bytes
      → max_bytes ≤ length buf + rounds
      → IsWhole (buf ++ bytes) (read_loop net rounds accept_partial deadline max_bytes buf t).0
  unfolding read_loop
  read_loop-IsWhole zero deadline max_bytes buf bytes t supplies supply has whole begun fits
        enough =
      absurd (
        omega (
          arith,
          length-positive bytes (some_left_lem buf bytes whole begun),
          length-append buf bytes,
        ))
  read_loop-IsWhole (suc rounds) deadline max_bytes buf bytes t supplies supply has whole begun fits
        enough =
      let some_left : bytes ≢ [] = some_left_lem buf bytes whole begun in
      let size = length-positive bytes some_left in
      let room : length buf < max_bytes = omega (arith, fits, size, length-append buf bytes) in
      let left = max_bytes - length buf in
      let limit = if ltb left 4096 then left else 4096 in
      let budget = deadline - net.now t in
      let (chunk, rest, is_chunk, some_chunk, small, e, has') =
        supply.reading limit budget t bytes has some_left (ground (arith, room)) in
      let timely = supply.in_time t bytes has some_left in
      let t' = (net.read limit budget t).1 in
      let joined : buf ++ bytes ≡ (buf ++ chunk) ++ rest =
        ap (λ l. buf ++ l) e ∙ sym (append_assoc buf chunk rest) in
      elim (Bool-cases (headers_complete (buf ++ chunk))) [
        | inl done ↦ (
          buf ++ chunk,
          rest,
          ground (arith, room, timely, is_chunk, is_empty_lem chunk some_chunk, done),
          done,
          joined,
        )
        | inr more ↦
            let (b, r, is_b, full, same) =
              read_loop-IsWhole rounds deadline max_bytes (buf ++ chunk) rest t' supplies supply
                has' (subst (λ l. headers_complete l ≡ true) joined whole) more
                (subst (λ l. length l ≤ max_bytes) joined fits)
                (omega
                  (arith, enough, length-positive chunk some_chunk, length-append buf chunk)) in
            (
              b,
              r,
              ground (arith, room, timely, is_chunk, is_empty_lem chunk some_chunk, more, is_b),
              full,
              joined ∙ same,
            )
      ]

  -- The synchronous `get`: where a whole reply comes in time and within the limit of bytes, the status
  -- and the Location that are read are those of the whole reply, whatever pieces it arrives in.
  get_in_pieces :
      (req : Request) (target : Target × Ipv4Addr) (wire : List ℕ) (t : T)
      (supplies : T → List ℕ → Type 0)
      → IsLossy
      → IsSupply (net.now t + req.timeout) supplies
      → req.read_policy ≡ accept_partial
      → target_address net req.url ≡ some target
      → (open_request net req (net.now t + req.timeout) target t).0 ≡ true
      → supplies (open_request net req (net.now t + req.timeout) target t).1 wire
      → headers_complete wire ≡ true
      → length wire ≤ req.max_bytes
      → head_of (get net req t).0 ≡ head_of (response net wire)
  unfolding get
  get_in_pieces req target wire t supplies lossy supply partial found sent has whole fits =
      let deadline = net.now t + req.timeout in
      let t1 = (open_request net req deadline target t).1 in
      let (b, rest, is_b, full, same) =
        read_loop-IsWhole req.max_bytes deadline req.max_bytes [] wire t1 supplies supply has whole
          none_complete fits (omega arith) in
      let read : (read_loop net req.max_bytes req.read_policy deadline req.max_bytes [] t1).0
          ≡ some b =
        ap (λ p. (read_loop net req.max_bytes p deadline req.max_bytes [] t1).0) partial ∙ is_b in
      let answer : (get net req t).0 ≡ response net b = ground (arith, found, sent, read) in
      ap head_of answer
      ∙ head_of-response b rest lossy full
      ∙ ap (λ w. head_of (response net w)) (sym same)
