-- ===== src/Protocol/Frame/Bytewise.antt =====
-- The decoder against a description that takes one byte at a time.
use gdut_net.Base.{
  ℕ, ◌≤◌, ◌≡◌, ◌⊎◌, refl, ap, ◌∙◌, true, false, Option, none, some, List, [], ◌∷◌, ◌++◌,
  append_assoc, append-nil, length, length-append, leb, ◌==◌, if◌then◌else◌, arith, Bool-cases, inl,
  inr,
}
use gdut_net.Protocol.Frame.{
  FrameDecoder, newline, max_frame_bytes, cons_first, split_inclusive, feed_parts, feed,
}

-- What a decoder does with its input, byte by byte: a byte that finds the buffer full rejects the
-- stream, a newline completes the frame.
abbrev pub feed_bytes :
    FrameDecoder → List (List ℕ) → List ℕ → FrameDecoder × Option (List (List ℕ))
feed_bytes d frames [] = (d, some frames)
feed_bytes d frames (b ∷ bs) =
    let buf = d.buf ++ b ∷ [] in
    let taken = feed_bytes (record d { buf = [] }) (frames ++ buf ∷ []) bs in
    let kept = feed_bytes (record d { buf = buf }) frames bs in
    if leb max_frame_bytes (length d.buf)
    then (record { buf = []; rejected = true }, none)
    else if b == newline
    then taken
    else kept

-- The first byte of a part that goes on.
feed_parts_cons :
    (d : FrameDecoder) (frames : List (List ℕ)) (b c : ℕ) (p : List ℕ) (ps : List (List ℕ))
    → length d.buf ≤ max_frame_bytes
    → feed_parts d frames ((b ∷ c ∷ p) ∷ ps) ≡ (
        if leb max_frame_bytes (length d.buf)
        then (record { buf = []; rejected = true }, none)
        else feed_parts (record d { buf = d.buf ++ b ∷ [] }) frames ((c ∷ p) ∷ ps))
unfolding feed_parts
feed_parts_cons d frames b c p ps h =
    ground (arith, append_assoc d.buf (b ∷ []) (c ∷ p), length-append d.buf (b ∷ []))

split_first :
    (b : ℕ) (bs : List ℕ)
    → (p : List ℕ) × (ps : List (List ℕ)) × (split_inclusive (b ∷ bs) ≡ (b ∷ p) ∷ ps)
unfolding split_inclusive
split_first b bs = elim (Bool-cases (b == newline)) [
  | inl e ↦ ([], split_inclusive bs, rw e)
  | inr e ↦ rw e (first (split_inclusive bs))
]
  where
    first :
        (rest : List (List ℕ))
        → (p : List ℕ) × (ps : List (List ℕ)) × (cons_first b rest ≡ (b ∷ p) ∷ ps)
    first [] = ([], [], refl)
    first (p ∷ ps) = (p, ps, refl)

split_inclusive_cons :
    (b c : ℕ) (bs p : List ℕ) (ps : List (List ℕ))
    → (b == newline) ≡ false
    → split_inclusive (c ∷ bs) ≡ (c ∷ p) ∷ ps
    → split_inclusive (b ∷ c ∷ bs) ≡ (b ∷ c ∷ p) ∷ ps
unfolding split_inclusive
split_inclusive_cons b c bs p ps e h = rw e (ap (cons_first b) h)

split_inclusive-newline :
    (b : ℕ) (bs : List ℕ)
    → (b == newline) ≡ true
    → split_inclusive (b ∷ bs) ≡ (b ∷ []) ∷ split_inclusive bs
unfolding split_inclusive
split_inclusive-newline b bs e = rw e

feed_parts_one :
    (d : FrameDecoder) (frames : List (List ℕ)) (b : ℕ) (ps : List (List ℕ))
    → length d.buf ≤ max_frame_bytes
    → feed_parts d frames ((b ∷ []) ∷ ps) ≡ (
        if leb max_frame_bytes (length d.buf)
        then (record { buf = []; rejected = true }, none)
        else if b == newline
        then feed_parts (record d { buf = [] }) (frames ++ (d.buf ++ b ∷ []) ∷ []) ps
        else feed_parts (record d { buf = d.buf ++ b ∷ [] }) frames ps)
unfolding feed_parts
feed_parts_one d frames b ps h = ground arith

feed_parts_nil :
    (d : FrameDecoder) (frames : List (List ℕ)) → feed_parts d frames [] ≡ (d, some frames)
unfolding feed_parts
feed_parts_nil d frames = refl

split_inclusive_one : (b : ℕ) → split_inclusive (b ∷ []) ≡ (b ∷ []) ∷ []
unfolding split_inclusive
split_inclusive_one b = ground arith

feed_parts-eq-feed_bytes :
    (d : FrameDecoder) (frames : List (List ℕ)) (bs : List ℕ)
    → length d.buf ≤ max_frame_bytes
    → feed_parts d frames (split_inclusive bs) ≡ feed_bytes d frames bs
feed_parts-eq-feed_bytes d frames [] h = unfold feed_parts split_inclusive in refl
feed_parts-eq-feed_bytes d frames (b ∷ []) h = ground (
  arith,
  split_inclusive_one b,
  feed_parts_one d frames b [] h,
  feed_parts_nil (record d { buf = [] }) (frames ++ (d.buf ++ b ∷ []) ∷ []),
  feed_parts_nil (record d { buf = d.buf ++ b ∷ [] }) frames,
)
feed_parts-eq-feed_bytes d frames (b ∷ c ∷ bs) h = elim (Bool-cases (b == newline)) [
  | inl e ↦ ground (
    arith,
    split_inclusive-newline b (c ∷ bs) e,
    feed_parts_one d frames b (split_inclusive (c ∷ bs)) h,
    feed_parts-eq-feed_bytes (record d { buf = [] }) (frames ++ (d.buf ++ b ∷ []) ∷ []) (c ∷ bs)
        (omega arith),
  )
  | inr e ↦
      let (p, ps, split) = split_first c bs in
      ground (
        arith,
        split,
        split_inclusive_cons b c bs p ps e split,
        feed_parts_cons d frames b c p ps h,
        length-append d.buf (b ∷ []),
        feed_parts-eq-feed_bytes (record d { buf = d.buf ++ b ∷ [] }) frames (c ∷ bs),
      )
]

-- A decoder between two calls: the buffer is within the limit, and empty once the stream is rejected.
pub record IsValid (d : FrameDecoder) : Type 0 where
  pub within : length d.buf ≤ max_frame_bytes
  pub dropped : (d.rejected ≡ false) ⊎ (d.buf ≡ [])

-- A call of `feed`, in terms of bytes.
pub feed-eq-feed_bytes :
    (d : FrameDecoder) (chunk : List ℕ)
    → length d.buf ≤ max_frame_bytes
    → feed d chunk ≡ (if d.rejected then (d, none) else feed_bytes d [] chunk)
unfolding feed
feed-eq-feed_bytes d chunk h = ground (arith, feed_parts-eq-feed_bytes d [] chunk h)

feed_bytes-IsValid :
    (d : FrameDecoder) (frames : List (List ℕ)) (bs : List ℕ)
    → IsValid d
    → d.rejected ≡ false
    → IsValid (feed_bytes d frames bs).0
feed_bytes-IsValid d frames [] v r = v
feed_bytes-IsValid d frames (b ∷ bs) v r = ground (
  arith,
  length-append d.buf (b ∷ []),
  feed_bytes-IsValid (record d { buf = [] }) (frames ++ (d.buf ++ b ∷ []) ∷ []) bs,
  feed_bytes-IsValid (record d { buf = d.buf ++ b ∷ [] }) frames bs,
)

-- Every call, accepted or not, leaves a valid decoder.
pub feed-IsValid : (d : FrameDecoder) (chunk : List ℕ) → IsValid d → IsValid (feed d chunk).0
feed-IsValid d chunk v =
    ground (arith, feed-eq-feed_bytes d chunk v.within, feed_bytes-IsValid d [] chunk v)

-- Frames found earlier stand before those of a later call.
abbrev pub add_frames :
    List (List ℕ) → FrameDecoder × Option (List (List ℕ)) → FrameDecoder × Option (List (List ℕ))
add_frames fs (d, none) = (d, none)
add_frames fs (d, some gs) = (d, some (fs ++ gs))

-- What a second call adds to the outcome of a first.
abbrev pub then_feed :
    FrameDecoder × Option (List (List ℕ)) → List ℕ → FrameDecoder × Option (List (List ℕ))
then_feed (d, none) ys = (d, none)
then_feed (d, some frames) ys = add_frames frames (feed d ys)

abbrev then_bytes :
    FrameDecoder × Option (List (List ℕ)) → List ℕ → FrameDecoder × Option (List (List ℕ))
then_bytes (d, none) ys = (d, none)
then_bytes (d, some frames) ys = feed_bytes d frames ys

feed_bytes_frames :
    (d : FrameDecoder) (fs gs : List (List ℕ)) (bs : List ℕ)
    → feed_bytes d (fs ++ gs) bs ≡ add_frames fs (feed_bytes d gs bs)
feed_bytes_frames d fs gs [] = refl
feed_bytes_frames d fs gs (b ∷ bs) = ground (
  arith,
  append_assoc fs gs ((d.buf ++ b ∷ []) ∷ []),
  feed_bytes_frames (record d { buf = [] }) fs (gs ++ (d.buf ++ b ∷ []) ∷ []) bs,
  feed_bytes_frames (record d { buf = d.buf ++ b ∷ [] }) fs gs bs,
)

feed_bytes-append :
    (d : FrameDecoder) (fs : List (List ℕ)) (xs ys : List ℕ)
    → feed_bytes d fs (xs ++ ys) ≡ then_bytes (feed_bytes d fs xs) ys
feed_bytes-append d fs [] ys = refl
feed_bytes-append d fs (b ∷ xs) ys = ground (
  arith,
  feed_bytes-append (record d { buf = [] }) (fs ++ (d.buf ++ b ∷ []) ∷ []) xs ys,
  feed_bytes-append (record d { buf = d.buf ++ b ∷ [] }) fs xs ys,
)

-- A call that returns frames leaves the stream open.
feed_bytes_open :
    (d : FrameDecoder) (fs gs : List (List ℕ)) (bs : List ℕ)
    → (feed_bytes d fs bs).1 ≡ some gs
    → (feed_bytes d fs bs).0.rejected ≡ d.rejected
feed_bytes_open d fs gs [] h = refl
feed_bytes_open d fs gs (b ∷ bs) h = ground (
  arith,
  feed_bytes_open (record d { buf = [] }) (fs ++ (d.buf ++ b ∷ []) ∷ []) gs bs,
  feed_bytes_open (record d { buf = d.buf ++ b ∷ [] }) fs gs bs,
)

then_bytes-eq-then_feed :
    (r : FrameDecoder × Option (List (List ℕ))) (ys : List ℕ)
    → IsValid r.0
    → ((gs : List (List ℕ)) → r.1 ≡ some gs → r.0.rejected ≡ false)
    → then_bytes r ys ≡ then_feed r ys
then_bytes-eq-then_feed (d, none) ys v o = refl
then_bytes-eq-then_feed (d, some fs) ys v o = ground (
  arith,
  o fs refl,
  feed-eq-feed_bytes d ys v.within,
  append-nil fs,
  feed_bytes_frames d fs [] ys,
)

-- Where a valid decoder gets an input in two pieces, it ends in the state, and with the frames or
-- the error, that the input gives in one piece.
pub feed-append :
    (d : FrameDecoder) (xs ys : List ℕ) → IsValid d → feed d (xs ++ ys) ≡ then_feed (feed d xs) ys
feed-append d xs ys v = elim (Bool-cases d.rejected) [
  | inl r ↦
      ground (arith, feed-eq-feed_bytes d (xs ++ ys) v.within, feed-eq-feed_bytes d xs v.within)
  | inr r ↦ ground (
    arith,
    feed-eq-feed_bytes d (xs ++ ys) v.within,
    feed-eq-feed_bytes d xs v.within,
    feed_bytes-append d [] xs ys,
    then_bytes-eq-then_feed (feed_bytes d [] xs) ys (feed_bytes-IsValid d [] xs v r)
        (λ gs h. feed_bytes_open d [] gs xs h ∙ r),
  )
]
