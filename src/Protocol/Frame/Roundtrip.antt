-- ===== src/Protocol/Frame/Roundtrip.antt =====
-- Encoded frames come out of the decoder as they went in, however the stream is cut into chunks.
use gdut_net.Base.{
  ℕ, ◌+◌, ◌<◌, ◌≡◌, ◌≢◌, inl, refl, ap, ◌∙◌, false, Option, some, List, [], ◌∷◌, ◌++◌, append_assoc,
  append-nil, map, length, length-append, All, flatten, leb, arith,
}
use gdut_net.Protocol.Frame.{FrameDecoder, fresh, newline, max_frame_bytes, feed, encode_frame}
use gdut_net.Protocol.Frame.Bytewise.{
  feed_bytes, feed-eq-feed_bytes, IsValid, then_feed, feed-append,
}

pub fresh-IsValid : IsValid fresh
fresh-IsValid = record { within = omega arith; dropped = inl refl }

-- The reads of a connection after the first, one after the other; an error ends them.
abbrev pub feed_rest :
    FrameDecoder × Option (List (List ℕ)) → List (List ℕ) → FrameDecoder × Option (List (List ℕ))
feed_rest r [] = r
feed_rest r (chunk ∷ chunks) = feed_rest (then_feed r chunk) chunks

feed_rest-eq-feed :
    (d : FrameDecoder) (xs : List ℕ) (chunks : List (List ℕ))
    → IsValid d
    → feed_rest (feed d xs) chunks ≡ feed d (xs ++ flatten chunks)
feed_rest-eq-feed d xs [] v = rw append-nil
feed_rest-eq-feed d xs (c ∷ cs) v =
    rw (← feed-append d xs c v) (feed_rest-eq-feed d (xs ++ c) cs v ∙ rw append_assoc)

-- The bytes of a message that fits: no newline inside, and room for the one at its end.
abbrev pub Fits : List ℕ → Type 0
Fits json = All (λ b. b ≢ newline) json × (length json < max_frame_bytes)

feed_bytes-message :
    (pre json rest : List ℕ) (frames : List (List ℕ))
    → All (λ b. b ≢ newline) json
    → length pre + length json < max_frame_bytes
    → feed_bytes (record { buf = pre; rejected = false }) frames (json ++ newline ∷ rest)
      ≡ feed_bytes fresh (frames ++ (pre ++ (json ++ newline ∷ [])) ∷ []) rest
feed_bytes-message pre [] rest frames a h =
    let roomy : leb max_frame_bytes (length pre) ≡ false = ground arith in rw roomy
feed_bytes-message pre (b ∷ json) rest frames a h = ground (
  arith,
  append_assoc pre (b ∷ []) (json ++ newline ∷ []),
  length-append pre (b ∷ []),
  feed_bytes-message (pre ++ b ∷ []) json rest frames a.1,
)

feed_bytes-encode :
    (frames msgs : List (List ℕ))
    → All Fits msgs
    → feed_bytes fresh frames (flatten (map encode_frame msgs))
      ≡ (fresh, some (frames ++ map encode_frame msgs))
unfolding encode_frame
feed_bytes-encode frames [] a = rw append-nil
feed_bytes-encode frames (m ∷ msgs) a =
    rw (append_assoc m (newline ∷ []) (flatten (map encode_frame msgs))) (
      feed_bytes-message [] m (flatten (map encode_frame msgs)) frames a.0.0 (omega (arith, a.0.1))
      ∙ feed_bytes-encode (frames ++ encode_frame m ∷ []) msgs a.1
      ∙ rw append_assoc)

-- Where messages without a newline, each below the limit with its newline, are encoded and sent,
-- and the receiver reads the stream in any chunks, its decoder returns exactly the encoded
-- messages, in order, and is ready for the next frame.
pub feed-encode :
    (msgs : List (List ℕ)) (xs : List ℕ) (chunks : List (List ℕ))
    → All Fits msgs
    → xs ++ flatten chunks ≡ flatten (map encode_frame msgs)
    → feed_rest (feed fresh xs) chunks ≡ (fresh, some (map encode_frame msgs))
feed-encode msgs xs chunks a cut =
    feed_rest-eq-feed fresh xs chunks fresh-IsValid
    ∙ ap (feed fresh) cut
    ∙ feed-eq-feed_bytes fresh _ (omega arith)
    ∙ feed_bytes-encode [] msgs a
