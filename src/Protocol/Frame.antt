-- ===== src/Protocol/Frame.antt =====
-- FrameDecoder of src/ipc/protocol.rs: newline-terminated frames out of a byte stream that
-- arrives in arbitrary chunks. Bytes are numbers; `none` is `Err(FrameTooLarge)`.
pub mod Bytewise
pub mod Roundtrip
use gdut_net.Base.{
  ℕ, ◌-◌, Bool, true, false, Option, none, some, List, [], ◌∷◌, ◌++◌, length, ltb, ◌==◌,
  if◌then◌else◌,
}

abbrev pub newline : ℕ
newline = b'\n'

-- MAX_FRAME_BYTES
abbrev pub max_frame_bytes : ℕ
max_frame_bytes = 65536

pub record FrameDecoder : Type 0 where
  pub buf : List ℕ
  pub rejected : Bool

-- FrameDecoder::default()
abbrev pub fresh : FrameDecoder
fresh = record { buf = []; rejected = false }

-- One byte more at the front of the first part.
abbrev pub cons_first : ℕ → List (List ℕ) → List (List ℕ)
cons_first b [] = (b ∷ []) ∷ []
cons_first b (p ∷ ps) = (b ∷ p) ∷ ps

-- `split_inclusive(|&byte| byte == b'\n')` of a slice: every part but the last ends in a newline.
pub split_inclusive : List ℕ → List (List ℕ)
split_inclusive [] = []
split_inclusive (b ∷ bs) =
    let rest = split_inclusive bs in if b == newline then (b ∷ []) ∷ rest else cons_first b rest

-- `part.last() == Some(&b'\n')`
abbrev pub ends_in_newline : List ℕ → Bool
ends_in_newline [] = false
ends_in_newline (b ∷ []) = b == newline
ends_in_newline (b ∷ c ∷ bs) = ends_in_newline (c ∷ bs)

-- The loop of `feed` over the parts, with the frames found so far.
pub feed_parts :
    FrameDecoder → List (List ℕ) → List (List ℕ) → FrameDecoder × Option (List (List ℕ))
feed_parts d frames [] = (d, some frames)
feed_parts d frames (part ∷ parts) =
    let buf = d.buf ++ part in
    let taken = feed_parts (record d { buf = [] }) (frames ++ buf ∷ []) parts in
    let kept = feed_parts (record d { buf = buf }) frames parts in
    if ltb (max_frame_bytes - length d.buf) (length part)
    then (record { buf = []; rejected = true }, none)
    else if ends_in_newline part
    then taken
    else kept

unfoldable pub feed : FrameDecoder → List ℕ → FrameDecoder × Option (List (List ℕ))
unfolding feed_parts split_inclusive
feed d chunk = if d.rejected then (d, none) else feed_parts d [] (split_inclusive chunk)

-- encode_frame, of a message that is serialized already.
unfoldable pub encode_frame : List ℕ → List ℕ
encode_frame json = json ++ newline ∷ []
