-- ===== src/Tests/Protocol.antt =====
-- Byte streams on which the theorems of the frame decoder are applied.
use gdut_net.Base.{ℕ, ◌++◌, ◌≡◌, refl, some, List, [], ◌∷◌, arith, map}
use gdut_net.Protocol.Frame.{feed, fresh, encode_frame}
use gdut_net.Protocol.Frame.Bytewise.{then_feed, feed-append}
use gdut_net.Protocol.Frame.Roundtrip.{feed_rest, fresh-IsValid, feed-encode}

-- `{}` and a newline, cut after the first byte.
feed-append_example :
    feed fresh ((123 ∷ []) ++ (125 ∷ 10 ∷ [])) ≡ then_feed (feed fresh (123 ∷ [])) (125 ∷ 10 ∷ [])
feed-append_example = feed-append fresh (123 ∷ []) (125 ∷ 10 ∷ []) fresh-IsValid

-- Two messages, in two chunks that cut the first one.
abbrev messages : List (List ℕ)
messages = (123 ∷ 125 ∷ []) ∷ (91 ∷ []) ∷ []

feed-encode_example :
    feed_rest (feed fresh (123 ∷ [])) ((125 ∷ 10 ∷ 91 ∷ 10 ∷ []) ∷ [])
    ≡ (fresh, some (map encode_frame messages))
unfolding encode_frame
feed-encode_example =
    feed-encode messages (123 ∷ []) ((125 ∷ 10 ∷ 91 ∷ 10 ∷ []) ∷ [])
      (
        (((λ e. omega arith), ((λ e. omega arith), tt)), omega arith),
        (((((λ e. omega arith), tt), omega arith)), tt),
      )
      refl
