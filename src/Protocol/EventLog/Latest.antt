-- ===== src/Protocol/EventLog/Latest.antt =====
-- The event ring against the whole history of pushes.
use gdut_net.Base.{
  ℕ, zero, suc, ◌-◌, String, ◌≡◌, refl, ap, ◌∙◌, true, false, List, [], ◌∷◌, ◌++◌, append-nil,
  append_assoc, arith, leb, length, drop, length-append, length-drop, drop-append, Bool-cases, inl,
  inr,
}
use gdut_net.Protocol.EventLog.{EventLog, new, event_line, pop_front, push}

abbrev pub Entry : Type 0
Entry = ℕ × String

-- The lines of a sequence of pushes, oldest first.
abbrev pub lines : List Entry → List String
lines [] = []
lines ((at, msg) ∷ es) = event_line at msg ∷ lines es

abbrev pub push_all : EventLog → List Entry → EventLog
push_all log [] = log
push_all log ((at, msg) ∷ es) = push_all (push log at msg) es

-- The latest twenty of a history.
abbrev pub latest : List String → List String
latest history = drop (length history - 20) history

pop_front-drop : (k : ℕ) (xs : List String) → pop_front (drop k xs) ≡ drop (suc k) xs
unfolding pop_front
pop_front-drop zero [] = refl
pop_front-drop zero (x ∷ xs) = refl
pop_front-drop (suc k) [] = refl
pop_front-drop (suc k) (x ∷ xs) = pop_front-drop k xs

push-latest :
    (history : List String) (at : ℕ) (msg : String)
    → push (record { cap = 20; ring = latest history }) at msg
      ≡ record { cap = 20; ring = latest (history ++ event_line at msg ∷ []) }
unfolding push
push-latest history at msg = elim (Bool-cases (leb 20 (length history))) [
  | inl full ↦ ground (
    arith,
    length-drop (length history - 20) history,
    length-append history (event_line at msg ∷ []),
    pop_front-drop (length history - 20) history,
    drop-append (suc (length history - 20)) history (event_line at msg ∷ []),
    more full,
  )
  | inr roomy ↦ ground (
    arith,
    length-drop (length history - 20) history,
    length-append history (event_line at msg ∷ []),
    few roomy,
  )
]
  where
    more :
        leb 20 (length history) ≡ true
        → length (history ++ event_line at msg ∷ []) - 20 ≡ suc (length history - 20)
    more full = ground (arith, length-append history (event_line at msg ∷ []))

    few : leb 20 (length history) ≡ false → latest history ≡ history
    few roomy = ap (λ k. drop k history) (let e : length history - 20 ≡ 0 = ground arith in e)

push_all-latest_from :
    (history : List String) (es : List Entry)
    → push_all (record { cap = 20; ring = latest history }) es
      ≡ record { cap = 20; ring = latest (history ++ lines es) }
push_all-latest_from history [] = rw append-nil
push_all-latest_from history ((at, msg) ∷ es) =
    rw (push-latest history at msg)
      (push_all-latest_from (history ++ event_line at msg ∷ []) es ∙ rw append_assoc)

-- After any pushes on a new log the ring holds the lines of the latest twenty of them, oldest
-- first, and nothing else.
pub push_all-latest : (es : List Entry) → (push_all new es).ring ≡ latest (lines es)
unfolding new
push_all-latest es = ap (λ (l : EventLog). l.ring) (push_all-latest_from [] es)
