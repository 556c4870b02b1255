-- ===== src/Wireless/Portal.antt =====
-- src/wireless/portal.rs: the reading of eportal replies and the login flow.
pub mod Login
use gdut_net.Base.{
  ℕ, ◌^◌, String, Bool, false, Option, none, some, List, [], ◌∷◌, ◌&&◌, ◌==◌, str_eq, if◌then◌else◌,
  unwrap_or,
}
use gdut_net.Ipv4.{codes, is_space, ◌>>=◌}
use gdut_net.Http.{rsplit_at, parse_uint}
use gdut_net.Backoff.{from_secs}

-- LOGIN_TIMEOUT
abbrev pub login_timeout : ℕ
login_timeout = from_secs 32

-- What the code uses of serde_json: the values, parsed from code points.
pub record Json : Type 1 where
  pub Value : Type 0
  pub from_str : List ℕ → Option Value
  pub get : Value → String → Option Value
  pub as_str : Value → Option String
  pub as_u64 : Value → Option ℕ
  pub to_string : Value → String

pub data PortalResult : Type 0 where
  success already_online : PortalResult
  failure : String → PortalResult
  malformed : PortalResult

-- What follows the first occurrence of a separator.
pub after_first : ℕ → List ℕ → Option (List ℕ)
after_first sep [] = none
after_first sep (c ∷ cs) = if c == sep then some cs else after_first sep cs

pub trim_start : List ℕ → List ℕ
trim_start [] = []
trim_start (c ∷ cs) = if is_space c then trim_start cs else c ∷ cs

pub trim_end : List ℕ → List ℕ
trim_end [] = []
trim_end (c ∷ cs) = elim (trim_end cs) [
  | [] ↦ if is_space c then [] else c ∷ []
  | d ∷ ds ↦ c ∷ d ∷ ds
]

-- The text between the first `(` and the last `)` where they stand in this order, else all of it,
-- trimmed.
unfoldable pub extract_json : List ℕ → List ℕ
unfolding after_first rsplit_at trim_start trim_end
extract_json body = elim (after_first b'(' body) [
  | none ↦ trim_end (trim_start body)
  | some inner ↦ elim (rsplit_at b')' inner) [
    | none ↦ trim_end (trim_start body)
    | some (text, rest) ↦ text
  ]
]

module _ (J : Json) where
  open J use {Value, from_str, get, as_str, as_u64, to_string}

  -- `r.as_u64().or_else(|| r.as_str()?.parse().ok())`, of the field ret_code.
  pub ret_code : Value → Option ℕ
  ret_code v = do
    r ← get v "ret_code"
    elim (as_u64 r) [
      | some n ↦ some n
      | none ↦ elim (as_str r) [ none ↦ none | some s ↦ parse_uint (2 ^ 64) (codes s) ]
    ]

  pub is_two : Option ℕ → Bool
  is_two none = false
  is_two (some n) = n == 2

  -- The verdict on the text of the field result.
  pub judge : Value → String → PortalResult
  unfolding ret_code is_two
  judge v r =
      if str_eq r "1"
      then success
      else if str_eq r "0" && is_two (ret_code v)
      then already_online
      else failure (unwrap_or "no msg" (get v "msg" >>= as_str))

  pub judge_result : Value → Option Value → PortalResult
  unfolding judge
  judge_result v none = malformed
  judge_result v (some r) = judge v (unwrap_or (to_string r) (as_str r))

  unfoldable pub parse_portal_reply : List ℕ → PortalResult
  unfolding judge_result
  parse_portal_reply body = elim (from_str (extract_json body)) [
    | none ↦ malformed
    | some v ↦ judge_result v (get v "result")
  ]
