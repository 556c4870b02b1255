-- ===== src/Http.antt =====
-- parse_url of src/http.rs, and parse_http_probe_target of src/probe.rs.
pub mod Transport
use gdut_net.Base.{
  ℕ, ◌+◌, ◌-◌, ◌*◌, Bool, true, false, Option, none, some, List, [], ◌∷◌, ◌&&◌, ◌||◌, ltb, leb,
  ◌==◌, if◌then◌else◌,
}
use gdut_net.Ipv4.{Ipv4Addr, codes, is_digit, parse_ipv4, ◌>>=◌}

pub record Target : Type 0 where
  pub host : List ℕ
  pub port : ℕ
  pub path : List ℕ
  pub host_header : List ℕ

-- `strip_prefix`
abbrev pub strip_prefix : List ℕ → List ℕ → Option (List ℕ)
strip_prefix [] s = some s
strip_prefix (p ∷ ps) [] = none
strip_prefix (p ∷ ps) (c ∷ cs) = if p == c then strip_prefix ps cs else none

-- The part before the first `/`, and the path from it on, `/` where there is none.
pub split_path : List ℕ → List ℕ × List ℕ
split_path [] = ([], b'/' ∷ [])
split_path (c ∷ cs) =
    let (front, path) = split_path cs in if c == b'/' then ([], c ∷ cs) else (c ∷ front, path)

-- Split at the last occurrence of a separator: `rsplit_once`.
unfoldable pub rsplit_at : ℕ → List ℕ → Option (List ℕ × List ℕ)
rsplit_at sep [] = none
rsplit_at sep (c ∷ cs) = elim (rsplit_at sep cs) [
  | none ↦ if c == sep then some ([], cs) else none
  | some (h, p) ↦ some (c ∷ h, p)
]

-- `split_once(':')`
unfoldable pub split_once : List ℕ → Option (List ℕ × List ℕ)
split_once [] = none
split_once (c ∷ cs) =
    let rest : Option (List ℕ × List ℕ) = elim (split_once cs) [
      | none ↦ none
      | some (before, after) ↦ some (c ∷ before, after)
    ] in
    if c == b':' then some ([], cs) else rest

-- `to_ascii_lowercase` of a character
abbrev pub lower : ℕ → ℕ
lower c = if leb b'A' c && leb c b'Z' then c + 32 else c

-- Decimal digits of a number below a bound; `none` where one is no digit or the bound is met.
pub digits_below : ℕ → ℕ → List ℕ → Option ℕ
unfolding is_digit
digits_below bound n [] = some n
digits_below bound n (c ∷ cs) =
    let m = n * 10 + (c - b'0') in
    let rest = digits_below bound m cs in if is_digit c && ltb m bound then rest else none

-- `parse` at an unsigned type: a sign `+` is allowed, no digits are not.
unfoldable pub parse_uint : ℕ → List ℕ → Option ℕ
unfolding digits_below
parse_uint bound [] = none
parse_uint bound (c ∷ []) = digits_below bound 0 (c ∷ [])
parse_uint bound (c ∷ d ∷ cs) =
    if c == b'+' then digits_below bound 0 (d ∷ cs) else digits_below bound 0 (c ∷ d ∷ cs)

abbrev pub is_empty : List ℕ → Bool
is_empty [] = true
is_empty (c ∷ cs) = false

-- Host and port of `host[:port]`; the port is 80 where none is written.
pub host_port : List ℕ → Option (List ℕ × ℕ)
unfolding rsplit_at parse_uint
host_port hostport = elim (rsplit_at b':' hostport) [
  | none ↦ some (hostport, 80)
  | some (h, p) ↦ elim (parse_uint 65536 p) [ none ↦ none | some n ↦ some (h, n) ]
]

unfoldable pub parse_url : List ℕ → Option Target
unfolding split_path host_port
parse_url url = do
  rest ← strip_prefix (codes "http://") url
  let hostport = (split_path rest).0
  (host, port) ← host_port hostport
  if is_empty hostport || is_empty host
      then none
      else some
          (record { host = host; port = port; path = (split_path rest).1; host_header = hostport })

-- `parse_http_probe_target`, its address.
unfoldable pub probe_target_ip : List ℕ → Option Ipv4Addr
unfolding parse_url
probe_target_ip url = do t ← parse_url url; parse_ipv4 t.host
