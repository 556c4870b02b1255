-- ===== src/Ipv4.antt =====
-- Ipv4Addr of the standard library, as the source uses it: parsing and printing in dotted form.
-- Text that is parsed is a list of code points.
use Prim.Native.Char.{code}
use gdut_net.Base.{
  ℕ, ◌+◌, ◌-◌, ◌*◌, String, Bool, false, not, Option, none, some, List, [], ◌∷◌, ◌&&◌, ◌||◌, ltb,
  leb, ◌==◌, if◌then◌else◌, length, ◌<+>◌, decimal,
}

-- The code points of a text.
abbrev pub codes : String → List ℕ
codes String.[] = []
codes (String.◌∷◌ c s) = code c ∷ codes s

-- char::is_whitespace, of a code point
abbrev pub is_space : ℕ → Bool
is_space c =
    (leb 9 c && leb c 13)
    || c == 32
    || c == 0x85
    || c == 0xa0
    || c == 0x1680
    || (leb 0x2000 c && leb c 0x200a)
    || c == 0x2028
    || c == 0x2029
    || c == 0x202f
    || c == 0x205f
    || c == 0x3000

pub record Ipv4Addr : Type 0 where
  pub a : ℕ
  pub b : ℕ
  pub c : ℕ
  pub d : ℕ

-- Ipv4Addr::to_string
unfoldable pub ipv4_text : Ipv4Addr → String
ipv4_text ip =
    decimal ip.a <+> "." <+> decimal ip.b <+> "." <+> decimal ip.c <+> "." <+> decimal ip.d

unfoldable pub is_digit : ℕ → Bool
is_digit c = leb b'0' c && leb c b'9'

-- The longest run of digits at the front, and what follows.
pub span_digits : List ℕ → List ℕ × List ℕ
unfolding is_digit
span_digits [] = ([], [])
span_digits (c ∷ cs) =
    let (ds, rest) = span_digits cs in if is_digit c then (c ∷ ds, rest) else ([], c ∷ cs)

abbrev pub number_from : ℕ → List ℕ → ℕ
number_from n [] = n
number_from n (c ∷ cs) = number_from (n * 10 + (c - b'0')) cs

-- A number of several digits that begins with zero.
abbrev pub zero_prefixed : List ℕ → Bool
zero_prefixed (c ∷ d ∷ ds) = c == b'0'
zero_prefixed _ = false

-- An octet: one to three digits, no leading zero, at most 255.
pub read_octet : List ℕ → Option (ℕ × List ℕ)
unfolding span_digits
read_octet cs =
    let (ds, rest) = span_digits cs in
    let n = number_from 0 ds in
    if ltb 0 (length ds) && leb (length ds) 3 && not (zero_prefixed ds) && ltb n 256
    then some (n, rest)
    else none

abbrev pub read_dot : List ℕ → Option (List ℕ)
read_dot [] = none
read_dot (c ∷ cs) = if c == b'.' then some cs else none

infixl 5 ◌>>=◌
abbrev pub ◌>>=◌ {ℓ κ} : {A : Type ℓ} {B : Type κ} → Option A → (A → Option B) → Option B
none >>= f = none
some a >>= f = f a

-- An address, and nothing after it.
abbrev pub at_end : Ipv4Addr → List ℕ → Option Ipv4Addr
at_end ip [] = some ip
at_end ip (c ∷ cs) = none

-- `s.parse::<Ipv4Addr>()`
unfoldable pub parse_ipv4 : List ℕ → Option Ipv4Addr
unfolding read_octet
parse_ipv4 s = do
  (a, s1) ← read_octet s
  s2 ← read_dot s1
  (b, s3) ← read_octet s2
  s4 ← read_dot s3
  (c, s5) ← read_octet s4
  s6 ← read_dot s5
  (d, s7) ← read_octet s6
  at_end (record { a = a; b = b; c = c; d = d }) s7
