-- ===== src/Base/Text.antt =====
-- The formatting of numbers by `format!`: `{}` and `{:02}`.
use Prim.Native.Nat.{ℕ, zero, suc, ◌/◌, ◌%◌}
use Prim.Native.String.{String, ◌++◌}
use mathlib.Core.Path.{sym, ◌∙◌}
use mathlib.Core.Logic.{inl, inr}
use mathlib.Core.Bool.{false≢true}
use text.Mathlib.Text.{◌==◌ as str_eq}
use text.Mathlib.TextEquality.{eq_iff}
use gdut_net.Base.Tests.{Bool-cases, ltb, ◌==◌, if◌then◌else◌}

-- Text concatenation.
infixr 65 ◌<+>◌
abbrev pub ◌<+>◌ : String → String → String
s <+> t = s ++ t

digit : ℕ → String
digit d =
    if d == 0
    then "0"
    else if d == 1
    then "1"
    else if d == 2
    then "2"
    else if d == 3
    then "3"
    else if d == 4
    then "4"
    else if d == 5
    then "5"
    else if d == 6
    then "6"
    else if d == 7
    then "7"
    else if d == 8
    then "8"
    else "9"

-- Decimal digits, the fuel counting them.
digits_fuel : ℕ → ℕ → String
digits_fuel zero n = ""
digits_fuel (suc fuel) n =
    let front = digits_fuel fuel (n / 10) in if ltb n 10 then digit n else front <+> digit (n % 10)

-- `{}` of an unsigned integer: a u64 has at most twenty digits.
unfoldable pub decimal : ℕ → String
unfolding digits_fuel digit
decimal n = digits_fuel 20 n

-- `{:02}`
unfoldable pub decimal2 : ℕ → String
unfolding decimal
decimal2 n = if ltb n 10 then "0" <+> decimal n else decimal n

pub String-discrete : Discrete String
String-discrete s t = elim (Bool-cases (str_eq s t)) [
  | inl same ↦ yes ((eq_iff s t).0 same)
  | inr differ ↦ no (λ e. false≢true (sym differ ∙ (eq_iff s t).1 e))
]
