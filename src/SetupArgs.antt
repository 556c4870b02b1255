-- ===== src/SetupArgs.antt =====
-- src/setup_args.rs: the command line of the installer. An error is none.
pub mod Described
use gdut_net.Base.{
  ℕ, ◌+◌, String, Bool, true, false, not, Option, none, some, List, [], ◌∷◌, ◌&&◌, ltb, str_eq,
  if◌then◌else◌,
}

pub data Mode : Type 0 where
  gui repair uninstall start_service silent_install silent_uninstall : Mode

pub record SetupArgs : Type 0 where
  pub silent : Bool
  pub uninstall : Bool
  pub repair : Bool
  pub start_service : Bool
  pub keep_password : Bool
  pub purge : Bool

-- SetupArgs::default()
abbrev pub default : SetupArgs
default = record {
  silent = false;
  uninstall = false;
  repair = false;
  start_service = false;
  keep_password = false;
  purge = false;
}

-- The arms of the match on an argument.
pub data Flag : Type 0 where
  silent uninstall repair start_service keep_password purge : Flag

unfoldable pub flag_of : String → Option Flag
flag_of a =
    if str_eq a "--silent"
    then some Flag.silent
    else if str_eq a "--uninstall"
    then some Flag.uninstall
    else if str_eq a "--repair"
    then some Flag.repair
    else if str_eq a "--start-service"
    then some Flag.start_service
    else if str_eq a "--keep-password"
    then some Flag.keep_password
    else if str_eq a "--purge"
    then some Flag.purge
    else none

abbrev pub set_flag : Flag → SetupArgs → SetupArgs
set_flag Flag.silent out = record out { silent = true }
set_flag Flag.uninstall out = record out { uninstall = true }
set_flag Flag.repair out = record out { repair = true }
set_flag Flag.start_service out = record out { start_service = true }
set_flag Flag.keep_password out = record out { keep_password = true }
set_flag Flag.purge out = record out { purge = true }

-- The loop of `parse`.
unfoldable pub parse_from : SetupArgs → List String → Option SetupArgs
parse_from out [] = some out
parse_from out (a ∷ rest) = elim (flag_of a) [
  | none ↦ none
  | some f ↦ parse_from (set_flag f out) rest
]

abbrev pub count : Bool → ℕ
count true = 1
count false = 0

-- The last match of `mode`.
abbrev pub choose : Bool → Bool → Bool → Bool → Mode
choose true true _ _ = silent_uninstall
choose true false _ _ = silent_install
choose false true _ _ = Mode.uninstall
choose false false true _ = Mode.repair
choose false false false true = Mode.start_service
choose false false false false = gui

unfoldable pub mode : SetupArgs → Option Mode
mode a =
    if a.keep_password && not a.silent
    then none
    else if a.purge && not a.uninstall
    then none
    else if ltb 1 (count a.uninstall + count a.repair + count a.start_service)
    then none
    else if a.silent && a.start_service
    then none
    else some (choose a.silent a.uninstall a.repair a.start_service)

unfoldable pub parse : List String → Option SetupArgs
unfolding parse_from mode
parse args = elim (parse_from default args) [
  | none ↦ none
  | some out ↦ elim (mode out) [ none ↦ none | some _ ↦ some out ]
]
