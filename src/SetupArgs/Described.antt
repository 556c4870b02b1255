-- ===== src/SetupArgs/Described.antt =====
-- What a command line of the installer means.
use gdut_net.Base.{
  Option-cases, inl, inr, ◌≡◌, String, Bool, true, false, Option, none, some, List, [], ◌∷◌, ◌&&◌,
  ◌||◌, any, arith, if◌then◌else◌, is_some,
}
use gdut_net.SetupArgs.{SetupArgs, Flag, default, flag_of, set_flag, parse_from, mode, parse}

-- Whether an argument is a flag.
abbrev is_flag : Flag → Option Flag → Bool
is_flag Flag.silent (some Flag.silent) = true
is_flag Flag.uninstall (some Flag.uninstall) = true
is_flag Flag.repair (some Flag.repair) = true
is_flag Flag.start_service (some Flag.start_service) = true
is_flag Flag.keep_password (some Flag.keep_password) = true
is_flag Flag.purge (some Flag.purge) = true
is_flag _ _ = false

-- Whether a flag stands anywhere on the command line.
abbrev pub given : Flag → List String → Bool
given f args = any (λ a. is_flag f (flag_of a)) args

-- Whether every argument is a flag.
abbrev pub is_known : List String → Bool
is_known [] = true
is_known (a ∷ rest) = is_some (flag_of a) && is_known rest

-- The arguments by the flags that stand on the command line, over those that are set already.
abbrev merged : SetupArgs → List String → SetupArgs
merged out args = record {
  silent = out.silent || given Flag.silent args;
  uninstall = out.uninstall || given Flag.uninstall args;
  repair = out.repair || given Flag.repair args;
  start_service = out.start_service || given Flag.start_service args;
  keep_password = out.keep_password || given Flag.keep_password args;
  purge = out.purge || given Flag.purge args;
}

-- The arguments by the flags that stand on the command line.
abbrev pub described : List String → SetupArgs
described args = record {
  silent = given Flag.silent args;
  uninstall = given Flag.uninstall args;
  repair = given Flag.repair args;
  start_service = given Flag.start_service args;
  keep_password = given Flag.keep_password args;
  purge = given Flag.purge args;
}

-- A flag that is set as it comes is a flag that stands first.
set_flag-merged :
    (out : SetupArgs) (f : Flag) (a : String) (rest : List String)
    → flag_of a ≡ some f
    → merged (set_flag f out) rest ≡ merged out (a ∷ rest)
set_flag-merged out Flag.silent a rest h = ground (arith, h)
set_flag-merged out Flag.uninstall a rest h = ground (arith, h)
set_flag-merged out Flag.repair a rest h = ground (arith, h)
set_flag-merged out Flag.start_service a rest h = ground (arith, h)
set_flag-merged out Flag.keep_password a rest h = ground (arith, h)
set_flag-merged out Flag.purge a rest h = ground (arith, h)

parse_from-merged :
    (out : SetupArgs) (args : List String)
    → parse_from out args ≡ (if is_known args then some (merged out args) else none)
unfolding parse_from
parse_from-merged out [] = ground arith
parse_from-merged out (a ∷ rest) = elim (Option-cases (flag_of a)) [
  | inl unknown ↦ ground (arith, unknown)
  | inr (f, known) ↦
      ground
        (arith, known, parse_from-merged (set_flag f out) rest, set_flag-merged out f a rest known)
]

-- The parsing of a command line does not depend on the order of its flags, or on how often one is
-- given: it succeeds exactly when every argument is a flag and the flags combine to a mode, and
-- then an argument is set exactly when its flag stands on the command line.
pub parse-described :
    (args : List String)
    → parse args
      ≡ (if is_known args && is_some (mode (described args)) then some (described args) else none)
unfolding parse
parse-described args = ground (arith, parse_from-merged default args)
