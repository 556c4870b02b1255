-- ===== src/Ras.antt =====
-- src/ras.rs: entries, dialing, sessions and the restart of RasMan. The RAS library, the service
-- control of RasMan and the encoding of texts are the parameter `RasApi`, over a state T with handles
-- H. Texts of Windows are lists of UTF-16 units. An error of a call is its code, of a function none or
-- false; the errors of dialing are those of Runtime/Dialer. Logging is left out.
pub mod Best
use gdut_net.Base.{
  ◌⊎◌, inl, inr, ℕ, zero, suc, ◌+◌, ◌-◌, ◌*◌, ◌/◌, String, Bool, true, false, not, ◌&&◌, ◌||◌,
  Option, none, some, List, [], ◌∷◌, ◌++◌, length, take, ltb, leb, ◌==◌, if◌then◌else◌,
}
use gdut_net.Backoff.{from_millis}
use gdut_net.Http.{lower}
use gdut_net.Http.Transport.{starts_with, codes_eq}
use gdut_net.Ipv4.{codes}
use gdut_net.Runtime.Dialer.{RasError, refused, other, is_wedged}
use gdut_net.Service.Control.{Scm, opened, not_installed, unopened, is_stopped, is_running}
use gdut_net.Watchdog.{auth, transient, classify}

pub data ConnState : Type 0 where
  connected disconnected : ConnState

-- RASCONNW
pub record RasConn (H : Type 0) : Type 0 where
  pub handle : H
  pub entry_name : List ℕ
  pub phonebook : List ℕ
  pub device_name : List ℕ

-- What RasEnumConnectionsW yields: its code, the size in bytes and the connections.
pub record Enumerated (H : Type 0) : Type 0 where
  pub code : ℕ
  pub size : ℕ
  pub connections : List (RasConn H)

-- What RasGetConnectStatusW yields: its code, whether the state is RASCS_Disconnected, and dwError.
pub record ConnectStatus : Type 0 where
  pub code : ℕ
  pub is_down : Bool
  pub error : ℕ

-- `conn_size` is the size of RASCONNW in bytes.
pub record RasApi (T H A : Type 0) : Type 0 where
  pub encode_utf16 : String → List ℕ
  pub byte_len : String → ℕ
  pub conn_size : ℕ
  pub error_string : ℕ → String
  pub set_entry_properties : List ℕ → List ℕ → T → ℕ × T
  pub set_credentials_of : List ℕ → List ℕ → List ℕ → List ℕ → T → ℕ × T
  pub ras_dial : List ℕ → List ℕ → List ℕ → List ℕ → T → (ℕ × H) × T
  pub enum_connections : ℕ → T → Enumerated H
  pub connect_status : H → T → ConnectStatus
  pub hang_up : H → T → ℕ × T
  pub detach_ppp_dns : String → T → T
  pub rasman : Scm T A

-- As many zeros.
abbrev zeros : ℕ → List ℕ
zeros zero = []
zeros (suc n) = 0 ∷ zeros n

-- `wide`: the units of a text in a buffer of so many, with a zero after them.
unfoldable pub wide : List ℕ → ℕ → List ℕ
wide units len = let kept = take (len - 1) units in kept ++ zeros (len - length kept)

-- `entry_name_slice`: the units before the first zero.
unfoldable pub entry_name_slice : List ℕ → List ℕ
entry_name_slice [] = []
entry_name_slice (c ∷ cs) = let rest = entry_name_slice cs in if c == 0 then [] else c ∷ rest

-- `char::from_u32(..).unwrap_or('\0')`: a surrogate is no character.
abbrev pub unit_char : ℕ → ℕ
unit_char u = if leb 0xd800 u && ltb u 0xe000 then 0 else u

unfoldable pub chars_eq_ci : List ℕ → List ℕ → Bool
chars_eq_ci [] ys = true
chars_eq_ci (x ∷ xs) [] = true
chars_eq_ci (x ∷ xs) (y ∷ ys) = lower (unit_char x) == lower (unit_char y) && chars_eq_ci xs ys

unfoldable pub pbk_eq_ci : List ℕ → List ℕ → Bool
unfolding entry_name_slice chars_eq_ci
pbk_eq_ci a b =
    let xs = entry_name_slice a in
    let ys = entry_name_slice b in length xs == length ys && chars_eq_ci xs ys

-- `contains` of a text.
unfoldable pub contains : List ℕ → List ℕ → Bool
unfolding starts_with
contains pattern [] = starts_with pattern []
contains pattern (c ∷ cs) = starts_with pattern (c ∷ cs) || contains pattern cs

module _ {H : Type 0} where
  abbrev pub is_named : List ℕ → RasConn H → Bool
  is_named name c = codes_eq (entry_name_slice c.entry_name) name

  abbrev pub is_exact : List ℕ → List ℕ → RasConn H → Bool
  is_exact pbk name c = is_named name c && pbk_eq_ci c.phonebook pbk

  abbrev pub is_pppoe : RasConn H → Bool
  is_pppoe c =
      let device = entry_name_slice c.device_name in
      contains (codes "PPPoE") device || contains (codes "PPOE") device

  -- The first connection of a loop of `find_entry_connection`.
  unfoldable pub find_by : (RasConn H → Bool) → List (RasConn H) → Option (RasConn H)
  find_by p [] = none
  find_by p (c ∷ cs) = let rest = find_by p cs in if p c then some c else rest

  abbrev pub or_else : Option (RasConn H) → Option (RasConn H) → Option (RasConn H)
  or_else none o = o
  or_else (some c) o = some c

  -- The three loops of `find_entry_connection`, and what follows them.
  unfoldable pub choose : List ℕ → List ℕ → List (RasConn H) → Option (RasConn H)
  unfolding find_by
  choose pbk name cs = or_else (find_by (is_exact pbk name) cs) (
      or_else (find_by (is_named name) cs) (or_else (find_by is_pppoe cs) (find_by (λ c. true) cs)))

module _ {T H A : Type 0} (api : RasApi T H A) where
  -- A text with its zero.
  abbrev wide_of : String → List ℕ
  wide_of s = wide (api.encode_utf16 s) (api.byte_len s + 1)

  -- 816 is a port in use.
  unfoldable pub ensure_entry : String → String → T → Bool × T
  unfolding wide
  ensure_entry pbk name t =
      let (code, t') = api.set_entry_properties (wide_of pbk) (wide_of name) t in
      (code == 0 || code == 816, t')

  unfoldable pub set_credentials : String → String → String → String → T → Bool × T
  unfolding wide
  set_credentials pbk name user pass t =
      let (code, t') =
        api.set_credentials_of (wide_of pbk) (wide_of name) (wide (api.encode_utf16 user) 257)
          (wide (api.encode_utf16 pass) 257) t in
      (code == 0, t')

  unfoldable pub dial_once : String → String → String → String → T → (RasError ⊎ H) × T
  unfolding wide classify
  dial_once pbk name user pass t =
      let ((code, handle), t') =
        api.ras_dial (wide_of pbk) (wide (api.encode_utf16 name) 257)
          (wide (api.encode_utf16 user) 257) (wide (api.encode_utf16 pass) 257) t in
      let error : RasError = elim (classify code) [
        | auth ↦ refused
        | transient ↦ other code (api.error_string code)
      ] in
      if code == 0 then (inr handle, api.detach_ppp_dns name t') else (inl error, t')

  -- 603 is ERROR_BUFFER_TOO_SMALL.
  unfoldable pub find_entry_connection : String → String → T → Option (RasConn H)
  unfolding choose
  find_entry_connection pbk name t =
      let first = api.enum_connections 4 t in
      let found =
        if first.code == 603
        then api.enum_connections (first.size / api.conn_size + 1) t
        else first in
      if found.code == 0
      then choose (api.encode_utf16 pbk) (api.encode_utf16 name) found.connections
      else none

  -- The loop of `hangup_all_ppp`, of at most so many sessions.
  unfoldable pub hangup_some : ℕ → String → String → T → ℕ × T
  unfolding find_entry_connection
  hangup_some zero pbk name t = (0, t)
  hangup_some (suc n) pbk name t = elim (find_entry_connection pbk name t) [
    | none ↦ (0, t)
    | some c ↦
        let (count, t') =
          hangup_some n pbk name (api.rasman.sleep (from_millis 400) (api.hang_up c.handle t).1) in
        (count + 1, t')
  ]

  unfoldable pub hangup_all_ppp : String → String → T → ℕ × T
  unfolding hangup_some
  hangup_all_ppp pbk name t = hangup_some 4 pbk name t

  unfoldable pub dial : String → String → String → String → T → (RasError ⊎ H) × T
  unfolding dial_once hangup_all_ppp
  dial pbk name user pass t =
      let (result, t1) = dial_once pbk name user pass t in
      let t2 = (hangup_all_ppp pbk name t1).1 in
      let again = dial_once pbk name user pass (api.rasman.sleep (from_millis 1500) t2) in
      elim result [
        | inr handle ↦ (inr handle, t1)
        | inl refused ↦ (inl refused, t1)
        | inl (other code msg) ↦ if is_wedged code then again else (inl (other code msg), t1)
      ]

  -- ERROR_NO_CONNECTION
  abbrev pub no_connection : ℕ
  no_connection = 668

  unfoldable pub status : H → T → Option ConnState
  status handle t =
      let st = api.connect_status handle t in
      if st.code == no_connection
      then some disconnected
      else if not (st.code == 0)
      then none
      else if st.is_down
      then some disconnected
      else if not (st.error == 0)
      then none
      else some connected

  unfoldable pub hangup : H → T → Bool × T
  hangup handle t =
      let (code, t') = api.hang_up handle t in
      if not (code == 0) && not (code == no_connection)
      then (false, t')
      else (true, api.rasman.sleep (from_millis 300) t')

  -- The wait of `restart_rasman` for RasMan to stop.
  unfoldable pub wait_down : ℕ → T → T
  wait_down zero t = t
  wait_down (suc n) t =
      let later = api.rasman.sleep (from_millis 500) t in
      let rest = wait_down n later in
      elim (api.rasman.query_status later) [
        | none ↦ rest
        | some st ↦ if is_stopped st then later else rest
      ]

  -- Its wait for RasMan to run.
  unfoldable pub wait_up : ℕ → T → Bool × T
  wait_up zero t = (false, t)
  wait_up (suc n) t =
      let later = api.rasman.sleep (from_millis 500) t in
      let rest = wait_up n later in
      elim (api.rasman.query_status later) [
        | none ↦ rest
        | some st ↦ if is_running st then (true, later) else rest
      ]

  unfoldable pub restart_rasman : T → Bool × T
  unfolding wait_down wait_up
  restart_rasman t =
      let halted : T = wait_down 20 (api.rasman.stop t).1 in
      let t1 : T = elim (api.rasman.query_status t) [
        | none ↦ t
        | some st ↦ if is_stopped st then t else halted
      ] in
      let (started, t2) = api.rasman.start t1 in
      let up = wait_up 20 t2 in
      if api.rasman.connect t
      then elim (api.rasman.open_service t) [
        | opened ↦ if started then up else (false, t2)
        | not_installed ↦ (false, t)
        | unopened ↦ (false, t)
      ]
      else (false, t)
