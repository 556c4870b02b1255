-- ===== src/Heartbeat/Session.antt =====
-- src/heartbeat/session.rs: the session loop over UDP. The socket, the clock, the stop token, the
-- random numbers and the status channel are the parameter `Udp`, over a system S. Durations are
-- nanoseconds; the monad `Act` has the three ways that a step of a round ends: with a value, with
-- `continue`, or by leaving the loop. Logging is left out.
pub mod Counters
pub mod Sleeping
use gdut_net.Base.{
  ℕ, zero, suc, ◌+◌, ◌-◌, ◌*◌, ◌/◌, min, String, Bool, true, false, not, Option, none, some, List,
  [], ◌∷◌, ◌&&◌, ltb, ◌==◌, if◌then◌else◌, ◌<+>◌,
}
use gdut_net.Backoff.{from_secs}
use gdut_net.Heartbeat.Spec.{
  Bytes4, Bytes2, byte, Digests, next_cnt, ka1_pkt1, Ka1Init, parse_ka1_resp, Ka2Resp,
  parse_ka2_resp, ka2_pkt1, ka2_pkt2, ka1_pkt2,
}
use gdut_net.Protocol.{HeartbeatStatus}

-- What one receive gives: a datagram, a timeout, or another error.
pub data Received : Type 0 where
  datagram : List ℕ → Received
  timed_out : Received
  recv_failed : Received

-- A send, a bind or a socket call gives the text of its error, if it fails.
pub record Udp (S : Type 0) : Type 0 where
  pub bind : S → Option String × S
  pub connect : S → Option String × S
  pub set_read_timeout : ℕ → S → Option String × S
  pub send : List ℕ → S → Option String × S
  pub recv : S → Received × S
  pub is_cancelled : S → Bool
  pub now : S → ℕ
  pub sleep : ℕ → S → S
  pub new_rand : S → ℕ × S
  pub status : HeartbeatStatus → S → S

-- RECV_TIMEOUT
abbrev pub recv_timeout : ℕ
recv_timeout = from_secs 2

-- KA1_TO_KA2_DELAY
abbrev pub ka1_to_ka2_delay : ℕ
ka1_to_ka2_delay = from_secs 3

-- RECV_TIMEOUT_LIMIT
abbrev pub recv_timeout_limit : ℕ
recv_timeout_limit = 5

-- BIND_ERR_MSG
abbrev pub bind_err_msg : String
bind_err_msg = "Port 61440 in use, compatibility mode unavailable"

-- The slice of an interruptible sleep: 100 ms.
abbrev pub slice : ℕ
slice = 100000000

-- The loop's variables, and the system.
pub record Beat (S : Type 0) : Type 0 where
  pub ka1_cnt : ℕ
  pub ka2_cnt : ℕ
  pub ka1_flag : Bytes2
  pub ka2_flag : Bytes2
  pub system : S

-- `ended` leaves the function, with its error.
pub data Next (A : Type 0) : Type 0 where
  go : A → Next A
  reset : Next A
  ended : Option String → Next A

abbrev pub Act : Type 0 → Type 0 → Type 0
Act S A = Beat S → Next A × Beat S

module _ {S : Type 0} where
  abbrev pub bind_next : {A B : Type 0} → Next A × Beat S → (A → Act S B) → Next B × Beat S
  bind_next (go a, b) f = f a b
  bind_next (reset, b) f = (reset, b)
  bind_next (ended e, b) f = (ended e, b)

  infixl 5 ◌>>=◌ ◌>>◌
  abbrev pub ◌>>=◌ : {A B : Type 0} → Act S A → (A → Act S B) → Act S B
  (m >>= f) b = bind_next (m b) f

  abbrev pub ◌>>◌ : {B : Type 0} → Act S (Unit {0}) → Act S B → Act S B
  m >> k = m >>= λ _. k

  -- A value, or `continue`.
  unfoldable pub or_reset : {A : Type 0} → Option A → Act S A
  or_reset none b = (reset, b)
  or_reset (some a) b = (go a, b)

  unfoldable pub learn_ka1 : Option Bytes2 → Act S (Unit {0})
  learn_ka1 none b = (go tt, b)
  learn_ka1 (some f) b = (go tt, record b { ka1_flag = f })

  unfoldable pub learn_ka2 : Option Bytes2 → Act S (Unit {0})
  learn_ka2 none b = (go tt, b)
  learn_ka2 (some f) b = (go tt, record b { ka2_flag = f })

  unfoldable pub advance : Act S (Unit {0})
  unfolding next_cnt
  advance b = (go tt, record b { ka1_cnt = next_cnt b.ka1_cnt; ka2_cnt = next_cnt b.ka2_cnt })

-- `resp.first() == Some(&0x07) && resp.get(2) == Some(&0x10)`
abbrev pub is_file_packet : List ℕ → Bool
is_file_packet (x ∷ y ∷ z ∷ rest) = x == 7 && z == 16
is_file_packet _ = false

abbrev pub flag_of : Option Ka2Resp → Option Bytes2
flag_of none = none
flag_of (some r) = r.flag

module _ {S : Type 0} (udp : Udp S) (digests : Digests) where
  -- The receives that are left, of the limit.
  unfoldable pub recv_within : ℕ → S → Option (List ℕ) × S
  recv_within zero s = (none, s)
  recv_within (suc n) s =
      let (r, s') = udp.recv s in
      let retried = recv_within n s' in
      if udp.is_cancelled s
      then (none, s)
      else elim r [ datagram d ↦ (some d, s') | timed_out ↦ retried | recv_failed ↦ (none, s') ]

  unfoldable pub recv_retry : S → Option (List ℕ) × S
  unfolding recv_within
  recv_retry s = recv_within recv_timeout_limit s

  -- The loop of the sleep, on fuel: false where the token was cancelled.
  unfoldable pub sleep_until : ℕ → ℕ → S → Bool × S
  sleep_until zero deadline s = (not (udp.is_cancelled s), s)
  sleep_until (suc fuel) deadline s =
      let rest = sleep_until fuel deadline (udp.sleep (min slice (deadline - udp.now s)) s) in
      if ltb (udp.now s) deadline
      then (if udp.is_cancelled s then (false, s) else rest)
      else (not (udp.is_cancelled s), s)

  unfoldable pub sleep_interruptible : ℕ → S → Bool × S
  unfolding sleep_until
  sleep_interruptible total s = sleep_until (total / slice + 1) (udp.now s + total) s

  -- `sock.send`, and what its failure leads to.
  unfoldable pub send : String → (Beat S → List ℕ) → Act S (Unit {0})
  send what pkt b =
      let (failed, s) = udp.send (pkt b) b.system in
      elim failed [
        | none ↦ (go tt, record b { system = s })
        | some e ↦
            let msg = what <+> " send failed: " <+> e in
            (ended (some msg), record b { system = udp.status (HeartbeatStatus.error msg) s })
      ]

  unfoldable pub receive : Act S (List ℕ)
  unfolding recv_retry or_reset
  receive b = let (r, s) = recv_retry b.system in or_reset r (record b { system = s })

  unfoldable pub pause : ℕ → Act S (Unit {0})
  unfolding sleep_interruptible
  pause total b =
      let (whole, s) = sleep_interruptible total b.system in
      (if whole then go tt else ended none, record b { system = s })

  unfoldable pub random : Act S ℕ
  random b = let (r, s) = udp.new_rand b.system in (go r, record b { system = s })

  abbrev pub no_key : Bytes4
  no_key = record { b0 = 0; b1 = 0; b2 = 0; b3 = 0 }

  unfoldable pub send_ka2_pkt1 : String → Act S (Unit {0})
  unfolding random send ka2_pkt1
  send_ka2_pkt1 what = do rand ← random; send what (λ b. ka2_pkt1 b.ka2_cnt b.ka2_flag rand no_key)

  -- The answer that has the key.
  unfoldable pub learn_key : List ℕ → Act S Bytes4
  unfolding or_reset learn_ka2 parse_ka2_resp
  learn_key resp = do r ← or_reset (parse_ka2_resp resp); learn_ka2 r.flag; λ b. (go r.key, b)

  -- A file packet: its flag is learned, and the first packet sent again.
  unfoldable pub resend_ka2 : List ℕ → Act S Bytes4
  unfolding learn_ka2 send_ka2_pkt1 receive learn_key parse_ka2_resp
  resend_ka2 resp = do
    learn_ka2 (flag_of (parse_ka2_resp resp))
    send_ka2_pkt1 "ka2_pkt1 (retry)"
    answer ← receive
    learn_key answer

  unfoldable pub answer_ka2 : List ℕ → Act S Bytes4
  unfolding resend_ka2 learn_key
  answer_ka2 resp = if is_file_packet resp then resend_ka2 resp else learn_key resp

  -- The part of a round after the probe is answered, up to its last packet.
  unfoldable pub confirm : Ka1Init → Act S (Unit {0})
  unfolding send receive learn_ka1 pause send_ka2_pkt1 answer_ka2 random ka1_pkt2 ka2_pkt2
  confirm init = do
    learn_ka1 init.flag
    send "ka1_pkt2" (λ b. ka1_pkt2 digests b.ka1_cnt true init.host_ip init.seed b.ka1_flag)
    pause ka1_to_ka2_delay
    send_ka2_pkt1 "ka2_pkt1"
    resp ← receive
    key ← answer_ka2 resp
    rand ← random
    send "ka2_pkt2" (λ b. ka2_pkt2 b.ka2_cnt b.ka2_flag rand key init.host_ip)

  -- A round up to its last packet.
  unfoldable pub exchange : Act S (Unit {0})
  unfolding send receive or_reset ka1_pkt1 parse_ka1_resp confirm
  exchange = do
    send "ka1_pkt1" (λ b. ka1_pkt1 b.ka1_cnt)
    resp ← receive
    init ← or_reset (parse_ka1_resp resp)
    confirm init

  unfoldable pub cancelled : Act S (Unit {0})
  cancelled b = (if udp.is_cancelled b.system then ended none else go tt, b)

  -- The body of the loop.
  unfoldable pub round : ℕ → Act S (Unit {0})
  unfolding cancelled exchange advance pause
  round interval = do cancelled; exchange; advance; pause (interval - ka1_to_ka2_delay)

  -- The loop, for some rounds at most: what it ended with, where it ended.
  unfoldable pub rounds : ℕ → ℕ → Beat S → Option (Option String) × Beat S
  unfolding round
  rounds zero interval b = (none, b)
  rounds (suc n) interval b =
      let (next, b') = round interval b in
      let rest = rounds n interval b' in
      elim next [ go _ ↦ rest | reset ↦ rest | ended e ↦ (some e, b') ]

  -- The variables when the loop is entered.
  abbrev pub first_beat : S → Beat S
  first_beat s = record {
    ka1_cnt = 1;
    ka2_cnt = 0;
    ka1_flag = record { b0 = 0; b1 = 0 };
    ka2_flag = record { b0 = 0; b1 = 0 };
    system = s;
  }

  -- A socket call of the setup that failed: its error is published and returned.
  abbrev pub setup_failed : String → String → S → Option (Option String) × Beat S
  setup_failed published msg s =
      (some (some msg), first_beat (udp.status (HeartbeatStatus.error published) s))

  -- `run_blocking`, for some rounds at most.
  unfoldable pub run_blocking : String → ℕ → ℕ → S → Option (Option String) × Beat S
  unfolding rounds
  run_blocking peer n interval s =
      let (bind_error, s1) = udp.bind s in
      let (connect_error, s2) = udp.connect (udp.status HeartbeatStatus.running s1) in
      let (timeout_error, s3) = udp.set_read_timeout recv_timeout s2 in
      elim bind_error [
        | some e ↦ setup_failed bind_err_msg (bind_err_msg <+> ": " <+> e) s1
        | none ↦ elim connect_error [
          | some e ↦ let msg = "connect " <+> peer <+> " failed: " <+> e in setup_failed msg msg s2
          | none ↦ elim timeout_error [
            | some e ↦ let msg = "Failed to set recv timeout: " <+> e in setup_failed msg msg s3
            | none ↦ rounds n interval (first_beat s3)
          ]
        ]
      ]
