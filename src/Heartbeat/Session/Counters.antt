-- ===== src/Heartbeat/Session/Counters.antt =====
-- The counters of the heartbeat session.
use gdut_net.Base.{
  ℕ, zero, suc, ◌-◌, ◌%◌, ◌<◌, ◌≡◌, ◌⊎◌, inl, inr, refl, ◌∙◌, ap, ◌≢◌, String, Bool, true, false,
  Option, none, some, List, arith, if◌then◌else◌,
}
use gdut_net.Heartbeat.Spec.{
  Bytes2, Digests, next_cnt, ka1_pkt1, Ka1Init, ka1_pkt2, ka2_pkt2, parse_ka1_resp, parse_ka2_resp,
}
use gdut_net.Protocol.{HeartbeatStatus}
use gdut_net.Heartbeat.Session.{
  Udp, Beat, Next, go, reset, ended, Act, bind_next, ◌>>◌, or_reset, learn_ka1, learn_ka2, advance,
  is_file_packet, flag_of, recv_retry, send, receive, pause, random, send_ka2_pkt1, learn_key,
  resend_ka2, answer_ka2, confirm, exchange, cancelled, round, rounds, ka1_to_ka2_delay,
  recv_timeout, run_blocking, first_beat,
}

module _ {S : Type 0} where
  -- Both counters are as they were.
  abbrev pub SameCounters : Beat S → Beat S → Type 0
  SameCounters b b' = (b'.ka1_cnt ≡ b.ka1_cnt) × (b'.ka2_cnt ≡ b.ka2_cnt)

  -- Both counters have advanced.
  abbrev pub Advanced : Beat S → Beat S → Type 0
  Advanced b b' = (b'.ka1_cnt ≡ next_cnt b.ka1_cnt) × (b'.ka2_cnt ≡ next_cnt b.ka2_cnt)

  -- A step that leaves them so.
  record Keeps {A : Type 0} (m : Act S A) : Type 0 where
    same : (b : Beat S) → SameCounters b (m b).1

  bound-Keeps :
      {A B : Type 0} (b : Beat S) (r : Next A × Beat S) (f : A → Act S B)
      → SameCounters b r.1
      → ((a : A) → Keeps (f a))
      → SameCounters b (bind_next r f).1
  bound-Keeps b (go a, c) f h k = let (p, q) = (k a).same c in (p ∙ h.0, q ∙ h.1)
  bound-Keeps b (reset, c) f h k = h
  bound-Keeps b (ended e, c) f h k = h

  bind-Keeps :
      {A B : Type 0} (m : Act S A) (f : A → Act S B)
      → Keeps m
      → ((a : A) → Keeps (f a))
      → Keeps (λ b. bind_next (m b) f)
  bind-Keeps m f h k = record { same = λ b. bound-Keeps b (m b) f (h.same b) k }

  done-Keeps : {A : Type 0} (a : A) → Keeps (λ b. (go a, b))
  done-Keeps a = record { same = λ b. (refl, refl) }

  or_reset-Keeps : {A : Type 0} (o : Option A) → Keeps (or_reset o)
  unfolding or_reset
  or_reset-Keeps none = record { same = λ b. (refl, refl) }
  or_reset-Keeps (some a) = record { same = λ b. (refl, refl) }

  learn_ka1-Keeps : (o : Option Bytes2) → Keeps (learn_ka1 o)
  unfolding learn_ka1
  learn_ka1-Keeps none = record { same = λ b. (refl, refl) }
  learn_ka1-Keeps (some f) = record { same = λ b. (refl, refl) }

  learn_ka2-Keeps : (o : Option Bytes2) → Keeps (learn_ka2 o)
  unfolding learn_ka2
  learn_ka2-Keeps none = record { same = λ b. (refl, refl) }
  learn_ka2-Keeps (some f) = record { same = λ b. (refl, refl) }

module _ {S : Type 0} (udp : Udp S) (digests : Digests) where
  send-Keeps : (what : String) (pkt : Beat S → List ℕ) → Keeps (send udp digests what pkt)
  unfolding send
  send-Keeps what pkt = record { same = λ b. ground arith }

  receive-Keeps : Keeps (receive udp digests)
  unfolding receive
  receive-Keeps = record {
    same = λ b.
        let r = recv_retry udp digests b.system in
        (or_reset-Keeps r.0).same (record b { system = r.1 });
  }

  pause-Keeps : (total : ℕ) → Keeps (pause udp digests total)
  unfolding pause
  pause-Keeps total = record { same = λ b. (refl, refl) }

  random-Keeps : Keeps (random udp digests)
  unfolding random
  random-Keeps = record { same = λ b. (refl, refl) }

  send_ka2-Keeps : (what : String) → Keeps (send_ka2_pkt1 udp digests what)
  unfolding send_ka2_pkt1
  send_ka2-Keeps what = search (bind-Keeps, random-Keeps, send-Keeps)

  learn_key-Keeps : (resp : List ℕ) → Keeps (learn_key udp digests resp)
  unfolding learn_key
  learn_key-Keeps resp =
      bind-Keeps (or_reset (parse_ka2_resp resp)) _ (or_reset-Keeps _)
        (λ r. bind-Keeps (learn_ka2 r.flag) _ (learn_ka2-Keeps _) (λ _. done-Keeps r.key))

  resend-Keeps : (resp : List ℕ) → Keeps (resend_ka2 udp digests resp)
  unfolding resend_ka2
  resend-Keeps resp =
      let learned = flag_of (parse_ka2_resp resp) in
      bind-Keeps (learn_ka2 learned) _ (learn_ka2-Keeps learned) (λ _.
        bind-Keeps (send_ka2_pkt1 udp digests "ka2_pkt1 (retry)") _ (send_ka2-Keeps _)
          (λ _. bind-Keeps (receive udp digests) _ receive-Keeps learn_key-Keeps))

  if_Keeps :
      {A : Type 0} (c : Bool) (m n : Act S A) → Keeps m → Keeps n → Keeps (if c then m else n)
  if_Keeps true m n h k = h
  if_Keeps false m n h k = k

  answer-Keeps : (resp : List ℕ) → Keeps (answer_ka2 udp digests resp)
  unfolding answer_ka2
  answer-Keeps resp =
      if_Keeps (is_file_packet resp) (resend_ka2 udp digests resp) (learn_key udp digests resp)
        (resend-Keeps resp) (learn_key-Keeps resp)

  -- The rest of the exchange, once the probe is answered.
  shaken-Keeps : (init : Ka1Init) → Keeps (confirm udp digests init)
  unfolding confirm
  shaken-Keeps init = bind-Keeps (learn_ka1 init.flag) _ (learn_ka1-Keeps _) (λ _.
      bind-Keeps
        (send udp digests "ka1_pkt2"
          (λ b. ka1_pkt2 digests b.ka1_cnt true init.host_ip init.seed b.ka1_flag))
        _ (send-Keeps _ _)
        (λ _. bind-Keeps (pause udp digests ka1_to_ka2_delay) _ (pause-Keeps ka1_to_ka2_delay) (λ _.
          bind-Keeps (send_ka2_pkt1 udp digests "ka2_pkt1") _ (send_ka2-Keeps _) (λ _.
            bind-Keeps (receive udp digests) _ receive-Keeps (λ resp.
              bind-Keeps (answer_ka2 udp digests resp) _ (answer-Keeps resp) (λ key.
                bind-Keeps (random udp digests) _ random-Keeps (λ rand.
                  send-Keeps "ka2_pkt2"
                    (λ b. ka2_pkt2 b.ka2_cnt b.ka2_flag rand key init.host_ip))))))))

  exchange-Keeps : Keeps (exchange udp digests)
  unfolding exchange
  exchange-Keeps =
      bind-Keeps (send udp digests "ka1_pkt1" (λ b. ka1_pkt1 b.ka1_cnt)) _ (send-Keeps _ _) (λ _.
        bind-Keeps (receive udp digests) _ receive-Keeps
          (λ resp. bind-Keeps (or_reset (parse_ka1_resp resp)) _ (or_reset-Keeps _) shaken-Keeps))

  -- After the last packet: the counters advance, then the round waits.
  finished :
      (interval : ℕ) (b : Beat S) (r : Next (Unit {0}) × Beat S)
      → SameCounters b r.1
      → let end = bind_next r (λ _. advance >> pause udp digests (interval - ka1_to_ka2_delay)) in
        (SameCounters b end.1 × (end.0 ≢ go tt)) ⊎ (Advanced b end.1 × (end.0 ≢ reset))
  unfolding advance pause
  finished interval b (go a, c) (p, q) = inr ((ap next_cnt p, ap next_cnt q), (ground arith))
  finished interval b (reset, c) h = inl (h, (ground arith))
  finished interval b (ended e, c) h = inl (h, (ground arith))

  begun :
      (interval : ℕ) (b : Beat S) (c : Bool)
      → let checked : Next (Unit {0}) × Beat S = (if c then ended none else go tt, b) in
        let rest =
          exchange udp digests >> (advance >> pause udp digests (interval - ka1_to_ka2_delay)) in
        let end = bind_next checked (λ _. rest) in
        (SameCounters b end.1 × (end.0 ≢ go tt)) ⊎ (Advanced b end.1 × (end.0 ≢ reset))
  begun interval b true = inl ((refl, refl), (ground arith))
  begun interval b false = finished interval b (exchange udp digests b) (exchange-Keeps.same b)

  -- A round, whatever is received and sent: it goes on to the next one only with both counters
  -- advanced, and starts over only with both as they were, so the server sees the same counters
  -- again. A round that leaves the loop does one or the other.
  pub round_counters :
      (interval : ℕ) (b : Beat S)
      → let end = round udp digests interval b in
        (SameCounters b end.1 × (end.0 ≢ go tt)) ⊎ (Advanced b end.1 × (end.0 ≢ reset))
  unfolding round cancelled
  round_counters interval b = begun interval b (udp.is_cancelled b.system)

  -- The first counter is odd, the second even, and both are below 128.
  abbrev pub InStep : Beat S → Type 0
  InStep b = (b.ka1_cnt % 2 ≡ 1) × (b.ka1_cnt < 128) × (b.ka2_cnt % 2 ≡ 0) × (b.ka2_cnt < 128)

  round-InStep : (interval : ℕ) (b : Beat S) → InStep b → InStep (round udp digests interval b).1
  unfolding next_cnt
  round-InStep interval b h = ground (arith, round_counters interval b)

  looped-InStep :
      (next : Next (Unit {0})) (b : Beat S) (rest : Option (Option String) × Beat S)
      → InStep b
      → InStep rest.1
      → let r : Option (Option String) × Beat S = elim next [
        | go _ ↦ rest
        | reset ↦ rest
        | ended e ↦ (some e, b)
      ] in
        InStep r.1
  looped-InStep (go a) b rest h k = k
  looped-InStep reset b rest h k = k
  looped-InStep (ended e) b rest h k = h

  rounds-InStep :
      (n interval : ℕ) (b : Beat S) → InStep b → InStep (rounds udp digests n interval b).1
  unfolding rounds
  rounds-InStep zero interval b h = h
  rounds-InStep (suc n) interval b h =
      let r = round udp digests interval b in
      let next = round-InStep interval b h in
      looped-InStep r.0 r.1 (rounds udp digests n interval r.1) next
        (rounds-InStep n interval r.1 next)

  -- After any number of rounds, whatever is received, the first counter is odd, the second even, and
  -- both are below 128: their increment never overflows a byte, and the packets of the two kinds never
  -- carry the same number.
  pub counters_bounded :
      (peer : String) (n interval : ℕ) (s : S)
      → let b = (run_blocking udp digests peer n interval s).1 in
        (b.ka1_cnt % 2 ≡ 1)
        × (b.ka2_cnt % 2 ≡ 0)
        × (b.ka1_cnt < 128)
        × (b.ka2_cnt < 128)
        × (b.ka1_cnt ≢ b.ka2_cnt)
  unfolding run_blocking
  counters_bounded peer n interval s =
      let s1 = (udp.bind s).1 in
      let s2 = (udp.connect (udp.status HeartbeatStatus.running s1)).1 in
      let s3 = (udp.set_read_timeout recv_timeout s2).1 in
      let last = rounds-InStep n interval (first_beat udp digests s3) (ground arith) in
      ground (arith, last)
