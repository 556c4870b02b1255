-- ===== src/Tests/Heartbeat.antt =====
-- Packets, sockets and mailboxes on which the theorems of the heartbeat and of the pipe's client are
-- applied.
use gdut_net.Base.{◌%◌, ℕ, ◌+◌, ◌≤◌, ◌<◌, ◌≡◌, ◌≢◌, true, false, not, none, List, [], ◌∷◌, arith}
use gdut_net.Heartbeat.Session.{Udp, datagram, run_blocking, sleep_interruptible}
use gdut_net.Heartbeat.Session.Counters.{counters_bounded}
use gdut_net.Heartbeat.Session.Sleeping.{sleep_ends}
use gdut_net.Heartbeat.Spec.{Digests}
use gdut_net.Ipc.Commands.{sent, woken, taken, Step, channel, run}
use gdut_net.Ipc.Commands.Refined.{queue_run, mailbox_refines}
use gdut_net.Protocol.{redial, set_mode, wired_plus_standby, wired_exclusive}

-- An answer of 30 bytes to every packet.
abbrev answer : List ℕ
answer =
    7 ∷ 0 ∷ 16 ∷ 0 ∷ 0 ∷ 0 ∷ 1 ∷ 2 ∷ 3 ∷ 4 ∷ 5 ∷ 6 ∷ 10 ∷ 0 ∷ 3 ∷ 9 ∷ 1 ∷ 2 ∷ 3 ∷ 4 ∷ 0 ∷ 0 ∷ 0 ∷ 0
    ∷ 0 ∷ 0 ∷ 0 ∷ 0 ∷ 0 ∷ 0 ∷ []

-- A server that always answers; the system is the clock.
abbrev answering : Udp ℕ
answering = record {
  bind = λ t. (none, t);
  connect = λ t. (none, t);
  set_read_timeout = λ d t. (none, t);
  send = λ pkt t. (none, t);
  recv = λ t. (datagram answer, t + 1);
  is_cancelled = λ t. false;
  now = λ t. t;
  sleep = λ d t. t + d;
  new_rand = λ t. (4660, t);
  status = λ st t. t;
}

abbrev no_digests : Digests
no_digests = record { md5 = λ bs. bs; md4 = λ bs. bs; sha1 = λ bs. bs }

counters_bounded_example :
    let b = (run_blocking answering no_digests "10.0.3.2:61440" 3 20000000000 0).1 in
    (b.ka1_cnt % 2 ≡ 1)
    × (b.ka2_cnt % 2 ≡ 0)
    × (b.ka1_cnt < 128)
    × (b.ka2_cnt < 128)
    × (b.ka1_cnt ≢ b.ka2_cnt)
counters_bounded_example = counters_bounded answering no_digests "10.0.3.2:61440" 3 20000000000 0

sleep_ends_example :
    let r = sleep_interruptible answering no_digests 250000000 5 in
    (r.0 ≡ not false) × (r.0 ≡ true → 5 + 250000000 ≤ r.1)
sleep_ends_example = sleep_ends answering no_digests 250000000 5 (λ d t. omega arith)

-- A mode is replaced while the receiver has the token.
abbrev steps : List Step
steps =
    sent redial
    ∷ sent (set_mode wired_exclusive)
    ∷ woken
    ∷ sent (set_mode wired_plus_standby)
    ∷ taken
    ∷ woken
    ∷ taken
    ∷ []

mailbox_refines_example :
    (run steps channel).0
    ≡ (queue_run steps (record { commands = []; wake = false; receiving = false })).0
mailbox_refines_example = mailbox_refines steps
