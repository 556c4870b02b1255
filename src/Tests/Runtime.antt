-- ===== src/Tests/Runtime.antt =====
-- Hosts, lines and workers on which the theorems of the runtime are applied.
use gdut_net.Base.{
  ◌<+>◌, ℕ, ◌+◌, ◌/◌, ◌%◌, ◌≡◌, refl, String, true, false, none, some, List, [], ◌∷◌, ◌++◌, arith,
  is_some, All,
}
use gdut_net.Adapter.{ethernet_csmacd, inet, Gaa, table}
use gdut_net.Backoff.{from_secs}
use gdut_net.Config.{Config, dial_default, heartbeat_default, wireless_default}
use gdut_net.Ipv4.{Ipv4Addr, codes}
use gdut_net.Probe.{alive}
use gdut_net.Runtime.Dialer
use gdut_net.Runtime.Dialer.{Ras, Line, session, ras_error, other, real_devices}
use gdut_net.Runtime.Dialer.Handles.{session_held}
use gdut_net.Runtime.Dialer.Wedge.{dials, wedge_restarts}
use gdut_net.Runtime.Loop.{Ready, Loop, assemble, begin, turns}
use gdut_net.Runtime.Loop.InSync.{loop_settled}
use gdut_net.Runtime.Loop.Stopping.{is_managed, teardown_of, stop_hands_over}
use gdut_net.Runtime.Shell.{Host, drain}
use gdut_net.Runtime.Shell.Draining.{drain_ends}
use gdut_net.Runtime.Worker
use gdut_net.Runtime.Worker.{
  Radio, WirelessWorker, Waking, message, idle, in_world, retried, perform, run_effect,
}
use gdut_net.Runtime.Worker.Blocked.{egress_blocks-login}
use gdut_net.Runtime.Shell.{effect, shutdown_with}
use gdut_net.Runtime.Worker.Lane.{IsTally, asked, lane_answered}
use gdut_net.Supervisor.Reducer.Flights.{login, bit, ends}
use gdut_net.Supervisor.State.{without_wireless}
use gdut_net.Supervisor.Types.{
  teardown_routes, settle, wake, portal_finished, failed, associate, acquire_wireless_egress,
  portal_auth, WlanEndpoint,
}
use gdut_net.Watchdog
use gdut_net.Watchdog.{Devices, DialResult, dialed, WatchdogCfg, phase_is_connected}
use gdut_net.Watchdog.Invariant.{step, link, ask_redial, apply_all}
use gdut_net.Wireless.Egress
use gdut_net.Wireless.Egress.{EgressOps, acquire}
use gdut_net.Wireless.Portal.{Json}
use gdut_net.Wireless.Portal.Login.{Http, urlencode, login_inner, billing_request}
use gdut_net.Wireless.Portal.Login.Encoded.{percent_decode, IsSafe, urlencode_sound}
use gdut_net.Wireless.Portal.Login.Gate.{login_gated}

abbrev no_json : Json
no_json = record {
  Value = String;
  from_str = λ text. none;
  get = λ v key. none;
  as_str = λ v. none;
  as_u64 = λ v. none;
  to_string = λ v. v;
}

abbrev config : Config
config = record {
  account = record { student_id = "3120000000"; password_blob = "" };
  dial = dial_default;
  heartbeat = heartbeat_default;
  wireless = wireless_default;
}

-- A port that is stuck; the system counts the restarts of RasMan.
abbrev stuck : Ras ℕ ℕ
stuck = record {
  dial = λ pbk entry user pass s. (ras_error (other 756 "port in use"), s);
  restart_rasman = λ s. s + 1;
  hangup = λ h s. s;
  is_connected = λ h s. (false, s);
}

abbrev line : Line ℕ ℕ
line = record { dialer = Dialer.new config "secret"; system = 0 }

wedge_restarts_example :
    ((dials stuck 7 line).system ≡ 0 + 7 / 3) × ((dials stuck 7 line).dialer.wedge_fails ≡ 7 % 3)
unfolding Dialer.new
wedge_restarts_example =
    wedge_restarts stuck (λ s. s) 7 line (λ s. refl)
      (λ pbk entry user pass s. (756, "port in use", refl, refl, refl)) refl

-- A port that gives out handles.
abbrev working : Ras ℕ ℕ
working = record {
  dial = λ pbk entry user pass s. (session s, s + 1);
  restart_rasman = λ s. s;
  hangup = λ h s. s;
  is_connected = λ h s. (true, s);
}

abbrev timing : WatchdogCfg
timing = record {
  redial_min = from_secs 1;
  redial_max = from_secs 300;
  probe_interval = from_secs 30;
  auth_fail_delay = from_secs 600;
}

session_held_example :
    let io = real_devices working (λ s. (alive, s)) (λ s. s) in
    let w =
      apply_all io
        (step ∷ link (some true) ∷ ask_redial ∷ step ∷ [])
        (Watchdog.new (record { dialer = Dialer.new config "secret"; system = 0 }) timing) in
    is_some w.devices.dialer.held ≡ phase_is_connected w.phase
session_held_example =
    session_held working (λ s. (alive, s)) (λ s. s) 0 config "secret" timing
      (step ∷ link (some true) ∷ ask_redial ∷ step ∷ [])

abbrev address : Ipv4Addr
address = record { a = 10; b = 21; c = 4; d = 7 }

abbrev plugged : ℕ → Gaa
plugged size = table (
    record {
      friendly_name = "Ethernet";
      description = "Realtek Gaming GbE";
      if_type = ethernet_csmacd;
      oper_up = true;
      unicast = inet address ∷ [];
      gateways = [];
      if_index = 3;
      has_dns = true;
    }
    ∷ [])

abbrev good_line : Devices ℕ
good_line = record {
  dial = λ d. (dialed, d + 1);
  hangup = λ d. d;
  is_connected = λ d. (true, d);
  probe = λ d. (alive, d);
  unix_now = λ d. 1700000000 + d;
}

-- A world that counts what is done to it.
abbrev host : Host ℕ
host = record {
  lower = λ s. s;
  gaa = λ d. plugged;
  associated = λ d. false;
  joined = λ d. (true, d);
  read_clock = λ d. ((1000, 1700000000), d);
  save = λ cfg d. d + 1;
  toast = λ title body d. (true, d + 1);
  publish = λ snapshot d. d + 1;
  send_lane = λ msg d. (true, d + 1);
}

drain_ends_example : (drain no_json good_line host (wake ∷ wake ∷ []) (assemble config 0)).0 ≡ []
drain_ends_example = drain_ends no_json good_line host (wake ∷ wake ∷ []) (assemble config 0)

-- Nothing but the timer.
abbrev timer : Ready
timer = record { stop_cancelled = false; command = none; heartbeat = none; wireless = none }

abbrev stop_signal : Ready
stop_signal = record timer { stop_cancelled = true }

loop_settled_example :
    let l =
      turns no_json good_line host (timer ∷ []) (begin no_json good_line host config true 0) in
    (l.queue ≡ []) × (l.shell.watchdog.eth_link ≡ l.shell.core.eth_link)
loop_settled_example = loop_settled no_json good_line host config true 0 (timer ∷ [])

abbrev running : Loop ℕ
running = record {
  shell = record (assemble config 0) { core = record (without_wireless config) { started = true } };
  queue = [];
  hb_alive = true;
  wireless_alive = false;
}

stop_hands_over_example :
    let l' = turns no_json good_line host (stop_signal ∷ timer ∷ []) running in
    let managed = is_managed running.shell.core in
    (l'.shell.stopping ≡ true)
    × ((d : ℕ) × (l'.shell.watchdog.devices ≡ d))
    × (l'.shell.shutdown_effects ≡ [] ++ teardown_of managed)
    × (l'.queue ≡ [])
unfolding assemble without_wireless
stop_hands_over_example =
    stop_hands_over no_json good_line host stop_signal (timer ∷ []) running refl refl refl refl

-- A password with a separator in it.
urlencode_sound_example :
    (percent_decode (urlencode (97 ∷ 38 ∷ 255 ∷ [])) ≡ 97 ∷ 38 ∷ 255 ∷ [])
    × All IsSafe (urlencode (97 ∷ 38 ∷ 255 ∷ []))
urlencode_sound_example =
    urlencode_sound (97 ∷ 38 ∷ 255 ∷ []) (omega arith, (omega arith, (omega arith, tt)))

-- A server that never answers.
abbrev silent : Http ℕ
silent = record { request = λ src url s. (none, s); sleep = λ d s. s; expires = λ d s. none }

abbrev base : List ℕ
base = codes "http://10.0.3.2:801/eportal/portal/login"

abbrev user : List ℕ
user = codes "3120000000"

login_gated_example :
    (login_inner no_json silent address base user (codes "secret") (codes "172.16.254.2") 0).1 ≡ 0
unfolding billing_request
login_gated_example =
    login_gated no_json silent address base user (λ s. s ≡ 0) (codes "secret")
      (codes "172.16.254.2") 0 ((λ url s o p. p), (λ d s p. p)) (λ opens. ground arith) refl

-- A world that is never stopped, and refuses every route.
abbrev radio : Radio ℕ
radio = record {
  cleanup_stale = λ targets t. t;
  associate = λ profile t. (none, t + 1);
  disassociate = λ t. t + 1;
  http = silent;
  last_error = λ t. "access denied";
  expires = λ d t. none;
  probe_once = λ src gateway url t. (alive, t);
  sleep = λ d t. t;
  is_cancelled = λ t. false;
  send = λ event t. t + 1;
}

abbrev refusing : EgressOps ℕ
refusing = record {
  add_route = λ dest gateway ifindex t. (false, t);
  delete_route = λ dest gateway ifindex t. (false, t);
  suppress_metric = λ ifindex target t. t;
  restore_metric = λ ifindex t. (false, t);
}

abbrev worker : WirelessWorker ℕ
worker = record {
  portal_url = base;
  wlan_ac_ip = codes "172.16.254.2";
  user = user;
  pass = codes "secret";
  portal_ip = address;
  probe_ip = address;
  egress = record (Egress.new 0) { dests = address ∷ [] };
  egress_error = none;
}

-- A world that counts the logins that are answered.
abbrev counting : Radio ℕ
counting = record radio {
  associate = λ profile t. (none, t);
  disassociate = λ t. t;
  send = λ event t. t + bit (ends login event);
}

counting-IsTally : IsTally no_json refusing counting login (λ t. t)
counting-IsTally = record {
  sending = λ x t. refl;
  otherwise = λ n. record {
    add_route = λ d g i t p. p;
    delete_route = λ d g i t p. p;
    suppress_metric = λ i m t p. p;
    restore_metric = λ i t p. p;
    cleanup_stale = λ l t p. p;
    associate = λ profile t p. p;
    disassociate = λ t p. p;
    request = λ a url t p. p;
    pause = λ d t p. p;
    cut = λ d t late e p. absurd (ground (arith, e));
    expires = λ d t late e p. absurd (ground (arith, e));
    probe_once = λ a g url t p. p;
    sleep = λ d t p. p;
  };
}

-- An association and a login, and a stop behind them.
abbrev lane : List (Waking no_json refusing counting)
lane =
    message (effect (associate "gdut"))
    ∷ message (effect (portal_auth address 1000))
    ∷ idle
    ∷ message (shutdown_with (teardown_routes ∷ []))
    ∷ []

lane_answered_example :
    (Worker.run no_json refusing counting lane worker).1.egress.ops
    ≡ worker.egress.ops + asked no_json refusing counting login lane
lane_answered_example =
    lane_answered no_json refusing counting login refl (λ t. t) counting-IsTally (λ t. refl) lane
      worker

abbrev endpoint : WlanEndpoint
endpoint = record { gateway = address; ifindex = 12 }

-- What the supervisor sends between the two, and the timer of the worker.
abbrev settling : List (Waking no_json refusing radio)
settling = message (effect (settle 500)) ∷ idle ∷ []

egress_blocks-login_example :
    let acquiring = message (effect (acquire_wireless_egress endpoint)) in
    let logging_in = message (effect (portal_auth address 1000)) in
    let w1 = (Worker.run no_json refusing radio (acquiring ∷ settling) worker).1 in
    let cleaned = retried no_json refusing radio w1 in
    let error = "Wireless Egress acquisition failed: " <+> "access denied" in
    Worker.run no_json refusing radio (acquiring ∷ settling ++ logging_in ∷ []) worker ≡ (
      false,
      in_world
          (radio.send (portal_finished (failed error)) cleaned.egress.ops)
          (record cleaned { egress_error = none }),
    )
unfolding acquire Egress.new retried
egress_blocks-login_example =
    egress_blocks-login no_json refusing radio endpoint settling address 1000 worker refl
      (refl, (refl, tt))
