-- ===== src/Tests/Supervisor.antt =====
-- Supervisors on which the theorems of the reducer are applied.
use gdut_net.Base.{
  ℕ, ◌+◌, ◌≤◌, ◌<◌, ◌≡◌, refl, String, true, false, none, some, List, [], ◌∷◌, arith,
}
use gdut_net.Config.{Config, Account, dial_default, heartbeat_default, wireless_default}
use gdut_net.Ipv4.{Ipv4Addr}
use gdut_net.Probe.{ProbeVerdict}
use gdut_net.Protocol.{wired_plus_standby, WPhase}
use gdut_net.Supervisor.Radio.{handle_wireless_sampled}
use gdut_net.Supervisor.State.{Supervisor, without_wireless}
use gdut_net.Supervisor.Types.{wake, stop, link_sampled, Effect, hangup, associate, WirelessSample}
use gdut_net.Supervisor.Reducer.{Input, on, run}
use gdut_net.Supervisor.Reducer.Flights.{count, link_sampling, asks, in_flight, bit}
use gdut_net.Supervisor.Reducer.Flights.Balance.{ended, one_in_flight}
use gdut_net.Supervisor.Reducer.Joining.{lost, rejoin_restarts}
use gdut_net.Supervisor.Reducer.Lifecycle.{stop_final}
use gdut_net.Supervisor.Reducer.Login.{BehindRoute, login_routed}
use gdut_net.Supervisor.Reducer.Waking.{wake_progress}
use gdut_net.Wireless.Brain
use gdut_net.Wireless.Brain.{Brain}
use gdut_net.Wireless.Portal.{Json}

-- A JSON library that reads nothing.
abbrev no_json : Json
no_json = record {
  Value = String;
  from_str = λ text. none;
  get = λ v key. none;
  as_str = λ v. none;
  as_u64 = λ v. none;
  to_string = λ v. v;
}

abbrev account : Account
account = record { student_id = "3120000000"; password_blob = "" }

abbrev config : Config
config = record {
  account = account;
  dial = dial_default;
  heartbeat = heartbeat_default;
  wireless = wireless_default;
}

-- A started supervisor.
abbrev running : Supervisor
running = record (without_wireless config) {
  started = true;
  link_poll_at = 1000;
  watchdog_deadline = some 1000;
}

abbrev polls : List Input
polls =
    (wake, 1000, 0)
    ∷ (wake, 4000, 3)
    ∷ (link_sampled (some true) none, 4500, 3)
    ∷ (wake, 9000, 8)
    ∷ []

one_in_flight_example :
    (count (asks link_sampling) (run no_json polls running).1 ≤ ended link_sampling polls + 1)
    × (count (asks link_sampling) (run no_json polls running).1
          + bit (in_flight link_sampling running)
        ≤ ended link_sampling polls + bit (in_flight link_sampling (run no_json polls running).0))
unfolding without_wireless
one_in_flight_example = one_in_flight no_json link_sampling polls running refl

stop_final_example :
    ((rest : List Effect) × ((on no_json stop 5000 4 running).1.effects ≡ hangup ∷ rest))
    × ((on no_json stop 5000 4 running).1.wake_at ≡ none)
    × (run no_json polls (on no_json stop 5000 4 running).0
        ≡ ((on no_json stop 5000 4 running).0, []))
unfolding without_wireless
stop_final_example = stop_final no_json 5000 4 running polls refl refl

wake_progress_example :
    (at : ℕ) × ((on no_json wake 1000 0 running).1.wake_at ≡ some at)
    × (1000 < at)
    × (at ≤ 1000 + 2000)
unfolding without_wireless
wake_progress_example = wake_progress no_json 1000 0 running refl refl (omega arith) (omega arith)

abbrev gateway : Ipv4Addr
gateway = record { a = 10; b = 0; c = 0; d = 1 }

abbrev joined : WirelessSample
joined = record {
  associated = true;
  wlan = some (record {
    ipv4 = record { a = 10; b = 0; c = 0; d = 9 };
    gateway = some gateway;
    ifindex = 12;
  });
}

-- A brain that is online in standby mode.
abbrev online_brain : Brain
online_brain = record {
  mode = wired_plus_standby;
  phase = WPhase.online;
  unhealthy_since = none;
  healthy_since = none;
  last_probe_at = none;
  auth_busy = false;
  auth_fail_count = 0;
  next_auth_at = none;
  last_error = none;
  takeover_after = 8;
  release_after = 10;
  probe_interval = 30;
}

abbrev sampling : Supervisor
sampling = record (without_wireless config) {
  started = true;
  mode = wired_plus_standby;
  brain = some online_brain;
  wireless_sample_in_flight = true;
  portal_ip = some gateway;
  probe_ip = some gateway;
  join_since_ms = some 5000;
  verdict = some ProbeVerdict.alive;
}

abbrev joining_now : Supervisor
joining_now = record sampling { brain = some (record online_brain { phase = WPhase.joining }) }

login_routed_example : BehindRoute joined.wlan (handle_wireless_sampled joined 9000 8 joining_now).1
login_routed_example = login_routed joined 9000 8 joining_now

rejoin_restarts_example :
    ((handle_wireless_sampled lost 70000 69 sampling).1 ≡ associate "gdut" ∷ [])
    × ((handle_wireless_sampled lost 70000 69 sampling).0.brain
        ≡ some (Brain.restart (Brain.set_mode wired_plus_standby online_brain)))
unfolding without_wireless
rejoin_restarts_example =
    rejoin_restarts online_brain 70000 69 5000 sampling refl refl refl refl refl refl refl
      (omega arith)
