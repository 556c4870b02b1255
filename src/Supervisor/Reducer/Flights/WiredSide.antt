-- ===== src/Supervisor/Reducer/Flights/WiredSide.antt =====
-- The handlers of src/supervisor.rs on the wired side cover their requests.
use gdut_net.Base.{ℕ, String, Bool, Option, arith}
use gdut_net.Protocol.{Command, HeartbeatStatus}
use gdut_net.Supervisor.State.{Supervisor}
use gdut_net.Supervisor.Notification.{maybe_notify}
use gdut_net.Supervisor.Types.{WatchdogStep, wake, link_sampled}
use gdut_net.Supervisor.Wired.{
  push_event, handle_wake, wake_link, wake_wireless, handle_command, handle_link_sampled,
  link_changed, serve_step, handle_watchdog_stepped, handle_heartbeat, notify_via, after_step,
  step_failing,
}
use gdut_net.Supervisor.Reducer.{handle_stop}
use gdut_net.Supervisor.Reducer.Flights.{
  bit, count, Kind, link_sampling, wireless_sampling, association, login, probing, asks, ends,
  in_flight, Covered,
}

pub wake-Covered :
    (k : Kind) (now : ℕ) (s : Supervisor)
    → Covered k s (handle_wake now s).1 (bit (ends k wake)) (handle_wake now s).0
unfolding ends count asks in_flight handle_wake wake_link wake_wireless
wake-Covered link_sampling now s = ground arith
wake-Covered wireless_sampling now s = ground arith
wake-Covered association now s = ground arith
wake-Covered login now s = ground arith
wake-Covered probing now s = ground arith

pub link_sampled-Covered :
    (k : Kind) (up : Option Bool) (ip : Option String) (now wall : ℕ) (s : Supervisor)
    → Covered k s
        (handle_link_sampled up ip now wall s).1
        (bit (ends k (link_sampled up ip)))
        (handle_link_sampled up ip now wall s).0
unfolding asks in_flight ends count handle_link_sampled link_changed serve_step push_event
link_sampled-Covered link_sampling up ip now wall s = ground arith
link_sampled-Covered wireless_sampling up ip now wall s = ground arith
link_sampled-Covered association up ip now wall s = ground arith
link_sampled-Covered login up ip now wall s = ground arith
link_sampled-Covered probing up ip now wall s = ground arith

pub command-Covered :
    (k : Kind) (cmd : Command) (wall : ℕ) (s : Supervisor)
    → Covered k s (handle_command cmd wall s).1 0 (handle_command cmd wall s).0
unfolding in_flight count asks handle_command push_event
command-Covered link_sampling cmd wall s = ground arith
command-Covered wireless_sampling cmd wall s = ground arith
command-Covered association cmd wall s = ground arith
command-Covered login cmd wall s = ground arith
command-Covered probing cmd wall s = ground arith

pub stepped-Covered :
    (k : Kind) (st : WatchdogStep) (now : ℕ) (s : Supervisor)
    → Covered k s (handle_watchdog_stepped st now s).1 0 (handle_watchdog_stepped st now s).0
unfolding in_flight count asks handle_watchdog_stepped after_step step_failing notify_via
    maybe_notify
stepped-Covered link_sampling st now s = ground arith
stepped-Covered wireless_sampling st now s = ground arith
stepped-Covered association st now s = ground arith
stepped-Covered login st now s = ground arith
stepped-Covered probing st now s = ground arith

pub heartbeat-Covered :
    (k : Kind) (h : HeartbeatStatus) (now : ℕ) (s : Supervisor)
    → Covered k s (handle_heartbeat h now s).1 0 (handle_heartbeat h now s).0
unfolding in_flight count asks handle_heartbeat notify_via maybe_notify
heartbeat-Covered link_sampling h now s = ground arith
heartbeat-Covered wireless_sampling h now s = ground arith
heartbeat-Covered association h now s = ground arith
heartbeat-Covered login h now s = ground arith
heartbeat-Covered probing h now s = ground arith

pub stop-Covered :
    (k : Kind) (wall : ℕ) (s : Supervisor)
    → Covered k s (handle_stop wall s).1 0 (handle_stop wall s).0
unfolding in_flight count asks handle_stop push_event
stop-Covered link_sampling wall s = ground arith
stop-Covered wireless_sampling wall s = ground arith
stop-Covered association wall s = ground arith
stop-Covered login wall s = ground arith
stop-Covered probing wall s = ground arith
