-- ===== src/Runtime/Loop.antt =====
-- The main loop of src/runtime.rs, `run`, from the shell's assembly to the handover at the end. What
-- is ready at each turn of its select is the parameter `Ready`.
pub mod InSync
pub mod Stopping
use gdut_net.Base.{
  ℕ, ◌*◌, String, Bool, true, false, Option, none, some, List, [], ◌∷◌, ◌++◌, ◌&&◌, length,
  if◌then◌else◌, is_some,
}
use gdut_net.Backoff.{from_secs, auth_fail_delay}
use gdut_net.Config.{Config}
use gdut_net.Protocol.{Command, HeartbeatStatus}
use gdut_net.Runtime.Shell.{Host, Shell, LaneMsg, shutdown_with, drain}
use gdut_net.Supervisor.State
use gdut_net.Supervisor.Types.{
  Event, started, wake, stop, wireless_died, command, heartbeat, Effect,
}
use gdut_net.Watchdog
use gdut_net.Watchdog.{Devices, WatchdogCfg}
use gdut_net.Wireless.Portal.{Json}

-- A branch that is ready has what it gives: a message, or the end of its channel.
pub record Ready : Type 0 where
  pub stop_cancelled : Bool
  pub command : Option (Option Command)
  pub heartbeat : Option (Option HeartbeatStatus)
  pub wireless : Option (Option Event)

-- The shell, and the loop's own variables.
pub record Loop (D : Type 0) : Type 0 where
  pub shell : Shell D
  pub queue : List Event
  pub hb_alive : Bool
  pub wireless_alive : Bool

-- The watchdog's timing.
abbrev pub watchdog_cfg : Config → WatchdogCfg
watchdog_cfg cfg = record {
  redial_min = from_secs 1;
  redial_max = from_secs 300;
  probe_interval = from_secs cfg.dial.probe_interval_secs;
  auth_fail_delay = auth_fail_delay;
}

module _ {D : Type 0} where
  -- The shell before the first event.
  unfoldable pub assemble : Config → D → Shell D
  unfolding State.new Watchdog.new
  assemble cfg d = record {
    core = State.new cfg;
    watchdog = Watchdog.new d (watchdog_cfg cfg);
    cfg = cfg;
    shutdown_effects = [];
    stopping = false;
    wake_at = none;
  }

  -- The loop's variables before the first drain.
  abbrev pub unstarted : Config → Bool → D → Loop D
  unstarted cfg worker d = record {
    shell = assemble cfg d;
    queue = started ∷ [];
    hb_alive = true;
    wireless_alive = worker;
  }

  -- The queue has one more event.
  abbrev pub push : Event → Loop D → Loop D
  push event l = record l { queue = l.queue ++ event ∷ [] }

  -- The stop: what is queued is dropped.
  abbrev pub begin_stop : Loop D → Loop D
  begin_stop l = record l { shell = record (l.shell) { stopping = true }; queue = stop ∷ [] }

  -- The lowest branches: the wireless worker's events, while it lives, and the timer.
  unfoldable pub select_wireless : Ready → Loop D → Loop D
  select_wireless r l =
      let event : Option (Option Event) = if l.wireless_alive then r.wireless else none in
      elim event [
        | none ↦ push wake l
        | some none ↦ push wireless_died (record l { wireless_alive = false })
        | some (some e) ↦ push e l
      ]

  unfoldable pub select_heartbeat : Ready → Loop D → Loop D
  unfolding select_wireless
  select_heartbeat r l =
      let status : Option (Option HeartbeatStatus) = if l.hb_alive then r.heartbeat else none in
      elim status [
        | none ↦ select_wireless r l
        | some none ↦ record l { hb_alive = false }
        | some (some st) ↦ push (heartbeat st) l
      ]

  -- The biased select: the first branch that is ready, and is not disabled.
  unfoldable pub select : Ready → Loop D → Loop D
  unfolding select_heartbeat
  select r l =
      let rest : Loop D = elim r.command [
        | none ↦ select_heartbeat r l
        | some none ↦ begin_stop l
        | some (some cmd) ↦ push (command cmd) l
      ] in
      if r.stop_cancelled then begin_stop l else rest

module _ {D : Type 0} (J : Json) (io : Devices D) (host : Host D) where
  -- The shell drains the queue.
  unfoldable pub drained : Loop D → Loop D
  unfolding drain
  drained l =
      let (queue, sh) = drain J io host l.queue l.shell in record l { queue = queue; shell = sh }

  -- One turn of the loop, which is left once the shell is stopping.
  unfoldable pub turn : Ready → Loop D → Loop D
  unfolding select drained
  turn r l = if l.shell.stopping then l else drained (select r l)

  -- The first drain, before the loop.
  unfoldable pub begin : Config → Bool → D → Loop D
  unfolding assemble drained
  begin cfg worker d = drained (unstarted cfg worker d)

  unfoldable pub turns : List Ready → Loop D → Loop D
  unfolding turn
  turns [] l = l
  turns (r ∷ rs) l = turns rs (turn r l)

  -- The handover to the worker, after the loop.
  unfoldable pub handover : Loop D → Loop D
  handover l =
      let sh = l.shell in
      let (_, d) = host.send_lane (shutdown_with sh.shutdown_effects) sh.watchdog.devices in
      record l {
        shell = record sh {
          shutdown_effects = [];
          watchdog = record (sh.watchdog) { devices = d };
        };
      }
