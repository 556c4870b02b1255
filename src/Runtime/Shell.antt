-- ===== src/Runtime/Shell.antt =====
-- Shell and the main loop of src/runtime.rs: the executor around the supervisor. The rest of the
-- world is the state D of the watchdog's devices, and the parameter `Host` has the calls that act
-- on it. Logging is left out.
pub mod Draining
pub mod InSync
use gdut_net.Base.{
  ℕ, zero, suc, ◌*◌, String, Bool, true, false, Option, none, some, List, [], ◌∷◌, ◌++◌, length,
  if◌then◌else◌, is_some,
}
use gdut_net.Adapter.{Gaa, AdapterInfo, ethernet_link_up, ppp_adapter_ip, wlan_adapter}
use gdut_net.Config.{Config, WirelessCfg}
use gdut_net.Ipv4.{Ipv4Addr, ipv4_text}
use gdut_net.Protocol.{Command, HeartbeatStatus, StateSnapshot}
use gdut_net.Supervisor.Reducer.{on}
use gdut_net.Supervisor.State.{Supervisor}
use gdut_net.Supervisor.Types.{
  WlanSample, Event, started, wake, stop, wireless_died, command, link_sampled, watchdog_stepped,
  wireless_sampled, heartbeat, notify_result, Effect, step_watchdog, request_redial, hangup,
  sample_link, sample_wireless, set_watchdog_link, persist_mode, notify, Lane, main, wireless, lane,
}
use gdut_net.Watchdog
use gdut_net.Watchdog.{Devices, Watchdog, run_once, set_eth_link, shutdown, view}
use gdut_net.Wireless.Portal.{Json}

pub data LaneMsg : Type 0 where
  effect : Effect → LaneMsg
  shutdown_with : List Effect → LaneMsg

-- `joined` says whether a blocking task comes back; `read_clock` gives the monotonic milliseconds
-- and the wall clock's seconds; a send on the lane says whether the worker is there.
pub record Host (D : Type 0) : Type 0 where
  pub lower : String → String
  pub gaa : D → ℕ → Gaa
  pub associated : D → Bool
  pub joined : D → Bool × D
  pub read_clock : D → (ℕ × ℕ) × D
  pub save : Config → D → D
  pub toast : String → String → D → Bool × D
  pub publish : StateSnapshot → D → D
  pub send_lane : LaneMsg → D → Bool × D

pub record Shell (D : Type 0) : Type 0 where
  pub core : Supervisor
  pub watchdog : Watchdog D
  pub cfg : Config
  pub shutdown_effects : List Effect
  pub stopping : Bool
  pub wake_at : Option ℕ

-- The world of the shell, changed.
abbrev pub in_world : {D : Type 0} → D → Shell D → Shell D
in_world d sh = record sh { watchdog = record (sh.watchdog) { devices = d } }

abbrev pub address_text : Option Ipv4Addr → Option String
address_text none = none
address_text (some ip) = some (ipv4_text ip)

abbrev pub wlan_sample : Option AdapterInfo → Option WlanSample
wlan_sample none = none
wlan_sample (some a) = some (record { ipv4 = a.ipv4; gateway = a.gateway; ifindex = a.ifindex })

module _ {D : Type 0} (J : Json) (io : Devices D) (host : Host D) where
  -- `exec_main`; an effect of the other lane is only logged there.
  unfoldable pub exec_main : Effect → Shell D → Option Event × Shell D
  unfolding run_once set_eth_link Watchdog.request_redial shutdown view
  exec_main step_watchdog sh =
      let (w, delay) = run_once io sh.watchdog in
      let ip = ppp_adapter_ip (host.gaa w.devices) in
      (
        some (
            watchdog_stepped
              (record { delay = delay; session = view w; ppp_ip = address_text ip })),
        record sh { watchdog = w },
      )
  exec_main request_redial sh = (none, record sh { watchdog = Watchdog.request_redial sh.watchdog })
  exec_main (set_watchdog_link up) sh = (none, record sh { watchdog = set_eth_link up sh.watchdog })
  exec_main hangup sh = (none, record sh { watchdog = shutdown io sh.watchdog })
  exec_main sample_link sh =
      let (joined, d) = host.joined sh.watchdog.devices in
      let gaa = host.gaa d in
      (
        some (
            if joined
            then link_sampled (ethernet_link_up host.lower gaa) (address_text (ppp_adapter_ip gaa))
            else link_sampled none none),
        in_world d sh,
      )
  exec_main sample_wireless sh =
      let (joined, d) = host.joined sh.watchdog.devices in
      (
        some (
            wireless_sampled (record {
              associated = if joined then host.associated d else false;
              wlan = if joined then wlan_sample (wlan_adapter host.lower (host.gaa d)) else none;
            })),
        in_world d sh,
      )
  exec_main (persist_mode mode) sh =
      let wl = record (sh.cfg.wireless) { mode = mode } in
      let cfg = record (sh.cfg) { wireless = wl } in
      (none, record (in_world (host.save cfg sh.watchdog.devices) sh) { cfg = cfg })
  exec_main (notify key title body) sh =
      let (delivered, d) = host.toast title body sh.watchdog.devices in
      (some (notify_result key delivered), in_world d sh)
  exec_main _ sh = (none, sh)

  -- An effect on the wireless lane: sent to the worker, or kept for the handover.
  unfoldable pub exec_wireless : Effect → Shell D → Shell D
  exec_wireless e sh =
      let (_, d) = host.send_lane (effect e) sh.watchdog.devices in
      if sh.stopping
      then record sh { shutdown_effects = sh.shutdown_effects ++ e ∷ [] }
      else in_world d sh

  -- One effect: its result event, if it has one.
  unfoldable pub exec : Effect → Shell D → Option Event × Shell D
  unfolding exec_main exec_wireless lane
  exec e sh = elim (lane e) [ main ↦ exec_main e sh | wireless ↦ (none, exec_wireless e sh) ]

  -- The effects of a reaction, in order: their result events, in order.
  unfoldable pub exec_all : List Effect → Shell D → List Event × Shell D
  unfolding exec
  exec_all [] sh = ([], sh)
  exec_all (e ∷ es) sh =
      let (result, sh1) = exec e sh in
      let (results, sh2) = exec_all es sh1 in
      (elim result [ none ↦ results | some event ↦ event ∷ results ], sh2)

  -- The body of `drain`, for the event at the front.
  unfoldable pub handle : Event → Shell D → List Event × Shell D
  unfolding on exec_all
  handle event sh =
      let ((now, wall), d) = host.read_clock sh.watchdog.devices in
      let (core, reaction) = on J event now wall sh.core in
      let d1 : D = elim reaction.snapshot [ none ↦ d | some snapshot ↦ host.publish snapshot d ] in
      exec_all reaction.effects
        (record (in_world d1 sh) { core = core; wake_at = reaction.wake_at })

  -- `drain`, on fuel: the events that are left, and the shell.
  unfoldable pub drain_within : ℕ → List Event → Shell D → List Event × Shell D
  unfolding handle
  drain_within fuel [] sh = ([], sh)
  drain_within zero (event ∷ queue) sh = (event ∷ queue, sh)
  drain_within (suc fuel) (event ∷ queue) sh =
      let (results, sh1) = handle event sh in drain_within fuel (queue ++ results) sh1

  unfoldable pub drain : List Event → Shell D → List Event × Shell D
  unfolding drain_within
  drain queue sh = drain_within (5 * length queue) queue sh
