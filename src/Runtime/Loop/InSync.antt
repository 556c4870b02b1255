-- ===== src/Runtime/Loop/InSync.antt =====
-- The invariant of the main loop.
use gdut_net.Base.{◌*◌, ◌≡◌, Bool, true, false, List, [], ◌∷◌, length, arith, if◌then◌else◌}
use gdut_net.Config.{Config}
use gdut_net.Runtime.Loop.{
  Ready, Loop, assemble, select_wireless, select_heartbeat, select, drained, turn, unstarted, begin,
  turns,
}
use gdut_net.Runtime.Shell.{Host, drain}
use gdut_net.Runtime.Shell.Draining.{drain_ends}
use gdut_net.Runtime.Shell.InSync.{IsInSync, drain_within-IsInSync}
use gdut_net.Supervisor.State
use gdut_net.Supervisor.State.{without_wireless, with_targets}
use gdut_net.Watchdog
use gdut_net.Watchdog.{Devices}
use gdut_net.Wireless.Portal.{Json}

module _ {D : Type 0} (J : Json) (io : Devices D) (host : Host D) where
  -- Nothing is queued, and the watchdog knows the supervisor's link state.
  abbrev pub IsSettled : Loop D → Type 0
  IsSettled l = (l.queue ≡ []) × (l.shell.watchdog.eth_link ≡ l.shell.core.eth_link)

  drained-IsSettled : (l : Loop D) → IsInSync J io host l.shell → IsSettled (drained J io host l)
  unfolding drained drain
  drained-IsSettled l h = (
    drain_ends J io host l.queue l.shell,
    drain_within-IsInSync J io host (5 * length l.queue) l.queue l.shell h,
  )

  select-IsInSync :
      (r : Ready) (l : Loop D) → IsInSync J io host l.shell → IsInSync J io host (select r l).shell
  unfolding select select_heartbeat select_wireless
  select-IsInSync r l h = ground (arith, h)

  stopped_or :
      (c : Bool) (a b : Loop D) → IsSettled a → IsSettled b → IsSettled (if c then a else b)
  stopped_or true a b ha hb = ha
  stopped_or false a b ha hb = hb

  turn-IsSettled : (r : Ready) (l : Loop D) → IsSettled l → IsSettled (turn J io host r l)
  unfolding turn
  turn-IsSettled r l (q, h) =
      stopped_or l.shell.stopping l (drained J io host (select r l)) (q, h)
        (drained-IsSettled (select r l) (select-IsInSync r l h))

  turns-IsSettled : (rs : List Ready) (l : Loop D) → IsSettled l → IsSettled (turns J io host rs l)
  unfolding turns
  turns-IsSettled [] l h = h
  turns-IsSettled (r ∷ rs) l h = turns-IsSettled rs (turn J io host r l) (turn-IsSettled r l h)

  assemble-IsInSync : (cfg : Config) (d : D) → IsInSync J io host (assemble cfg d)
  unfolding assemble State.new without_wireless with_targets Watchdog.new
  assemble-IsInSync cfg d = ground arith

  -- From the assembly on, whatever becomes ready at each turn, and whatever the calls of the world
  -- answer: between the turns every event has been handled, and the watchdog has the link state
  -- that the supervisor decided on.
  pub loop_settled :
      (cfg : Config) (worker : Bool) (d : D) (rs : List Ready)
      → let l = turns J io host rs (begin J io host cfg worker d) in
        (l.queue ≡ []) × (l.shell.watchdog.eth_link ≡ l.shell.core.eth_link)
  unfolding begin
  loop_settled cfg worker d rs =
      turns-IsSettled rs (begin J io host cfg worker d)
        (drained-IsSettled (unstarted cfg worker d) (assemble-IsInSync cfg d))
