-- ===== src/Runtime/Shell/InSync.antt =====
-- The link state that the watchdog knows is the supervisor's.
use gdut_net.Base.{
  ℕ, zero, suc, ◌≡◌, refl, ◌∙◌, Bool, Option, none, some, List, [], ◌∷◌, ◌++◌, arith,
}
use gdut_net.Supervisor.Reducer.{on}
use gdut_net.Supervisor.Reducer.Effects.{told, on-IsPaid}
use gdut_net.Supervisor.Types.{Event, Effect, lane}
use gdut_net.Runtime.Shell.{
  Host, Shell, in_world, exec_main, exec_wireless, exec, exec_all, handle, drain_within,
}
use gdut_net.Watchdog
use gdut_net.Watchdog.{Devices, set_eth_link, shutdown}
use gdut_net.Watchdog.Link.{run_once-eth_link}
use gdut_net.Wireless.Portal.{Json}

module _ {D : Type 0} (J : Json) (io : Devices D) (host : Host D) where
  exec-told :
      (e : Effect) (sh : Shell D)
      → ((exec J io host e sh).1.watchdog.eth_link ≡ told (e ∷ []) sh.watchdog.eth_link)
        × ((exec J io host e sh).1.core ≡ sh.core)
  unfolding exec exec_main exec_wireless lane told set_eth_link Watchdog.request_redial shutdown
  exec-told e sh = ground (arith, run_once-eth_link io sh.watchdog)

  told-cons :
      (e : Effect) (es : List Effect) (link : Option Bool)
      → told (e ∷ es) link ≡ told es (told (e ∷ []) link)
  unfolding told
  told-cons e es link = ground arith

  exec_all-told :
      (es : List Effect) (sh : Shell D)
      → ((exec_all J io host es sh).1.watchdog.eth_link ≡ told es sh.watchdog.eth_link)
        × ((exec_all J io host es sh).1.core ≡ sh.core)
  unfolding exec_all
  exec_all-told [] sh = unfold told in (refl, refl)
  exec_all-told (e ∷ es) sh =
      let (link, core) = exec-told e sh in
      let (links, cores) = exec_all-told es (exec J io host e sh).1 in
      (cc (link, links, told-cons e es sh.watchdog.eth_link), cores ∙ core)

  -- What the watchdog was told is what the supervisor knows.
  abbrev pub IsInSync : Shell D → Type 0
  IsInSync sh = sh.watchdog.eth_link ≡ sh.core.eth_link

  handle-IsInSync :
      (event : Event) (sh : Shell D) → IsInSync sh → IsInSync (handle J io host event sh).1
  unfolding handle
  handle-IsInSync event sh h =
      let ((now, wall), d) = host.read_clock sh.watchdog.devices in
      let (core, reaction) = on J event now wall sh.core in
      let d1 : D = elim reaction.snapshot [ none ↦ d | some snapshot ↦ host.publish snapshot d ] in
      let same = (on-IsPaid J event now wall sh.core).1 in
      let (link, kept) =
        exec_all-told reaction.effects
          (record (in_world d1 sh) { core = core; wake_at = reaction.wake_at }) in
      cc (link, kept, same, h)

  pub drain_within-IsInSync :
      (fuel : ℕ) (queue : List Event) (sh : Shell D)
      → IsInSync sh
      → IsInSync (drain_within J io host fuel queue sh).1
  unfolding drain_within
  drain_within-IsInSync fuel [] sh h = h
  drain_within-IsInSync zero (event ∷ queue) sh h = h
  drain_within-IsInSync (suc fuel) (event ∷ queue) sh h =
      let r = handle J io host event sh in
      drain_within-IsInSync fuel (queue ++ r.0) r.1 (handle-IsInSync event sh h)
