-- ===== src/Runtime/Loop/Stopping.antt =====
-- The turn in which the loop stops.
use gdut_net.Base.{
  ℕ, ◌≡◌, refl, ap, sym, ◌∙◌, subst, append-nil, append_assoc, not, Bool, true, false, none, some,
  List, [], ◌∷◌, ◌++◌, ◌&&◌, arith, is_some, if◌then◌else◌,
}
use gdut_net.Runtime.Loop.{Ready, Loop, select, drained, turn, turns, begin_stop}
use gdut_net.Runtime.Shell.{
  Host, Shell, in_world, exec_main, exec_wireless, exec, exec_all, handle, drain_within, drain,
}
use gdut_net.Runtime.Shell.Draining.{drain_ends}
use gdut_net.Supervisor.Reducer.{handle_stop, dispatch, on, on_flags}
use gdut_net.Supervisor.Reducer.Snapshots.{react_effects}
use gdut_net.Supervisor.State.{Supervisor}
use gdut_net.Supervisor.Types.{Effect, stop, hangup, teardown_routes, disassociate, lane}
use gdut_net.Watchdog.{Devices, shutdown}
use gdut_net.Wireless.Portal.{Json}

-- A test by its value.
when : {A : Type 0} (c : Bool) (a b : A) → c ≡ true → (if c then a else b) ≡ a
when true a b h = refl
when false a b h = absurd (ground (arith, h))

unless : {A : Type 0} (c : Bool) (a b : A) → c ≡ false → (if c then a else b) ≡ b
unless true a b h = absurd (ground (arith, h))
unless false a b h = refl

-- The wireless manager is there.
abbrev pub is_managed : Supervisor → Bool
is_managed s = s.cfg.wireless.enabled && not s.wireless_died && is_some s.brain

-- What the worker is left with at the stop.
abbrev pub teardown_of : Bool → List Effect
teardown_of managed = if managed then teardown_routes ∷ disassociate ∷ [] else []

stop_effects :
    (wall : ℕ) (s : Supervisor) → (handle_stop wall s).1 ≡ hangup ∷ teardown_of (is_managed s)
unfolding handle_stop
stop_effects wall s = ground arith

flags_stop :
    (json : Json) (now wall : ℕ) (s : Supervisor) (began over : Bool)
    → began ≡ true
    → over ≡ false
    → (on_flags json began over stop now wall s).1.effects ≡ hangup ∷ teardown_of (is_managed s)
unfolding on_flags dispatch
flags_stop json now wall s false over b o = absurd (ground (arith, b))
flags_stop json now wall s true true b o = absurd (ground (arith, o))
flags_stop json now wall s true false b o =
    react_effects json now (handle_stop wall s).0 (handle_stop wall s).1 ∙ stop_effects wall s

on_stop :
    (json : Json) (now wall : ℕ) (s : Supervisor)
    → s.started ≡ true
    → s.stopped ≡ false
    → (on json stop now wall s).1.effects ≡ hangup ∷ teardown_of (is_managed s)
unfolding on
on_stop json now wall s b o = flags_stop json now wall s s.started s.stopped b o

module _ {D : Type 0} (J : Json) (io : Devices D) (host : Host D) where
  -- A stopped shell: the session is hung up, and the worker's last effects are kept.
  abbrev pub HungUp : D → List Effect → Shell D → Type 0
  HungUp d kept sh =
      (sh.stopping ≡ true) × (sh.watchdog.devices ≡ io.hangup d) × (sh.shutdown_effects ≡ kept)

  exec_stop :
      (managed : Bool) (sh : Shell D)
      → sh.stopping ≡ true
      → let r = exec_all J io host (hangup ∷ teardown_of managed) sh in
        (r.0 ≡ []) × HungUp sh.watchdog.devices (sh.shutdown_effects ++ teardown_of managed) r.1
  unfolding exec_all exec exec_main exec_wireless lane shutdown
  exec_stop true sh h =
      let joined = append_assoc sh.shutdown_effects (teardown_routes ∷ []) (disassociate ∷ []) in
      rw h (refl, (refl, refl, joined))
  exec_stop false sh h = (refl, (h, refl, sym (append-nil sh.shutdown_effects)))

  -- The rest of the drain, of the effects of the stop.
  rest_stop :
      (managed : Bool) (es : List Effect) (sh : Shell D)
      → es ≡ hangup ∷ teardown_of managed
      → sh.stopping ≡ true
      → let r = exec_all J io host es sh in
        HungUp sh.watchdog.devices
          (sh.shutdown_effects ++ teardown_of managed)
          (drain_within J io host 4 ([] ++ r.0) r.1).1
  unfolding drain_within
  rest_stop managed es sh e h =
      let kept = sh.shutdown_effects ++ teardown_of managed in
      let (none_left, hung) = exec_stop managed sh h in
      subst
        (λ fx.
          let r = exec_all J io host fx sh in
          HungUp sh.watchdog.devices kept (drain_within J io host 4 ([] ++ r.0) r.1).1)
        (sym e)
        (let r = exec_all J io host (hangup ∷ teardown_of managed) sh in
          subst (λ q. HungUp sh.watchdog.devices kept (drain_within J io host 4 ([] ++ q) r.1).1)
            (sym none_left) hung)

  -- The drain of a stop.
  drain_stop :
      (sh : Shell D)
      → sh.stopping ≡ true
      → sh.core.started ≡ true
      → sh.core.stopped ≡ false
      → (d : D) × HungUp d
          (sh.shutdown_effects ++ teardown_of (is_managed sh.core))
          (drain J io host (stop ∷ []) sh).1
  unfolding drain drain_within handle
  drain_stop sh h began running =
      let ((now, wall), d) = host.read_clock sh.watchdog.devices in
      let (core, reaction) = on J stop now wall sh.core in
      let d1 : D = elim reaction.snapshot [ none ↦ d | some snapshot ↦ host.publish snapshot d ] in
      let told = record (in_world d1 sh) { core = core; wake_at = reaction.wake_at } in
      (
        d1,
        rest_stop (is_managed sh.core) reaction.effects told
            (on_stop J now wall sh.core began running) h,
      )

  turn_stop :
      (r : Ready) (l : Loop D)
      → r.stop_cancelled ≡ true
      → l.shell.stopping ≡ false
      → turn J io host r l ≡ drained J io host (begin_stop l)
  unfolding turn select
  turn_stop r l asked running =
      unless l.shell.stopping l (drained J io host (select r l)) running
      ∙ ap (drained J io host) (when r.stop_cancelled (begin_stop l) _ asked)

  turns_stopped :
      (rs : List Ready) (l : Loop D) → l.shell.stopping ≡ true → turns J io host rs l ≡ l
  unfolding turns turn
  turns_stopped [] l h = refl
  turns_stopped (r ∷ rs) l h =
      ap (turns J io host rs) (when l.shell.stopping l (drained J io host (select r l)) h)
      ∙ turns_stopped rs l h

  -- A stop signal at a turn, of a supervisor that runs: the session is hung up in that very turn, as
  -- the last thing done, what was queued is dropped, and the worker's teardown and disassociation
  -- are kept for the handover, if there is a wireless manager, behind those kept already; the loop
  -- is then left, whatever becomes ready.
  pub stop_hands_over :
      (r : Ready) (rs : List Ready) (l : Loop D)
      → r.stop_cancelled ≡ true
      → l.shell.stopping ≡ false
      → l.shell.core.started ≡ true
      → l.shell.core.stopped ≡ false
      → let l' = turns J io host (r ∷ rs) l in
        let managed = is_managed l.shell.core in
        (l'.shell.stopping ≡ true)
        × ((d : D) × (l'.shell.watchdog.devices ≡ io.hangup d))
        × (l'.shell.shutdown_effects ≡ l.shell.shutdown_effects ++ teardown_of managed)
        × (l'.queue ≡ [])
  unfolding turns drained
  stop_hands_over r rs l asked running began live =
      let l' = drained J io host (begin_stop l) in
      let (d, (stopped, devices, effects)) = drain_stop (begin_stop l).shell refl began live in
      let same : turns J io host (r ∷ rs) l ≡ l' =
        ap (turns J io host rs) (turn_stop r l asked running) ∙ turns_stopped rs l' stopped in
      subst
        (λ m.
          (m.shell.stopping ≡ true)
          × ((x : D) × (m.shell.watchdog.devices ≡ io.hangup x))
          × (m.shell.shutdown_effects
              ≡ l.shell.shutdown_effects ++ teardown_of (is_managed l.shell.core))
          × (m.queue ≡ []))
        (sym same)
        (stopped, (d, devices), effects, drain_ends J io host (stop ∷ []) (begin_stop l).shell)
