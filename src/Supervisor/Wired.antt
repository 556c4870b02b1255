-- ===== src/Supervisor/Wired.antt =====
-- The handlers of src/supervisor.rs on the wired side. Each returns the new state and the effects
-- that it pushes, in order.
use gdut_net.Base.{
  ℕ, ◌-◌, ◌/◌, String, Bool, true, false, not, Option, none, some, List, [], ◌∷◌, ◌++◌, ◌&&◌, ◌||◌,
  leb, min, str_eq, if◌then◌else◌, is_some, is_some_and, unwrap_or, add64, saturating_add, u64_max,
  ◌<+>◌, decimal,
}
use gdut_net.Protocol.{
  SessionStatus, HeartbeatStatus, NetMode, wired_exclusive, wired_plus_standby, Command, redial,
  set_mode,
}
use gdut_net.Protocol.EventLog
use gdut_net.Supervisor.Notification.{maybe_notify}
use gdut_net.Supervisor.State.{Supervisor}
use gdut_net.Supervisor.Types.{
  Effect, step_watchdog, request_redial, sample_link, sample_wireless, set_watchdog_link,
  cleanup_stale_routes, persist_mode, WatchdogStep, ToastKey, heartbeat_error, redial_failing,
  link_poll_ms, wireless_tick_ms, sample_retry_ms, redial_failing_toast_after_ms,
}
use gdut_net.Watchdog.{is_down, link_down_reason}
use gdut_net.Wireless.Brain
use gdut_net.Wireless.Brain.{Brain}

-- `self.events.push`
unfoldable pub push_event : ℕ → String → Supervisor → Supervisor
unfolding EventLog.push
push_event wall msg s = record s { events = EventLog.push s.events wall msg }

-- mode_text
unfoldable pub mode_text : NetMode → String
mode_text wired_exclusive = "wired-exclusive"
mode_text wired_plus_standby = "wired-plus-standby"

-- duration_ms
unfoldable pub duration_ms : ℕ → ℕ
duration_ms d = min (d / 1000000) u64_max

unfoldable pub handle_started : ℕ → ℕ → Supervisor → Supervisor × List Effect
unfolding push_event mode_text add64
handle_started now wall s =
    let s1 =
      push_event wall ("Service started, mode " <+> mode_text s.mode)
        (record s { started = true }) in
    let s2 = record s1 { watchdog_deadline = some now; link_poll_at = now } in
    if is_some s.brain
    then (
      record s2 { wireless_sample_in_flight = true; wireless_tick_at = add64 now wireless_tick_ms },
      cleanup_stale_routes ∷ sample_wireless ∷ [],
    )
    else (s2, [])

-- Part (a) of `handle_wake`: a due step wants a fresh link sample first.
unfoldable pub wake_link : ℕ → Supervisor → Supervisor × List Effect
unfolding add64
wake_link now s =
    let due = is_some_and s.watchdog_deadline (λ d. leb d now) in
    let s1 = record s {
      watchdog_deadline = if due then none else s.watchdog_deadline;
      step_pending = due || s.step_pending;
    } in
    if s1.step_pending || leb s1.link_poll_at now
    then (if not s1.sample_in_flight
        then (
          record s1 { sample_in_flight = true; link_poll_at = add64 now link_poll_ms },
          sample_link ∷ [],
        )
        else if leb s1.link_poll_at now
        then (record s1 { link_poll_at = add64 now sample_retry_ms }, [])
        else (s1, []))
    else (s1, [])

-- Part (b) of `handle_wake`: the wireless tick.
unfoldable pub wake_wireless : ℕ → Supervisor → Supervisor × List Effect
unfolding add64
wake_wireless now s =
    let ticked = record s { wireless_tick_at = add64 now wireless_tick_ms } in
    if is_some s.brain && leb s.wireless_tick_at now
    then (if not s.wireless_sample_in_flight
        then (record ticked { wireless_sample_in_flight = true }, sample_wireless ∷ [])
        else (ticked, []))
    else (s, [])

unfoldable pub handle_wake : ℕ → Supervisor → Supervisor × List Effect
unfolding wake_link wake_wireless
handle_wake now s =
    let (s1, fx1) = wake_link now s in let (s2, fx2) = wake_wireless now s1 in (s2, fx1 ++ fx2)

-- `if let Some(brain) = self.brain.as_mut()`
abbrev pub with_brain : (Brain → Brain) → Option Brain → Option Brain
with_brain f none = none
with_brain f (some b) = some (f b)

unfoldable pub handle_command : Command → ℕ → Supervisor → Supervisor × List Effect
unfolding push_event mode_text Brain.set_mode
handle_command redial wall s =
    (record s { watchdog_deadline = none }, request_redial ∷ step_watchdog ∷ [])
handle_command (set_mode mode) wall s =
    let s1 = record s { mode = mode; brain = with_brain (Brain.set_mode mode) s.brain } in
    (push_event wall ("Mode switched to " <+> mode_text mode) s1, persist_mode mode ∷ [])

-- `==` of link states
abbrev pub same_link : Option Bool → Option Bool → Bool
same_link none none = true
same_link (some true) (some true) = true
same_link (some false) (some false) = true
same_link _ _ = false

-- `up.or(old)`
abbrev pub or_link : Option Bool → Option Bool → Option Bool
or_link none old = old
or_link (some up) old = some up

-- A changed link state, with the one before: an unplugged cable, a plugged one, another change.
unfoldable pub link_changed :
    Option Bool → Option Bool → ℕ → ℕ → Supervisor → Supervisor × List Effect
unfolding add64 push_event
link_changed old next now wall s =
    let polled = record s { eth_link = next; link_poll_at = add64 now link_poll_ms } in
    if is_down next
    then (polled, set_watchdog_link next ∷ [])
    else if is_down old
    then (
      record (push_event wall "Ethernet link restored, redialing" polled) {
        watchdog_deadline = none;
        step_pending = false;
      },
      set_watchdog_link next ∷ request_redial ∷ step_watchdog ∷ [],
    )
    else (polled, set_watchdog_link next ∷ [])

-- The step that the sample was taken for.
unfoldable pub serve_step : Supervisor × List Effect → Supervisor × List Effect
serve_step (s, fx) =
    if s.step_pending
    then (record s { step_pending = false }, fx ++ step_watchdog ∷ [])
    else (s, fx)

unfoldable pub handle_link_sampled :
    Option Bool → Option String → ℕ → ℕ → Supervisor → Supervisor × List Effect
unfolding link_changed serve_step add64
handle_link_sampled up ppp_ip now wall s =
    let old = s.eth_link in
    let next = if s.link_sample_seen then or_link up old else up in
    let s1 = record s { sample_in_flight = false; ppp_ip = ppp_ip; link_sample_seen = true } in
    if not s.sample_in_flight
    then (s, [])
    else serve_step (
        if same_link next old
        then (record s1 { link_poll_at = add64 now link_poll_ms }, [])
        else link_changed old next now wall s1)

-- `last_drop_reason.as_deref() == Some("Ethernet link down")`
abbrev pub is_link_down_reason : Option String → Bool
is_link_down_reason none = false
is_link_down_reason (some r) = str_eq r link_down_reason

-- The notification ledger's call, on the whole state.
unfoldable pub notify_via : ToastKey → String → String → ℕ → Supervisor → Supervisor × List Effect
unfolding maybe_notify
notify_via key title body now s =
    let (l, fx) = maybe_notify key title body now s.notifications in
    (record s { notifications = l }, fx)

-- A step that ended in Backoff or AuthFail.
unfoldable pub step_failing : ℕ → Supervisor → Supervisor × List Effect
unfolding notify_via
step_failing now s =
    let since = unwrap_or now s.failing_since_ms in
    let link_paused = is_down s.eth_link || is_link_down_reason s.session.last_drop_reason in
    let body =
      "Redial failed for "
      <+> decimal ((now - since) / 60000)
      <+> " minutes ("
      <+> decimal s.session.redial_attempts
      <+> " attempts), check network or credentials" in
    let s1 = record s { failing_since_ms = some since } in
    if leb redial_failing_toast_after_ms (now - since) && not link_paused
    then notify_via redial_failing "gdut-net network error" body now s1
    else (s1, [])

-- The match of `handle_watchdog_stepped` on the session's status.
unfoldable pub after_step : SessionStatus → ℕ → Supervisor → Supervisor × List Effect
unfolding step_failing
after_step SessionStatus.backoff now s = step_failing now s
after_step SessionStatus.auth_fail now s = step_failing now s
after_step SessionStatus.connected now s = (record s { failing_since_ms = none }, [])
after_step SessionStatus.idle now s = (s, [])
after_step SessionStatus.dialing now s = (s, [])

unfoldable pub handle_watchdog_stepped : WatchdogStep → ℕ → Supervisor → Supervisor × List Effect
unfolding after_step saturating_add duration_ms
handle_watchdog_stepped step now s = after_step step.session.status now (record s {
  session = step.session;
  ppp_ip = step.ppp_ip;
  step_pending = false;
  watchdog_deadline = some (saturating_add now (duration_ms step.delay));
})

unfoldable pub handle_heartbeat : HeartbeatStatus → ℕ → Supervisor → Supervisor × List Effect
unfolding notify_via
handle_heartbeat (HeartbeatStatus.error e) now s =
    let (s1, fx) =
      notify_via heartbeat_error "gdut-net heartbeat error"
        ("Compatibility heartbeat error: " <+> e) now s in
    (record s1 { heartbeat = HeartbeatStatus.error e }, fx)
handle_heartbeat status now s = (record s { heartbeat = status }, [])
