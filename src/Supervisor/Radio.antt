-- ===== src/Supervisor/Radio.antt =====
-- The handlers of src/supervisor.rs on the wireless side.
use gdut_net.Base.{
  ℕ, ◌-◌, ◌*◌, ◌/◌, String, Bool, true, false, not, Option, none, some, List, [], ◌∷◌, ◌++◌, ◌&&◌,
  ◌||◌, ltb, if◌then◌else◌, is_some, is_none, is_some_and, unwrap_or, ◌<+>◌, decimal,
}
use gdut_net.Ipv4.{ipv4_text, codes}
use gdut_net.Probe.{ProbeVerdict, alive, link_down, kicked}
use gdut_net.Protocol.{is_connected, is_exclusive, is_joining}
use gdut_net.Supervisor.State.{Supervisor}
use gdut_net.Supervisor.Types.{
  Effect, associate, disassociate, acquire_wireless_egress, suppress_metric, release_metric,
  teardown_routes, settle, portal_auth, wlan_probe, WlanSample, WirelessSample, PortalAttempt,
  replied, no_reply, timed_out, failed, route_settle,
}
use gdut_net.Supervisor.Wired.{push_event, with_brain}
use gdut_net.Watchdog.{verdict_text}
use gdut_net.Wireless.Brain
use gdut_net.Wireless.Brain.{Brain, World, Action, join_timeout_secs}
use gdut_net.Wireless.Portal.{
  Json, PortalResult, success, already_online, failure, malformed, parse_portal_reply,
  login_timeout,
}

-- `Some(true)`
abbrev pub is_up : Option Bool → Bool
is_up (some true) = true
is_up _ = false

-- The world of a sample.
abbrev pub world_of : Supervisor → Bool → ℕ → World
world_of s associated now_secs = record {
  now = now_secs;
  eth_link_up = unwrap_or false s.eth_link;
  wired_connected = is_connected s.session.status;
  wlan_associated = associated;
  wlan_ip = is_some s.wlan;
  probe = s.verdict;
}

-- A login that cannot start: the brain is told, and the cached verdict dropped.
unfoldable pub login_lost : String → ℕ → Supervisor → Supervisor
unfolding Brain.on_auth
login_lost msg now_secs s = record s {
  brain = with_brain (Brain.on_auth false msg now_secs) s.brain;
  verdict = none;
}

-- The action PortalAuth, with the WLAN's address and gateway.
unfoldable pub act_login : Option WlanSample → ℕ → Supervisor → Supervisor × List Effect × Bool
unfolding login_lost
act_login none now_secs s = (login_lost "wlan ip lost" now_secs s, [], false)
act_login (some wlan) now_secs s = elim wlan.gateway [
  | none ↦ (login_lost "wlan gateway missing" now_secs s, [], false)
  | some gateway ↦ if is_none s.portal_ip || is_none s.probe_ip then (s, [], true) else (
    record s { auth_in_flight = true },
    acquire_wireless_egress (record { gateway = gateway; ifindex = wlan.ifindex })
        ∷ settle route_settle
        ∷ portal_auth wlan.ipv4 login_timeout
        ∷ [],
    true,
  )
]

-- The action ProbeNow.
unfoldable pub act_probe : Option WlanSample → Supervisor → Supervisor × List Effect × Bool
act_probe none s = (s, [], false)
act_probe (some wlan) s = (
  record s { probe_in_flight = true },
  wlan_probe wlan.ipv4 wlan.gateway ("http://" <+> s.cfg.wireless.probe_host <+> "/") ∷ [],
  true,
)

-- `handle_action`: the new state, the effects, and whether the rest of the tick is carried out.
unfoldable pub handle_action : Action → ℕ → ℕ → Supervisor → Supervisor × List Effect × Bool
unfolding act_login act_probe push_event
handle_action Action.nothing now_secs wall s = (s, [], true)
handle_action Action.associate now_secs wall s = if s.associate_in_flight then (s, [], true) else (
  record (push_event wall "Wireless: associating to campus SSID" s) { associate_in_flight = true },
  associate s.cfg.wireless.profile ∷ [],
  true,
)
handle_action Action.disassociate now_secs wall s = (
  record (push_event wall "Wireless: releasing (wired healthy)" s) {
    verdict = none;
    join_since_ms = none;
  },
  teardown_routes ∷ disassociate ∷ [],
  true,
)
handle_action Action.portal_auth now_secs wall s =
    if s.auth_in_flight then (s, [], true) else act_login s.wlan now_secs s
handle_action Action.probe_now now_secs wall s =
    if s.probe_in_flight then (s, [], true) else act_probe s.wlan s

-- `wired_healthy` of `update_metric`
abbrev pub wired_healthy : Supervisor → Bool
wired_healthy s = is_up s.eth_link && is_connected s.session.status

unfoldable pub metric_effects : WlanSample → Supervisor → List Effect
metric_effects wlan s =
    let takeover_active = is_exclusive s.mode && not (wired_healthy s) in
    (if not (is_exclusive s.mode) || takeover_active
      then suppress_metric wlan.ifindex s.cfg.wireless.standby_metric ∷ []
      else [])
    ++ (if is_exclusive s.mode && wired_healthy s then release_metric ∷ [] else [])

-- `update_metric` changes no state.
unfoldable pub update_metric : Supervisor → List Effect
unfolding metric_effects
update_metric s = elim s.wlan [ none ↦ [] | some wlan ↦ metric_effects wlan s ]

-- `brain.phase() == WPhase::Joining`
abbrev pub brain_joining : Option Brain → Bool
brain_joining none = false
brain_joining (some b) = is_joining b.phase

-- The join has taken too long.
abbrev pub join_expired : Supervisor → ℕ → Bool
join_expired s now =
    brain_joining s.brain
    && is_some_and s.join_since_ms (λ t. ltb (join_timeout_secs * 1000) (now - t))

unfoldable pub restart_join : ℕ → Supervisor → Supervisor
unfolding push_event Brain.restart
restart_join wall s =
    let s1 = push_event wall "Wireless: join timeout, restarting" s in
    record s1 { brain = with_brain Brain.restart s1.brain; join_since_ms = none }

-- What follows the action in a tick: the metric, then the join timeout.
unfoldable pub after_action : ℕ → ℕ → Supervisor × List Effect × Bool → Supervisor × List Effect
unfolding update_metric restart_join
after_action now wall (s, fx, false) = (s, fx)
after_action now wall (s, fx, true) =
    (if join_expired s now then restart_join wall s else s, fx ++ update_metric s)

-- The decision of the brain on the sampled world, and its execution.
unfoldable pub tick_brain : Brain → Bool → ℕ → ℕ → Supervisor → Supervisor × List Effect
unfolding Brain.set_mode Brain.decide handle_action after_action
tick_brain brain associated now wall s =
    let (b, action) =
      Brain.decide (Brain.set_mode s.mode brain) (world_of s associated (now / 1000)) in
    after_action now wall (handle_action action (now / 1000) wall (record s { brain = some b }))

-- The sample on record; it ends its flight.
abbrev pub with_sample : WirelessSample → Supervisor → Supervisor
with_sample sample s = record s {
  wireless_sample_in_flight = false;
  wlan = sample.wlan;
  wireless_ip = elim sample.wlan [ none ↦ none | some a ↦ some (ipv4_text a.ipv4) ];
}

unfoldable pub handle_wireless_sampled :
    WirelessSample → ℕ → ℕ → Supervisor → Supervisor × List Effect
unfolding tick_brain
handle_wireless_sampled sample now wall s =
    if not s.wireless_sample_in_flight then (s, []) else elim s.brain [
      | none ↦ (record s { wireless_sample_in_flight = false }, [])
      | some brain ↦ tick_brain brain sample.associated now wall (with_sample sample s)
    ]

unfoldable pub handle_associate_finished : ℕ → Supervisor → Supervisor
handle_associate_finished now s =
    if s.associate_in_flight
    then record s { associate_in_flight = false; join_since_ms = some now }
    else s

unfoldable pub handle_probe_finished : ProbeVerdict → ℕ → Supervisor → Supervisor
unfolding push_event verdict_text
handle_probe_finished verdict wall s =
    let s1 = record s { probe_in_flight = false; verdict = some verdict } in
    let reported = push_event wall ("Wireless probe: " <+> verdict_text verdict) s1 in
    if not s.probe_in_flight
    then s
    else elim verdict [ alive ↦ s1 | link_down ↦ reported | kicked ↦ reported ]

unfoldable pub handle_wireless_died : ℕ → Supervisor → Supervisor
unfolding push_event
handle_wireless_died wall s =
    let reported = record (push_event wall "Wireless: manager stopped" s) {
      wireless_stopped_reported = true;
    } in
    let s1 = if s.wireless_stopped_reported then s else reported in
    if not s.cfg.wireless.enabled then s else record s1 {
      brain = none;
      wireless_died = true;
      wlan = none;
      wireless_ip = none;
      verdict = none;
      wireless_sample_in_flight = false;
      associate_in_flight = false;
      auth_in_flight = false;
      probe_in_flight = false;
      join_since_ms = none;
    }

-- The replies of `portal_outcome`: whether the login holds, and the message.
pub reply_outcome : ℕ → PortalResult → Bool × String
reply_outcome status success = (true, "login ok")
reply_outcome status already_online = (true, "already online")
reply_outcome status (failure m) = (false, m)
reply_outcome status malformed = (false, "unparseable reply (HTTP " <+> decimal status <+> ")")

module _ (J : Json) where
  -- portal_outcome
  unfoldable pub portal_outcome : PortalAttempt → Bool × String
  unfolding reply_outcome
  portal_outcome (replied status body) = reply_outcome status (parse_portal_reply J (codes body))
  portal_outcome no_reply = (false, "no reply")
  portal_outcome timed_out = (false, "portal auth timeout")
  portal_outcome (failed m) = (false, m)

  unfoldable pub handle_portal_finished : PortalAttempt → ℕ → ℕ → Supervisor → Supervisor
  unfolding portal_outcome push_event Brain.on_auth
  handle_portal_finished attempt now wall s =
      let (ok, msg) = portal_outcome attempt in
      let line =
        if ok
        then "Wireless: portal login success"
        else "Wireless: portal login failed: " <+> msg in
      let s1 = push_event wall line (record s { auth_in_flight = false }) in
      if not s.auth_in_flight then s else record s1 {
        brain = with_brain (Brain.on_auth ok msg (now / 1000)) s1.brain;
        verdict = none;
      }
