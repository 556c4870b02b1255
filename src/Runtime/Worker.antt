-- ===== src/Runtime/Worker.antt =====
-- WirelessWorker of src/runtime.rs: the serial executor of the wireless lane. The rest of the world
-- is the state T of the egress's operations; the parameter `Radio` has the calls that act on it. An
-- await that races with the stop token takes its whole effect on the world, and loses its result
-- where the token is cancelled. Logging is left out.
pub mod Answers
pub mod Blocked
pub mod Lane
pub mod Quiet
pub mod Serial
use gdut_net.Base.{
  ℕ, String, Bool, true, false, Option, none, some, List, [], ◌∷◌, ◌&&◌, ◌⊎◌, inl, inr,
  if◌then◌else◌, ◌<+>◌,
}
use gdut_net.Config.{Config}
use gdut_net.Http.{probe_target_ip}
use gdut_net.Ipv4.{Ipv4Addr, codes, parse_ipv4}
use gdut_net.Probe.{ProbeVerdict}
use gdut_net.Runtime.Shell.{LaneMsg, effect, shutdown_with}
use gdut_net.Supervisor.Types.{
  Event, associate_finished, portal_finished, wlan_probe_finished, Effect, cleanup_stale_routes,
  associate, disassociate, acquire_wireless_egress, suppress_metric, release_metric,
  teardown_routes, settle, portal_auth, wlan_probe, PortalAttempt, replied, failed, timed_out,
  WlanEndpoint,
}
use gdut_net.Wireless.Egress
use gdut_net.Wireless.Egress.{
  EgressOps, WirelessEgress, has_pending_cleanup, retry_cleanup, acquire, release,
}
use gdut_net.Wireless.Portal.{Json}
use gdut_net.Wireless.Portal.Login.{Http, Response, login}

-- `expires` is the world in which the worker's timer has won over a login, `http.expires` that of the
-- login's own; `associate` gives its error, and
-- `last_error` is the text of the error with which an acquire has left the world.
pub record Radio (T : Type 0) : Type 0 where
  pub cleanup_stale : List Ipv4Addr → T → T
  pub associate : String → T → Option String × T
  pub disassociate : T → T
  pub http : Http T
  pub expires : ℕ → T → Option T
  pub last_error : T → String
  pub probe_once : Ipv4Addr → Option Ipv4Addr → String → T → ProbeVerdict × T
  pub sleep : ℕ → T → T
  pub is_cancelled : T → Bool
  pub send : Event → T → T

pub record WirelessWorker (T : Type 0) : Type 0 where
  pub portal_url : List ℕ
  pub wlan_ac_ip : List ℕ
  pub user : List ℕ
  pub pass : List ℕ
  pub portal_ip : Ipv4Addr
  pub probe_ip : Ipv4Addr
  pub egress : WirelessEgress T
  pub egress_error : Option String

-- The world of the worker, changed.
abbrev pub in_world : {T : Type 0} → T → WirelessWorker T → WirelessWorker T
in_world t w = record w { egress = record (w.egress) { ops = t } }

-- The worker of the two addresses, where both parse. `utf8` is the bytes of a text.
abbrev pub of_targets :
    {T : Type 0}
    → Option Ipv4Addr
    → Option Ipv4Addr
    → (String → List ℕ)
    → Config
    → List ℕ
    → T
    → Option (WirelessWorker T)
of_targets (some portal_ip) (some probe_ip) utf8 cfg pass t = some (record {
  portal_url = utf8 cfg.wireless.portal_url;
  wlan_ac_ip = utf8 cfg.wireless.wlan_ac_ip;
  user = utf8 cfg.account.student_id;
  pass = pass;
  portal_ip = portal_ip;
  probe_ip = probe_ip;
  egress = Egress.new t;
  egress_error = none;
})
of_targets _ _ utf8 cfg pass t = none

unfoldable pub new :
    {T : Type 0} → (String → List ℕ) → Config → List ℕ → T → Option (WirelessWorker T)
unfolding Egress.new
new utf8 cfg pass t =
    of_targets (probe_target_ip (codes cfg.wireless.portal_url))
      (parse_ipv4 (codes cfg.wireless.probe_host)) utf8 cfg pass t

abbrev unspecified : Ipv4Addr
unspecified = record { a = 0; b = 0; c = 0; d = 0 }

-- The outcome of a login as an attempt.
abbrev pub attempt_of : String ⊎ Response → PortalAttempt
attempt_of (inl e) = failed e
attempt_of (inr r) = replied r.status r.body

module _ {T : Type 0} (J : Json) (io : EgressOps T) (radio : Radio T) where
  -- A result that races with the stop token, where `race_stop` is set.
  abbrev pub raced : {A : Type 0} → Bool → T → A → Option A
  raced race_stop t a = if race_stop && radio.is_cancelled t then none else some a

  -- The login, with its timeout.
  unfoldable pub attempt_login : Ipv4Addr → ℕ → WirelessWorker T → PortalAttempt × T
  unfolding login
  attempt_login src_ip timeout w =
      let t = w.egress.ops in
      let (outcome, t') = login J radio.http src_ip w.portal_url w.user w.pass w.wlan_ac_ip t in
      elim (radio.expires timeout t) [
        | none ↦ (attempt_of outcome, t')
        | some late ↦ (timed_out, late)
      ]

  -- `PortalAuth`: an error of the egress takes the place of the login.
  unfoldable pub run_login :
      Option String → Bool → Ipv4Addr → ℕ → WirelessWorker T → Option Event × WirelessWorker T
  unfolding attempt_login
  run_login (some error) race_stop src_ip timeout w =
      (some (portal_finished (failed error)), record w { egress_error = none })
  run_login none race_stop src_ip timeout w =
      let (attempt, t) = attempt_login src_ip timeout w in
      (raced race_stop t (portal_finished attempt), in_world t w)

  -- `run_effect`, up to the event that it sends last, if it sends one.
  unfoldable pub run_effect : Effect → Bool → WirelessWorker T → Option Event × WirelessWorker T
  unfolding run_login acquire Egress.suppress_metric Egress.release_metric release
  run_effect cleanup_stale_routes race_stop w =
      let t = radio.cleanup_stale (w.portal_ip ∷ w.probe_ip ∷ []) w.egress.ops in
      (none, in_world t w)
  run_effect (associate profile) race_stop w =
      let (error, t) = radio.associate profile w.egress.ops in
      (raced race_stop t (associate_finished error), in_world t w)
  run_effect disassociate race_stop w = (none, in_world (radio.disassociate w.egress.ops) w)
  run_effect (acquire_wireless_egress endpoint) race_stop w =
      let (done, egress) = acquire io endpoint w.egress in
      (
        none,
        record w {
          egress = egress;
          egress_error = elim done [
            | none ↦ some ("Wireless Egress acquisition failed: " <+> radio.last_error egress.ops)
            | some wait ↦ none
          ];
        },
      )
  run_effect (suppress_metric ifindex target) race_stop w =
      let endpoint : WlanEndpoint = record { gateway = unspecified; ifindex = ifindex } in
      (none, record w { egress = Egress.suppress_metric io endpoint target w.egress })
  run_effect release_metric race_stop w =
      (none, record w { egress = (Egress.release_metric io w.egress).1 })
  run_effect teardown_routes race_stop w =
      (none, record w { egress = (release io w.egress).1; egress_error = none })
  run_effect (settle duration) race_stop w = (none, in_world (radio.sleep duration w.egress.ops) w)
  run_effect (portal_auth src_ip timeout) race_stop w =
      run_login w.egress_error race_stop src_ip timeout w
  run_effect (wlan_probe src_ip gateway url) race_stop w =
      let (verdict, t) = radio.probe_once src_ip gateway url w.egress.ops in
      (raced race_stop t (wlan_probe_finished verdict), in_world t w)
  run_effect _ race_stop w = (none, w)

  -- The effect with its event sent.
  unfoldable pub perform : Effect → Bool → WirelessWorker T → WirelessWorker T
  unfolding run_effect
  perform e race_stop w =
      let (event, w') = run_effect e race_stop w in
      elim event [ none ↦ w' | some x ↦ in_world (radio.send x w'.egress.ops) w' ]

  unfoldable pub perform_all : List Effect → WirelessWorker T → WirelessWorker T
  unfolding perform
  perform_all [] w = w
  perform_all (e ∷ es) w = perform_all es (perform e false w)

  -- What wakes the worker: a message, the closed lane, or the timer of a pending cleanup.
  pub data Waking : Type 0 where
    message : LaneMsg → Waking
    closed idle : Waking

  unfoldable pub retried : WirelessWorker T → WirelessWorker T
  unfolding retry_cleanup
  retried w = record w { egress = (retry_cleanup io w.egress).1 }

  -- The loop: whether it has ended, and the worker.
  unfoldable pub run : List Waking → WirelessWorker T → Bool × WirelessWorker T
  unfolding retried perform perform_all has_pending_cleanup
  run [] w = (false, w)
  run (closed ∷ ws) w = (true, w)
  run (idle ∷ ws) w =
      let retry = run ws (retried w) in
      let wait = run ws w in if has_pending_cleanup w.egress then retry else wait
  run (message (effect e) ∷ ws) w = run ws (perform e true (retried w))
  run (message (shutdown_with es) ∷ ws) w = (true, perform_all es (retried w))
