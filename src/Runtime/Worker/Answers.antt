-- ===== src/Runtime/Worker/Answers.antt =====
-- What the worker answers.
use gdut_net.Base.{
  ℕ, String, ◌≡◌, ◌⊎◌, inl, inr, Bool, true, false, Option, none, some, arith, is_some_and,
}
use gdut_net.Ipv4.{Ipv4Addr}
use gdut_net.Runtime.Worker.{Radio, WirelessWorker, raced, attempt_login, run_login, run_effect}
use gdut_net.Supervisor.Reducer.Flights.{Kind, association, login, probing, asks, ends}
use gdut_net.Supervisor.Types.{
  Event, associate_finished, portal_finished, wlan_probe_finished, Effect, step_watchdog,
  request_redial, hangup, sample_link, sample_wireless, set_watchdog_link, cleanup_stale_routes,
  disassociate, release_metric, teardown_routes, associate, acquire_wireless_egress,
  suppress_metric, settle, portal_auth, wlan_probe, persist_mode, notify,
}
use gdut_net.Wireless.Egress.{EgressOps}
use gdut_net.Wireless.Portal.{Json}

-- The requests that the worker serves.
abbrev pub is_served : Kind → Bool
is_served association = true
is_served login = true
is_served probing = true
is_served _ = false

module _ {T : Type 0} (J : Json) (io : EgressOps T) (radio : Radio T) where
  -- No result is lost: nothing races with the stop token, or the token is never cancelled.
  abbrev pub IsCalm : Bool → Type 0
  IsCalm race_stop = (race_stop ≡ false) ⊎ ((t : T) → radio.is_cancelled t ≡ false)

  raced_kept :
      (race_stop : Bool) (t : T) (x : Event)
      → IsCalm race_stop
      → raced J io radio race_stop t x ≡ some x
  raced_kept race_stop t x (inl e) = ground (arith, e)
  raced_kept race_stop t x (inr never) = ground (arith, never t)

  -- An event that ends a request of its kind alone.
  abbrev Answers : Kind → Option Event → Effect → Type 0
  Answers k o e = is_some_and o (ends k) ≡ asks k e

  login_answered :
      (k : Kind) (error : Option String) (race_stop : Bool) (src_ip : Ipv4Addr) (timeout : ℕ)
      (w : WirelessWorker T)
      → is_served k ≡ true
      → IsCalm race_stop
      → Answers k
          (run_login J io radio error race_stop src_ip timeout w).0
          (portal_auth src_ip timeout)
  unfolding run_login asks ends
  login_answered k (some e) race_stop src_ip timeout w s h = ground arith
  login_answered k none race_stop src_ip timeout w s h =
      let (attempt, t) = attempt_login J io radio src_ip timeout w in
      rw (raced_kept race_stop t (portal_finished attempt) h) (ground arith)

  -- The event ends a request of the kind that the effect asks for, and of no other that is served.
  pub event_answers :
      (k : Kind) (e : Effect) (race_stop : Bool) (w : WirelessWorker T)
      → is_served k ≡ true
      → IsCalm race_stop
      → is_some_and (run_effect J io radio e race_stop w).0 (ends k) ≡ asks k e
  unfolding run_effect asks ends
  event_answers k (associate p) race_stop w s h =
      let (error, t) = radio.associate p w.egress.ops in
      rw (raced_kept race_stop t (associate_finished error) h) (ground arith)
  event_answers k (portal_auth src_ip timeout) race_stop w s h =
      login_answered k w.egress_error race_stop src_ip timeout w s h
  event_answers k (wlan_probe src_ip gateway url) race_stop w s h =
      let (verdict, t) = radio.probe_once src_ip gateway url w.egress.ops in
      rw (raced_kept race_stop t (wlan_probe_finished verdict) h) (ground arith)
  event_answers k step_watchdog race_stop w s h = ground arith
  event_answers k request_redial race_stop w s h = ground arith
  event_answers k hangup race_stop w s h = ground arith
  event_answers k sample_link race_stop w s h = ground arith
  event_answers k sample_wireless race_stop w s h = ground arith
  event_answers k (set_watchdog_link up) race_stop w s h = ground arith
  event_answers k cleanup_stale_routes race_stop w s h = ground arith
  event_answers k disassociate race_stop w s h = ground arith
  event_answers k release_metric race_stop w s h = ground arith
  event_answers k teardown_routes race_stop w s h = ground arith
  event_answers k (acquire_wireless_egress x) race_stop w s h = ground arith
  event_answers k (suppress_metric i t) race_stop w s h = ground arith
  event_answers k (settle d) race_stop w s h = ground arith
  event_answers k (persist_mode m) race_stop w s h = ground arith
  event_answers k (notify key title body) race_stop w s h = ground arith
