-- ===== src/Runtime/Worker/Quiet.antt =====
-- The calls of the worker that change the world, other than the sending of an event.
use gdut_net.Base.{
  ℕ, String, ◌≡◌, ◌⊎◌, inl, inr, Bool, true, false, refl, Option, none, some, List, [], ◌∷◌, ◌++◌,
  arith, not, ◌==◌, if◌then◌else◌,
}
use gdut_net.Ipv4.{Ipv4Addr}
use gdut_net.Runtime.Worker.{
  attempt_of, unspecified, Radio, WirelessWorker, run_login, attempt_login, run_effect, retried,
}
use gdut_net.Supervisor.Types.{
  Effect, step_watchdog, request_redial, hangup, sample_link, sample_wireless, set_watchdog_link,
  cleanup_stale_routes, disassociate, release_metric, teardown_routes, associate,
  acquire_wireless_egress, suppress_metric, settle, portal_auth, wlan_probe, persist_mode, notify,
  WlanEndpoint, timed_out,
}
use gdut_net.Wireless.Egress
use gdut_net.Wireless.Egress.{
  EgressOps, OwnedRoute, WirelessEgress, clean, add_all, retry_cleanup, acquire, release,
}
use gdut_net.Wireless.Portal.{Json, login_timeout}
use gdut_net.Wireless.Portal.Login
use gdut_net.Wireless.Portal.Login.{
  BillingStatus, ready, confirmation_required, rejected, malformed, Response, request_login,
  billing_request, after_confirm, confirm_login, after_query, login_from, login_inner,
}

module _ {T : Type 0} (io : EgressOps T) (radio : Radio T) where
  -- What holds through every call but the sending of an event.
  pub record IsQuiet (P : T → Type 0) : Type 0 where
    pub add_route : (d g : Ipv4Addr) (i : ℕ) (t : T) → P t → P (io.add_route d g i t).1
    pub delete_route : (d g : Ipv4Addr) (i : ℕ) (t : T) → P t → P (io.delete_route d g i t).1
    pub suppress_metric : (i m : ℕ) (t : T) → P t → P (io.suppress_metric i m t)
    pub restore_metric : (i : ℕ) (t : T) → P t → P (io.restore_metric i t).1
    pub cleanup_stale : (l : List Ipv4Addr) (t : T) → P t → P (radio.cleanup_stale l t)
    pub associate : (p : String) (t : T) → P t → P (radio.associate p t).1
    pub disassociate : (t : T) → P t → P (radio.disassociate t)
    pub request : (a : Ipv4Addr) (url : List ℕ) (t : T) → P t → P (radio.http.request a url t).1
    pub pause : (d : ℕ) (t : T) → P t → P (radio.http.sleep d t)
    pub cut : (d : ℕ) (t late : T) → radio.http.expires d t ≡ some late → P t → P late
    pub expires : (d : ℕ) (t late : T) → radio.expires d t ≡ some late → P t → P late
    pub probe_once :
        (a : Ipv4Addr) (g : Option Ipv4Addr) (url : String) (t : T)
        → P t
        → P (radio.probe_once a g url t).1
    pub sleep : (d : ℕ) (t : T) → P t → P (radio.sleep d t)

  module _ (J : Json) (P : T → Type 0) (quiet : IsQuiet P) where
    clean_quiet :
        (dests : List Ipv4Addr) (current : Option WlanEndpoint) (rs : List OwnedRoute) (t : T)
        → P t
        → P (clean io dests current rs t).2
    unfolding clean
    clean_quiet dests current [] t p = p
    clean_quiet dests current (r ∷ rs) t p =
        let t' = (io.delete_route r.dest r.endpoint.gateway r.endpoint.ifindex t).1 in
        let skipped = clean_quiet dests current rs t p in
        let tried =
          clean_quiet dests current rs t'
            (quiet.delete_route r.dest r.endpoint.gateway r.endpoint.ifindex t p) in
        ground (arith, skipped, tried)

    add_all_quiet :
        (e : WlanEndpoint) (ds : List Ipv4Addr) (added : List OwnedRoute) (t : T)
        → P t
        → P (add_all io e ds added t).2
    unfolding add_all
    add_all_quiet e [] added t p = p
    add_all_quiet e (d ∷ ds) added t p =
        let t' = (io.add_route d e.gateway e.ifindex t).1 in
        let p' = quiet.add_route d e.gateway e.ifindex t p in
        let skipped = add_all_quiet e ds added t p in
        let pushed = add_all_quiet e ds (added ++ record { dest = d; endpoint = e } ∷ []) t' p' in
        let failed = add_all_quiet e ds added t' p' in ground (arith, skipped, pushed, failed)

    restored_quiet :
        (o : Option WlanEndpoint) (g : WirelessEgress T)
        → P g.ops
        → let r : Bool × WirelessEgress T = elim o [
          | none ↦ (true, g)
          | some e ↦
              let (ok, t) = io.restore_metric e.ifindex g.ops in
              (ok, record g { ops = t; metric_release_pending = not ok })
        ] in
          P r.1.ops
    restored_quiet none g p = p
    restored_quiet (some e) g p = quiet.restore_metric e.ifindex g.ops p

    metric_quiet : (g : WirelessEgress T) → P g.ops → P (Egress.release_metric io g).1.ops
    unfolding Egress.release_metric
    metric_quiet g p = restored_quiet g.applied_endpoint g p

    retry_quiet : (g : WirelessEgress T) → P g.ops → P (retry_cleanup io g).1.ops
    unfolding retry_cleanup
    retry_quiet g p =
        let (kept, ok, t) = clean io g.dests g.route_endpoint g.added g.ops in
        let p' = clean_quiet g.dests g.route_endpoint g.added g.ops p in
        let released = metric_quiet (record g { added = kept; ops = t }) p' in
        ground (arith, p', released)

    acquire_quiet : (e : WlanEndpoint) (g : WirelessEgress T) → P g.ops → P (acquire io e g).1.ops
    unfolding acquire
    acquire_quiet e g p =
        let g1 = (retry_cleanup io (record g { route_endpoint = some e })).1 in
        add_all_quiet e g1.dests g1.added g1.ops
          (retry_quiet (record g { route_endpoint = some e }) p)

    release_quiet : (g : WirelessEgress T) → P g.ops → P (release io g).1.ops
    unfolding release
    release_quiet g p =
        let g1 = (retry_cleanup io (record g { route_endpoint = none })).1 in
        let done = metric_quiet g1 (retry_quiet (record g { route_endpoint = none }) p) in
        ground (arith, done)

    confirmed_quiet :
        (src : Ipv4Addr) (a : String ⊎ BillingStatus) (url : List ℕ) (t : T)
        → P t
        → P (after_confirm J radio.http src a url t).1
    unfolding after_confirm request_login
    confirmed_quiet src (inl e) url t p = p
    confirmed_quiet src (inr ready) url t p = quiet.request src url _ (quiet.pause _ t p)
    confirmed_quiet src (inr confirmation_required) url t p = p
    confirmed_quiet src (inr rejected) url t p = p
    confirmed_quiet src (inr malformed) url t p = p

    confirm_quiet :
        (src : Ipv4Addr) (o : Option (List ℕ)) (url : List ℕ) (t : T)
        → P t
        → P (confirm_login J radio.http src o url t).1
    unfolding confirm_login billing_request
    confirm_quiet src none url t p = p
    confirm_quiet src (some c) url t p =
        confirmed_quiet src (billing_request J radio.http src c t).0 url _ (quiet.request src c t p)

    query_quiet :
        (src : Ipv4Addr) (a : String ⊎ BillingStatus) (o : Option (List ℕ)) (url : List ℕ) (t : T)
        → P t
        → P (after_query J radio.http src a o url t).1
    unfolding after_query request_login
    query_quiet src (inl e) o url t p = p
    query_quiet src (inr ready) o url t p = quiet.request src url t p
    query_quiet src (inr confirmation_required) o url t p = confirm_quiet src o url t p
    query_quiet src (inr rejected) o url t p = p
    query_quiet src (inr malformed) o url t p = p

    from_quiet :
        (src : Ipv4Addr) (q o : Option (List ℕ)) (url : List ℕ) (t : T)
        → P t
        → P (login_from J radio.http src q o url t).1
    unfolding login_from billing_request
    from_quiet src none o url t p = p
    from_quiet src (some q) o url t p =
        query_quiet src (billing_request J radio.http src q t).0 o url _ (quiet.request src q t p)

    -- A race that a timer may win.
    race_quiet :
        {A : Type 0} (o : Option T) (a : A) (x : A × T)
        → ((late : T) → o ≡ some late → P late)
        → P x.1
        → let r : A × T = elim o [ none ↦ x | some late ↦ (a, late) ] in P r.1
    race_quiet none a x won p = p
    race_quiet (some late) a x won p = won late refl

    login_quiet :
        (src : Ipv4Addr) (base user pass ac_ip : List ℕ) (t : T)
        → P t
        → P (Login.login J radio.http src base user pass ac_ip t).1
    unfolding Login.login login_inner
    login_quiet src base user pass ac_ip t p =
        race_quiet (radio.http.expires login_timeout t) _
          (login_inner J radio.http src base user pass ac_ip t)
          (λ late e. quiet.cut login_timeout t late e p) (from_quiet src _ _ _ t p)

    attempt_quiet :
        (src : Ipv4Addr) (timeout : ℕ) (w : WirelessWorker T)
        → P w.egress.ops
        → P (attempt_login J io radio src timeout w).1
    unfolding attempt_login
    attempt_quiet src timeout w p =
        let t = w.egress.ops in
        let r = Login.login J radio.http src w.portal_url w.user w.pass w.wlan_ac_ip t in
        race_quiet (radio.expires timeout t) timed_out (attempt_of r.0, r.1)
          (λ late e. quiet.expires timeout t late e p)
          (login_quiet src w.portal_url w.user w.pass w.wlan_ac_ip t p)

    tried_quiet :
        (error : Option String) (race_stop : Bool) (src : Ipv4Addr) (timeout : ℕ)
        (w : WirelessWorker T)
        → P w.egress.ops
        → P (run_login J io radio error race_stop src timeout w).1.egress.ops
    unfolding run_login
    tried_quiet none race_stop src timeout w p = attempt_quiet src timeout w p
    tried_quiet (some error) race_stop src timeout w p = p

    suppress_quiet :
        (c : Bool) (g : WirelessEgress T) (e : WlanEndpoint) (target : ℕ)
        → P g.ops
        → let g' : WirelessEgress T = if c then g else record g {
          metric_release_pending = false;
          ops = io.suppress_metric e.ifindex target g.ops;
          applied_endpoint = some e;
        } in
          P g'.ops
    suppress_quiet true g e target p = p
    suppress_quiet false g e target p = quiet.suppress_metric e.ifindex target g.ops p

    -- An effect sends nothing before its event.
    pub effect_quiet :
        (e : Effect) (race_stop : Bool) (w : WirelessWorker T)
        → P w.egress.ops
        → P (run_effect J io radio e race_stop w).1.egress.ops
    unfolding run_effect Egress.suppress_metric
    effect_quiet (associate profile) race_stop w p = quiet.associate profile w.egress.ops p
    effect_quiet (portal_auth src timeout) race_stop w p =
        tried_quiet w.egress_error race_stop src timeout w p
    effect_quiet (wlan_probe src gateway url) race_stop w p =
        quiet.probe_once src gateway url w.egress.ops p
    effect_quiet step_watchdog race_stop w p = p
    effect_quiet request_redial race_stop w p = p
    effect_quiet hangup race_stop w p = p
    effect_quiet sample_link race_stop w p = p
    effect_quiet sample_wireless race_stop w p = p
    effect_quiet (set_watchdog_link up) race_stop w p = p
    effect_quiet cleanup_stale_routes race_stop w p = quiet.cleanup_stale _ w.egress.ops p
    effect_quiet disassociate race_stop w p = quiet.disassociate w.egress.ops p
    effect_quiet release_metric race_stop w p = metric_quiet w.egress p
    effect_quiet teardown_routes race_stop w p = release_quiet w.egress p
    effect_quiet (acquire_wireless_egress x) race_stop w p = acquire_quiet x w.egress p
    effect_quiet (suppress_metric i target) race_stop w p =
        suppress_quiet (target == 0) w.egress (record { gateway = unspecified; ifindex = i }) target
          p
    effect_quiet (settle d) race_stop w p = quiet.sleep d w.egress.ops p
    effect_quiet (persist_mode m) race_stop w p = p
    effect_quiet (notify key title body) race_stop w p = p

    pub retried_quiet :
        (w : WirelessWorker T) → P w.egress.ops → P (retried J io radio w).egress.ops
    unfolding retried
    retried_quiet w p = retry_quiet w.egress p
