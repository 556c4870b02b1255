-- ===== src/Runtime/Worker/Blocked.antt =====
-- What the worker does with a login after an acquire that failed.
use gdut_net.Base.{
  ℕ, String, ◌≡◌, ◌∙◌, refl, ap, Bool, true, false, Option, none, some, List, [], ◌∷◌, ◌++◌, All,
  arith, ◌<+>◌, if◌then◌else◌,
}
use gdut_net.Ipv4.{Ipv4Addr}
use gdut_net.Runtime.Shell.{effect, shutdown_with}
use gdut_net.Runtime.Worker.{
  Radio, WirelessWorker, in_world, run_login, run_effect, perform, retried, Waking, message, closed,
  idle, run,
}
use gdut_net.Supervisor.Types.{
  portal_finished, failed, Effect, step_watchdog, request_redial, hangup, sample_link,
  sample_wireless, set_watchdog_link, cleanup_stale_routes, disassociate, release_metric,
  teardown_routes, associate, acquire_wireless_egress, suppress_metric, settle, portal_auth,
  wlan_probe, persist_mode, notify, WlanEndpoint,
}
use gdut_net.Wireless.Egress.{EgressOps, acquire, has_pending_cleanup}
use gdut_net.Wireless.Portal.{Json}

-- The effects other than an acquire, a teardown and a login.
abbrev pub spares_error : Effect → Bool
spares_error (acquire_wireless_egress endpoint) = false
spares_error teardown_routes = false
spares_error (portal_auth src_ip timeout) = false
spares_error _ = true

module _ {T : Type 0} (J : Json) (io : EgressOps T) (radio : Radio T) where
  -- What may wake the worker in between: the timer, or any other effect.
  abbrev pub is_between : Waking J io radio → Bool
  is_between closed = false
  is_between idle = true
  is_between (message (effect e)) = spares_error e
  is_between (message (shutdown_with es)) = false

  perform_spares :
      (e : Effect) (w : WirelessWorker T)
      → spares_error e ≡ true
      → (perform J io radio e true w).egress_error ≡ w.egress_error
  unfolding perform run_effect
  perform_spares (acquire_wireless_egress x) w h = absurd (ground (arith, h))
  perform_spares teardown_routes w h = absurd (ground (arith, h))
  perform_spares (portal_auth src_ip timeout) w h = absurd (ground (arith, h))
  perform_spares (associate p) w h = ground arith
  perform_spares (wlan_probe src_ip gateway url) w h = ground arith
  perform_spares step_watchdog w h = refl
  perform_spares request_redial w h = refl
  perform_spares hangup w h = refl
  perform_spares sample_link w h = refl
  perform_spares sample_wireless w h = refl
  perform_spares (set_watchdog_link up) w h = refl
  perform_spares cleanup_stale_routes w h = refl
  perform_spares disassociate w h = refl
  perform_spares release_metric w h = refl
  perform_spares (suppress_metric i t) w h = ground arith
  perform_spares (settle d) w h = refl
  perform_spares (persist_mode m) w h = refl
  perform_spares (notify key title body) w h = refl

  if_error :
      (c : Bool) (x y : Bool × WirelessWorker T) (o : Option String)
      → x.1.egress_error ≡ o
      → y.1.egress_error ≡ o
      → (if c then x else y).1.egress_error ≡ o
  if_error true x y o h k = h
  if_error false x y o h k = k

  -- The error stays through whatever comes in between.
  run_spares :
      (ws : List (Waking J io radio)) (w : WirelessWorker T)
      → All (λ x. is_between x ≡ true) ws
      → (run J io radio ws w).1.egress_error ≡ w.egress_error
  unfolding run retried
  run_spares [] w all = refl
  run_spares (closed ∷ ws) w all = refl
  run_spares (idle ∷ ws) w all =
      if_error (has_pending_cleanup w.egress) (run J io radio ws (retried J io radio w))
        (run J io radio ws w) w.egress_error (run_spares ws (retried J io radio w) all.1)
        (run_spares ws w all.1)
  run_spares (message (effect e) ∷ ws) w all =
      run_spares ws (perform J io radio e true (retried J io radio w)) all.1
      ∙ perform_spares e (retried J io radio w) all.0
  run_spares (message (shutdown_with es) ∷ ws) w all = absurd (ground (arith, all.0))

  if_run :
      (c : Bool) (us : List (Waking J io radio)) (x y z z' : Bool × WirelessWorker T)
      → z ≡ run J io radio us x.1
      → z' ≡ run J io radio us y.1
      → (if c then z else z') ≡ run J io radio us (if c then x else y).1
  if_run true us x y z z' h k = h
  if_run false us x y z z' h k = k

  run-append :
      (ws us : List (Waking J io radio)) (w : WirelessWorker T)
      → All (λ x. is_between x ≡ true) ws
      → run J io radio (ws ++ us) w ≡ run J io radio us (run J io radio ws w).1
  unfolding run
  run-append [] us w all = refl
  run-append (closed ∷ ws) us w all = absurd (ground (arith, all.0))
  run-append (idle ∷ ws) us w all =
      if_run (has_pending_cleanup w.egress) us (run J io radio ws (retried J io radio w))
        (run J io radio ws w) _ _ (run-append ws us (retried J io radio w) all.1)
        (run-append ws us w all.1)
  run-append (message (effect e) ∷ ws) us w all =
      run-append ws us (perform J io radio e true (retried J io radio w)) all.1
  run-append (message (shutdown_with es) ∷ ws) us w all = absurd (ground (arith, all.0))

  acquire_failed :
      (endpoint : WlanEndpoint) (w : WirelessWorker T)
      → (acquire io endpoint w.egress).0 ≡ none
      → (perform J io radio (acquire_wireless_egress endpoint) true w).egress_error
        ≡ some (
            "Wireless Egress acquisition failed: "
            <+> radio.last_error (acquire io endpoint w.egress).1.ops)
  unfolding perform run_effect
  acquire_failed endpoint w h = ground (arith, h)

  login_blocked :
      (m : String) (src_ip : Ipv4Addr) (timeout : ℕ) (w : WirelessWorker T)
      → w.egress_error ≡ some m
      → perform J io radio (portal_auth src_ip timeout) true w
        ≡ in_world
            (radio.send (portal_finished (failed m)) w.egress.ops)
            (record w { egress_error = none })
  unfolding perform run_effect run_login
  login_blocked m src_ip timeout w h = rw h refl

  -- The login of a lane in which the acquire before it has failed, whatever other effects than a
  -- teardown, an acquire or a login, waits and cleanups come between the two. It is answered by the
  -- failure of the acquire, and its turn does nothing else to the world than the cleanup that
  -- precedes every message and the sending of that answer: no request goes out over another route. The error
  -- is cleared, so that the next login is free to try.
  pub egress_blocks-login :
      (endpoint : WlanEndpoint) (between : List (Waking J io radio)) (src_ip : Ipv4Addr)
      (timeout : ℕ) (w : WirelessWorker T)
      → (acquire io endpoint (retried J io radio w).egress).0 ≡ none
      → All (λ x. is_between x ≡ true) between
      → let w0 = retried J io radio w in
        let acquiring = message (effect (acquire_wireless_egress endpoint)) in
        let login = message (effect (portal_auth src_ip timeout)) in
        let cleaned = retried J io radio (run J io radio (acquiring ∷ between) w).1 in
        let m =
          "Wireless Egress acquisition failed: "
          <+> radio.last_error (acquire io endpoint w0.egress).1.ops in
        run J io radio (acquiring ∷ between ++ login ∷ []) w ≡ (
          false,
          in_world
              (radio.send (portal_finished (failed m)) cleaned.egress.ops)
              (record cleaned { egress_error = none }),
        )
  unfolding run retried
  egress_blocks-login endpoint between src_ip timeout w h all =
      let w1 = perform J io radio (acquire_wireless_egress endpoint) true (retried J io radio w) in
      let w2 = (run J io radio between w1).1 in
      let m =
        "Wireless Egress acquisition failed: "
        <+> radio.last_error (acquire io endpoint (retried J io radio w).egress).1.ops in
      run-append between (message (effect (portal_auth src_ip timeout)) ∷ []) w1 all
      ∙ ap (λ x. (false, x))
          (login_blocked m src_ip timeout (retried J io radio w2)
            (run_spares between w1 all ∙ acquire_failed endpoint (retried J io radio w) h))
