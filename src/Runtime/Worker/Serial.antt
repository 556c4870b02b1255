-- ===== src/Runtime/Worker/Serial.antt =====
-- The end of the worker.
use gdut_net.Base.{◌≡◌, ◌⊎◌, refl, true, false, none, List, [], ◌∷◌}
use gdut_net.Runtime.Shell.{shutdown_with}
use gdut_net.Runtime.Worker.{
  Radio, WirelessWorker, run_effect, perform, perform_all, retried, Waking, message, run,
}
use gdut_net.Supervisor.Types.{teardown_routes, disassociate}
use gdut_net.Wireless.Egress.{EgressOps, release}
use gdut_net.Wireless.Egress.Release.{ledger_cleared}
use gdut_net.Wireless.Portal.{Json}

module _ {T : Type 0} (J : Json) (io : EgressOps T) (radio : Radio T) where
  -- The handover of a stop ends the worker, whatever else is in the lane behind it, and leaves no
  -- route on its ledger and no endpoint, unless the system refused a part of the release.
  pub shutdown_clean :
      (w : WirelessWorker T) (rest : List (Waking J io radio))
      → let stops = message (shutdown_with (teardown_routes ∷ disassociate ∷ [])) in
        let (ended, after) = run J io radio (stops ∷ rest) w in
        (ended ≡ true)
        × (((release io (retried J io radio w).egress).0 ≡ false)
            ⊎ ((after.egress.added ≡ [])
                × (after.egress.route_endpoint ≡ none)
                × (after.egress.applied_endpoint ≡ none)))
  unfolding run perform_all perform run_effect
  shutdown_clean w rest = (refl, ledger_cleared io (retried J io radio w).egress)
