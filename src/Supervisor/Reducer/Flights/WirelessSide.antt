-- ===== src/Supervisor/Reducer/Flights/WirelessSide.antt =====
-- The results on the wireless side end their flights.
use gdut_net.Base.{ℕ, String, Option, [], arith}
use gdut_net.Probe.{ProbeVerdict}
use gdut_net.Supervisor.Radio.{
  handle_associate_finished, handle_portal_finished, handle_probe_finished, handle_wireless_died,
}
use gdut_net.Supervisor.State.{Supervisor}
use gdut_net.Supervisor.Types.{
  PortalAttempt, wireless_died, associate_finished, portal_finished, wlan_probe_finished,
}
use gdut_net.Supervisor.Wired.{push_event}
use gdut_net.Wireless.Portal.{Json}
use gdut_net.Supervisor.Reducer.Flights.{
  bit, count, Kind, link_sampling, wireless_sampling, association, login, probing, ends, in_flight,
  Covered,
}

pub died-Covered :
    (k : Kind) (wall : ℕ) (s : Supervisor)
    → Covered k s [] (bit (ends k wireless_died)) (handle_wireless_died wall s)
unfolding in_flight ends count handle_wireless_died push_event
died-Covered link_sampling wall s = ground arith
died-Covered wireless_sampling wall s = ground arith
died-Covered association wall s = ground arith
died-Covered login wall s = ground arith
died-Covered probing wall s = ground arith

pub associated-Covered :
    (k : Kind) (e : Option String) (now : ℕ) (s : Supervisor)
    → Covered k s [] (bit (ends k (associate_finished e))) (handle_associate_finished now s)
unfolding in_flight ends count handle_associate_finished
associated-Covered link_sampling e now s = ground arith
associated-Covered wireless_sampling e now s = ground arith
associated-Covered association e now s = ground arith
associated-Covered login e now s = ground arith
associated-Covered probing e now s = ground arith

pub probed-Covered :
    (k : Kind) (v : ProbeVerdict) (wall : ℕ) (s : Supervisor)
    → Covered k s [] (bit (ends k (wlan_probe_finished v))) (handle_probe_finished v wall s)
unfolding in_flight ends count handle_probe_finished push_event
probed-Covered link_sampling v wall s = ground arith
probed-Covered wireless_sampling v wall s = ground arith
probed-Covered association v wall s = ground arith
probed-Covered login v wall s = ground arith
probed-Covered probing v wall s = ground arith

pub portal-Covered :
    (k : Kind) (J : Json) (a : PortalAttempt) (now wall : ℕ) (s : Supervisor)
    → Covered k s [] (bit (ends k (portal_finished a))) (handle_portal_finished J a now wall s)
unfolding in_flight ends count handle_portal_finished push_event
portal-Covered link_sampling J a now wall s = ground arith
portal-Covered wireless_sampling J a now wall s = ground arith
portal-Covered association J a now wall s = ground arith
portal-Covered login J a now wall s = ground arith
portal-Covered probing J a now wall s = ground arith
