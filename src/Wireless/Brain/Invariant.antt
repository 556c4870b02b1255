-- ===== src/Wireless/Brain/Invariant.antt =====
-- What holds of a brain between two calls.
use gdut_net.Base.{
  ℕ, String, ◌≡◌, ◌≢◌, ◌⊎◌, ◌↔◌, Bool, true, false, some, List, [], ◌∷◌, arith, is_some,
}
use gdut_net.Protocol.{NetMode, wired_plus_standby, WPhase, off, joining, authing, online, error}
use gdut_net.Probe.{kicked}
use gdut_net.Wireless.Brain.{
  World, associate, disassociate, portal_auth, Brain, new, set_mode, restart, on_auth, decide,
}

abbrev is_authing : WPhase → Bool
is_authing authing = true
is_authing _ = false

abbrev is_error : WPhase → Bool
is_error error = true
is_error _ = false

-- A login is under way exactly in the phase Authing; an error text and a retry time are there
-- exactly in the phase Error.
pub record IsConsistent (b : Brain) : Type 0 where
  pub busy : b.auth_busy ≡ is_authing b.phase
  pub retry : is_some b.next_auth_at ≡ is_error b.phase
  pub message : is_some b.last_error ≡ is_error b.phase

-- The calls that the supervisor makes.
pub data Call : Type 0 where
  deciding : World → Call
  reporting : Bool → String → ℕ → Call
  switching : NetMode → Call
  restarting : Call

abbrev pub apply : Call → Brain → Brain
apply (deciding w) b = (decide b w).0
apply (reporting ok msg now) b = on_auth ok msg now b
apply (switching m) b = set_mode m b
apply restarting b = restart b

abbrev pub apply_all : List Call → Brain → Brain
apply_all [] b = b
apply_all (c ∷ cs) b = apply_all cs (apply c b)

decide-IsConsistent : (w : World) (b : Brain) → IsConsistent b → IsConsistent (decide b w).0
unfolding decide
decide-IsConsistent w b c = ground arith

apply-IsConsistent : (call : Call) (b : Brain) → IsConsistent b → IsConsistent (apply call b)
unfolding on_auth set_mode restart
apply-IsConsistent (deciding w) b c = decide-IsConsistent w b c
apply-IsConsistent (reporting ok msg now) b c = ground arith
apply-IsConsistent (switching m) b c = ground arith
apply-IsConsistent restarting b c = ground arith

apply_all-IsConsistent :
    (cs : List Call) (b : Brain) → IsConsistent b → IsConsistent (apply_all cs b)
apply_all-IsConsistent [] b h = h
apply_all-IsConsistent (c ∷ cs) b h =
    apply_all-IsConsistent cs (apply c b) (apply-IsConsistent c b h)

new-IsConsistent : (m : NetMode) (t r p : ℕ) → IsConsistent (new m t r p)
unfolding new
new-IsConsistent m t r p = ground arith

-- After any calls on a new brain, a login is under way exactly in the phase Authing, and an error
-- text and a retry time are there exactly in the phase Error.
pub calls-IsConsistent :
    (m : NetMode) (takeover release probe : ℕ) (cs : List Call)
    → IsConsistent (apply_all cs (new m takeover release probe))
calls-IsConsistent m t r p cs = apply_all-IsConsistent cs (new m t r p) (new-IsConsistent m t r p)

-- A login is asked for only where none is under way, by a WLAN that is joined with an address, or
-- by a probe that saw the client kicked; it is under way afterwards.
pub decide-portal_auth :
    (b : Brain) (w : World)
    → IsConsistent b
    → (decide b w).1 ≡ portal_auth
    → (b.auth_busy ≡ false)
      × ((decide b w).0.auth_busy ≡ true)
      × ((decide b w).0.phase ≡ authing)
      × (((b.phase ≡ joining) × (w.wlan_associated ≡ true) × (w.wlan_ip ≡ true))
          ⊎ ((b.phase ≡ online) × (w.probe ≡ some kicked)))
unfolding decide
decide-portal_auth b w c h = ground arith

-- Association is asked for exactly where the call starts a join, whatever the mode.
pub decide-associate :
    (b : Brain) (w : World)
    → ((decide b w).1 ≡ associate) ↔ (((decide b w).0.phase ≡ joining) × ((b.phase ≢ joining)))
unfolding decide
decide-associate b w = ground arith

-- In standby mode the WLAN is never given up.
pub standby-keeps :
    (b : Brain) (w : World)
    → b.mode ≡ wired_plus_standby
    → ((decide b w).1 ≢ disassociate) × ((decide b w).0.phase ≢ off)
unfolding decide
standby-keeps b w m = ground arith
