-- ===== src/Runtime/Dialer/Wedge.antt =====
-- The count of stuck dials and the restarts of RasMan.
use gdut_net.Base.{ℕ, zero, suc, ◌+◌, ◌/◌, ◌%◌, ◌<◌, ◌≡◌, String, true, arith}
use gdut_net.Runtime.Dialer.{
  Ras, Line, ras_error, other, task_result, is_wedged, dial_ended, dial, count_wedge,
}

module _ {S H : Type 0} (ras : Ras S H) where
  -- The line after n dials.
  abbrev pub dials : ℕ → Line S H → Line S H
  dials zero l = l
  dials (suc n) l = (dial ras (dials n l)).1

  bounded_step : (l : Line S H) → l.dialer.wedge_fails < 3 → (dial ras l).1.dialer.wedge_fails < 3
  unfolding dial dial_ended count_wedge task_result
  bounded_step l h = ground arith

  -- However the dials end, the count of stuck dials stays below the limit that restarts RasMan, so
  -- it never overflows and no stuck port is retried without a restart for longer than that.
  pub wedge_bounded :
      (n : ℕ) (l : Line S H) → l.dialer.wedge_fails ≡ 0 → (dials n l).dialer.wedge_fails < 3
  wedge_bounded zero l z = omega arith
  wedge_bounded (suc n) l z = bounded_step (dials n l) (wedge_bounded n l z)

  stuck_step :
      (restarts : S → ℕ) (l : Line S H) (code : ℕ) (msg : String)
      → ((s : S) → restarts (ras.restart_rasman s) ≡ restarts s + 1)
      → (ras.dial l.dialer.pbk l.dialer.entry l.dialer.user l.dialer.pass l.system).0
        ≡ ras_error (other code msg)
      → restarts (ras.dial l.dialer.pbk l.dialer.entry l.dialer.user l.dialer.pass l.system).1
        ≡ restarts l.system
      → is_wedged code ≡ true
      → l.dialer.wedge_fails < 3
      → ((dial ras l).1.dialer.wedge_fails ≡ (l.dialer.wedge_fails + 1) % 3)
        × (restarts (dial ras l).1.system ≡ restarts l.system + (l.dialer.wedge_fails + 1) / 3)
  unfolding dial dial_ended count_wedge task_result
  stuck_step restarts l code msg counts e keeps w h =
      let s = (ras.dial l.dialer.pbk l.dialer.entry l.dialer.user l.dialer.pass l.system).1 in
      ground (arith, counts s, e, keeps)

  -- Every dial finds the port stuck, and itself restarts nothing.
  abbrev pub AlwaysStuck : (S → ℕ) → Type 0
  AlwaysStuck restarts =
      (pbk entry user pass : String) (s : S)
      → (code : ℕ) × (msg : String) × ((ras.dial pbk entry user pass s).0
          ≡ ras_error (other code msg))
        × (is_wedged code ≡ true)
        × (restarts (ras.dial pbk entry user pass s).1 ≡ restarts s)

  -- Where every dial finds the port stuck, and the system counts the restarts of RasMan, n dials of
  -- a fresh dialer restart it n / 3 times, after every third of them.
  pub wedge_restarts :
      (restarts : S → ℕ) (n : ℕ) (l : Line S H)
      → ((s : S) → restarts (ras.restart_rasman s) ≡ restarts s + 1)
      → AlwaysStuck restarts
      → l.dialer.wedge_fails ≡ 0
      → (restarts (dials n l).system ≡ restarts l.system + n / 3)
        × ((dials n l).dialer.wedge_fails ≡ n % 3)
  wedge_restarts restarts zero l counts stuck z = (omega arith, omega arith)
  wedge_restarts restarts (suc n) l counts stuck z =
      let m = dials n l in
      let (total, fails) = wedge_restarts restarts n l counts stuck z in
      let (code, msg, e, wedged, keeps) =
        stuck m.dialer.pbk m.dialer.entry m.dialer.user m.dialer.pass m.system in
      let (fails', total') =
        stuck_step restarts m code msg counts e keeps wedged (wedge_bounded n l z) in
      (omega (arith, total, fails, fails', total'), omega (arith, total, fails, fails', total'))
