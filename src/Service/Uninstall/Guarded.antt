-- ===== src/Service/Uninstall/Guarded.antt =====
-- What an uninstallation leaves.
use gdut_net.Base.{
  eq_iff, ℕ, zero, suc, ◌+◌, ◌/◌, ◌≡◌, inl, inr, refl, sym, subst, ◌∙◌, String, Bool, true, false,
  some, arith, Option-cases, Bool-cases,
}
use gdut_net.Backoff.{from_millis}
use gdut_net.Service.Control.{wait_from, wait_stopped, stop_timeout}
use gdut_net.Service.Uninstall.{
  Step, Cleanup, PurgeStep, UninstallReport, program_data_dir, ensure_purge_safe, delete_stopped,
  remove_service, purge_dir, clean, uninstall_rest, uninstall_core,
}

module _ {T A X : Type 0} (os : Cleanup T A) (view : T → X) where
  -- What is asked of the system: all its calls but the removal of directories leave the view as it is.
  pub record IsOutside : Type 0 where
    pub stopping : (t : T) → view (os.scm.stop t).1 ≡ view t
    pub deleting : (t : T) → view (os.scm.delete t).1 ≡ view t
    pub sleeping : (d : ℕ) (t : T) → view (os.scm.sleep d t) ≡ view t
    pub unregistering : (t : T) → view (os.unregister_source t).1 ≡ view t
    pub forgetting : (t : T) → view (os.delete_entropy t).1 ≡ view t
    pub silencing : (t : T) → view (os.unregister_autostart t).1 ≡ view t
    pub clearing : (t : T) → view (os.remove_shell_integration t).1 ≡ view t

  -- The name of a directory is gdut-net, but for the case of its letters.
  abbrev pub IsNamed : String → Type 0
  IsNamed dir =
      (name : String) × (os.file_name dir ≡ some name) × (os.to_lowercase name ≡ "gdut-net")

  ensure_purge_safe-IsNamed : (dir : String) → ensure_purge_safe os dir ≡ true → IsNamed dir
  unfolding ensure_purge_safe
  ensure_purge_safe-IsNamed dir safe = elim (Option-cases (os.file_name dir)) [
    | inl e ↦ absurd (ground (arith, safe, e))
    | inr (name, e) ↦
        (name, e, (eq_iff (os.to_lowercase name) "gdut-net").0 (ground (arith, safe, e)))
  ]

  purge_dir-safe :
      (dir : String) (t : T) (p : PurgeStep)
      → (purge_dir os dir t).0 ≡ some p
      → (p.dir ≡ dir) × (ensure_purge_safe os dir ≡ true)
  unfolding purge_dir
  purge_dir-safe dir t p h = ground (arith, h)

  uninstall_rest-purge :
      (cfg_path : String) (purge : Bool) (service : Step) (t : T) (r : UninstallReport)
      (p : PurgeStep)
      → (uninstall_rest os cfg_path purge service t).0 ≡ some r
      → r.purge ≡ some p
      → (purge ≡ true) × (p.dir ≡ program_data_dir os cfg_path) × IsNamed p.dir
  unfolding uninstall_rest purge_dir
  uninstall_rest-purge cfg_path false service t r p h q = absurd (ground (arith, h, q))
  uninstall_rest-purge cfg_path true service t r p h q =
      let dir = program_data_dir os cfg_path in
      let t1 = (clean os t).1 in
      elim (Option-cases (purge_dir os dir t1).0) [
        | inl e ↦ absurd (ground (arith, h, e))
        | inr (p', e) ↦
            let (same, safe) = purge_dir-safe dir t1 p (ground (arith, h, e, q)) in
            (refl, same, subst IsNamed (sym same) (ensure_purge_safe-IsNamed dir safe))
      ]

  module _ (outside : IsOutside) where
    wait_from-view : (rounds start : ℕ) (t : T) → view (wait_from os.scm rounds start t).1 ≡ view t
    unfolding wait_from
    wait_from-view zero start t = refl
    wait_from-view (suc rounds) start t =
        let later = os.scm.sleep (from_millis 500) t in
        ground (arith, outside.sleeping (from_millis 500) t, wait_from-view rounds start later)

    remove_service-view : (t : T) → view (remove_service os t).1 ≡ view t
    unfolding remove_service delete_stopped wait_stopped
    remove_service-view t =
        let t1 = (os.scm.stop t).1 in
        let t2 = (wait_stopped os.scm t1).1 in
        let waited : view t2 ≡ view t =
          wait_from-view (stop_timeout / from_millis 500 + 2) (os.scm.now t1) t1
          ∙ outside.stopping t in
        ground (arith, waited, outside.deleting t2, outside.deleting t)

    clean-view : (t : T) → view (clean os t).1 ≡ view t
    unfolding clean
    clean-view t =
        let t1 = (os.unregister_source t).1 in
        let t2 = (os.delete_entropy t1).1 in
        let t3 = (os.unregister_autostart t2).1 in
        outside.clearing t3 ∙ outside.silencing t2 ∙ outside.forgetting t1 ∙ outside.unregistering t

    -- What is asked of a directory that has the name.
    abbrev Spared : String → Type 0
    Spared dir = IsNamed dir → (t : T) → view (os.remove_dir_all dir t).1 ≡ view t

    purge_dir-view : (dir : String) (t : T) → Spared dir → view (purge_dir os dir t).1 ≡ view t
    unfolding purge_dir
    purge_dir-view dir t spared = elim (Bool-cases (ensure_purge_safe os dir)) [
      | inl safe ↦ ground (arith, safe, spared (ensure_purge_safe-IsNamed dir safe) t)
      | inr unsafe ↦ ground (arith, unsafe)
    ]

    uninstall_rest-view :
        (cfg_path : String) (purge : Bool) (service : Step) (t : T)
        → (purge ≡ true → Spared (program_data_dir os cfg_path))
        → view (uninstall_rest os cfg_path purge service t).1 ≡ view t
    unfolding uninstall_rest
    uninstall_rest-view cfg_path true service t spared =
        let t1 = (clean os t).1 in
        let purged = purge_dir-view (program_data_dir os cfg_path) t1 (spared refl) in
        ground (arith, clean-view t, purged)
    uninstall_rest-view cfg_path false service t spared = clean-view t

  -- An uninstallation leaves a view of the system as it was. It reports a purge only where one is asked
  -- for, of the directory of its configuration, whose name is then gdut-net but for the case of its
  -- letters. This is where no call but the removal of a directory changes the view; and only where a
  -- purge is asked for and that directory has this name, its removal must not change the view either.
  pub purge_guarded :
      (cfg_path : String) (purge : Bool) (t : T)
      → (outside : IsOutside) → (purge ≡ true → Spared outside (program_data_dir os cfg_path))
      → let (report, t') = uninstall_core os cfg_path purge t in
        (view t' ≡ view t)
        × ((r : UninstallReport) (p : PurgeStep)
            → report ≡ some r
            → r.purge ≡ some p
            → (purge ≡ true) × (p.dir ≡ program_data_dir os cfg_path) × IsNamed p.dir)
  unfolding uninstall_core
  purge_guarded cfg_path purge t outside spared =
      let (service, t1) = remove_service os t in
      elim (Option-cases service) [
        | inl e ↦ (
          ground (arith, e, remove_service-view outside t),
          λ r p h q. absurd (ground (arith, e, h)),
        )
        | inr (step, e) ↦ (
          ground (
            arith,
            e,
            remove_service-view outside t,
            uninstall_rest-view outside cfg_path purge step t1 spared,
          ),
          λ r p h q. uninstall_rest-purge cfg_path purge step t1 r p (ground (arith, e, h)) q,
        )
      ]
