-- ===== src/Setup/Transaction/Restored.antt =====
-- The files after an installation that failed.
use gdut_net.Base.{
  Option-cases, ◌≡◌, ◌≢◌, ◌⊎◌, inl, inr, refl, sym, ◌∙◌, subst, ap, String, Bool, true, false,
  Option, none, some, List, [], ◌∷◌, ◌++◌, map, arith,
}
use gdut_net.Ipv4.{◌>>=◌}
use gdut_net.Payload.{PayloadEntry}
use gdut_net.Setup.Transaction.{
  not_needed, Machine, Prepared, PrevService, RollbackOutcome, failed, InstallEvent, step,
  step_done, done, report, stop_service, unpack, install_core, shell_integration, start_service,
  credential_of, InstallRequest, Progress, Key, unstarted, absent, unknown, known, capture, prepare,
  run_step, step_start, step_shell, step_core, step_unpack, step_stop, stop_old, rollback_install,
  service_back, restore_if, rollback, conclude, run_install,
}

-- The files are changed, and the old service is stopped.
abbrev IsChanged : {T : Type 0} → Progress T → Type 0
IsChanged p = (p.files_changed ≡ true) × (p.stopped ≡ true)

-- The event that is reported last.
abbrev pub last_event : List InstallEvent → Option InstallEvent
last_event [] = none
last_event (e ∷ []) = some e
last_event (e ∷ f ∷ es) = last_event (f ∷ es)

last_event-append : (es : List InstallEvent) (e : InstallEvent) → last_event (es ++ e ∷ []) ≡ some e
last_event-append [] e = refl
last_event-append (x ∷ []) e = refl
last_event-append (x ∷ y ∷ es) e = last_event-append (y ∷ es) e

abbrev pub names : {F C S : Type 0} → Prepared F C S → List String
names b = map (λ e. e.name) b.entries

module _ {T A F C S X : Type 0} (os : Machine T A F C S) (view : List String → T → X) where
  -- What is asked of the system, of a view of the files of given names: only the unpacking and the
  -- restoring of files change it, and a backup that was captured and is restored without an error
  -- brings it back.
  pub record IsFaithful (n : List String) : Type 0 where
    pub stopping : (t : T) → view n (os.stop_service t).1 ≡ view n t
    pub killing : (t : T) → view n (os.kill_tray t) ≡ view n t
    pub starting : (t : T) → view n (os.start_service t).1 ≡ view n t
    pub deleting : (t : T) → view n (os.delete_service t).1 ≡ view n t
    pub reinstating : (a : A) (t : T) → view n (os.restore_previous_service a t).1 ≡ view n t
    pub core_restoring : (c : C) (t : T) → view n (os.restore_core c t).1 ≡ view n t
    pub shell_restoring : (s : S) (t : T) → view n (os.restore_shell s t).1 ≡ view n t
    pub files_restoring :
        (f : F) (t t' : T)
        → os.capture_files n t ≡ some f
        → (os.restore_files f t').0 ≡ true
        → view n (os.restore_files f t').1 ≡ view n t

  run_step-IsChanged :
      (key : Key) (op : T → Bool × T) (next : Progress T → Bool × Progress T) (p : Progress T)
      → IsChanged p
      → ((q : Progress T) → IsChanged q → IsChanged (next q).1)
      → IsChanged (run_step os key op next p).1
  unfolding run_step
  run_step-IsChanged key op next p h go =
      ground (arith, h, go (report (step_done key) (record p { system = (op p.system).1 })) h)

  rollback_install-view :
      (prev : PrevService A) (n : List String) (t : T)
      → IsFaithful n
      → view n (service_back os prev t).1 ≡ view n t
  unfolding rollback_install
  rollback_install-view unknown n t h = h.starting t
  rollback_install-view absent n t h = h.deleting t
  rollback_install-view (known a running) n t h =
      let t1 = (os.restore_previous_service a t).1 in
      ground (arith, h.reinstating a t, h.starting t1)

  step_shell-IsChanged : (p : Progress T) → IsChanged p → IsChanged (step_shell os p).1
  unfolding step_shell step_start
  step_shell-IsChanged p h =
      run_step-IsChanged shell_integration os.install_shell_integration (step_start os)
        (record (report (step shell_integration) p) { shell_changed = true }) h
        (λ q hq.
          run_step-IsChanged start_service os.start_service (λ q'. (true, q'))
            (report (step start_service) q) hq (λ q' hq'. hq'))

  step_unpack-IsChanged :
      (req : InstallRequest) (entries : List PayloadEntry) (p : Progress T)
      → p.stopped ≡ true
      → IsChanged (step_unpack os req entries p).1
  unfolding step_unpack step_core
  step_unpack-IsChanged req entries p h =
      run_step-IsChanged unpack (os.unpack_files entries) (step_core os req)
        (record (report (step unpack) p) { files_changed = true }) (refl, h)
        (λ q hq.
          run_step-IsChanged install_core
            (os.install_core req.student_id (credential_of req.password)) (step_shell os)
            (record (report (step install_core) q) { core_changed = true }) hq step_shell-IsChanged)

  -- What the rollback finds: changed files, or those of the start.
  step_stop-cases :
      (req : InstallRequest) (entries : List PayloadEntry) (t : T) (n : List String)
      → IsFaithful n
      → let p = (step_stop os req entries (unstarted t)).1 in
        (p.stopped ≡ true)
        × ((p.files_changed ≡ true) ⊎ ((p.files_changed ≡ false) × (view n p.system ≡ view n t)))
  unfolding step_stop run_step
  step_stop-cases req entries t n h =
      let p : Progress T = report (step stop_service) (unstarted t) in
      let q : Progress T =
        report (step_done stop_service) (record p { stopped = true; system = (stop_old os t).1 }) in
      ground (arith, h.stopping t, step_unpack-IsChanged req entries q refl)

  restore_if-view :
      (changed : Bool) (restore : T → Bool × T) (t : T) (n : List String)
      → view n (restore t).1 ≡ view n t
      → view n (restore_if os changed restore t).1 ≡ view n t
  restore_if-view true restore t n h = h
  restore_if-view false restore t n h = refl

  rollback-view :
      (prev : PrevService A) (b : Prepared F C S) (p : Progress T) (t : T) (n : List String)
      → IsFaithful n
      → os.capture_files n t ≡ some b.files
      → (p.files_changed ≡ true) ⊎ ((p.files_changed ≡ false) × (view n p.system ≡ view n t))
      → (rollback os prev b p).0 ≢ failed
      → view n (rollback os prev b p).1 ≡ view n t
  unfolding rollback
  rollback-view prev b p t n h captured cases ok =
      let t1 = (os.stop_service p.system).1 in
      let r2 = restore_if os p.files_changed (os.restore_files b.files) t1 in
      let t3 = (restore_if os p.core_changed (os.restore_core b.core) r2.1).1 in
      let t4 = (service_back os prev t3).1 in
      let files_ok : r2.0 ≡ true = ground (arith, ok) in
      let files : view n r2.1 ≡ view n t =
        ground
          (arith, cases, files_ok, h.stopping p.system, h.files_restoring b.files t t1 captured) in
      restore_if-view p.shell_changed (os.restore_shell b.shell) t4 n (h.shell_restoring b.shell t4)
      ∙ rollback_install-view prev n t3 h
      ∙ restore_if-view p.core_changed (os.restore_core b.core) r2.1 n
          (h.core_restoring b.core r2.1)
      ∙ files

  capture-files :
      (entries : List PayloadEntry) (t : T) (b : Prepared F C S)
      → capture os entries t ≡ some b
      → os.capture_files (names b) t ≡ some b.files
  unfolding capture
  capture-files entries t b h =
      elim (Option-cases (os.capture_files (map (λ e. e.name) entries) t)) [
        | inl missing ↦ ground (arith, h, missing)
        | inr (f, found) ↦ elim (Option-cases (os.capture_core t)) [
          | inl missing ↦ ground (arith, h, found, missing)
          | inr (c, core) ↦ elim (Option-cases (os.capture_shell t)) [
            | inl missing ↦ ground (arith, h, found, core, missing)
            | inr (s, shell) ↦
                let all : Prepared F C S = record {
                  entries = entries;
                  files = f;
                  core = c;
                  shell = s;
                } in
                let same : all ≡ b = ground (arith, h, found, core, shell) in
                subst (λ x. os.capture_files (names x) t ≡ some x.files) same found
          ]
        ]
      ]

  capture-prepared :
      (found : Option (List PayloadEntry)) (t : T) (b : Prepared F C S)
      → (found >>= λ all. capture os all t) ≡ some b
      → os.capture_files (names b) t ≡ some b.files
  capture-prepared none t b h = ground (arith, h)
  capture-prepared (some all) t b h = capture-files all t b h

  load-prepared :
      (found : Option (List PayloadEntry)) (next : List PayloadEntry → Option (List PayloadEntry))
      (t : T) (b : Prepared F C S)
      → (found >>= λ entries. next entries >>= λ all. capture os all t) ≡ some b
      → os.capture_files (names b) t ≡ some b.files
  load-prepared none next t b h = ground (arith, h)
  load-prepared (some entries) next t b h = capture-prepared (next entries) t b h

  prepare-files :
      (prev : PrevService A) (t : T) (b : Prepared F C S)
      → prepare os prev t ≡ some b
      → os.capture_files (names b) t ≡ some b.files
  unfolding prepare
  prepare-files unknown t b h = ground (arith, h)
  prepare-files absent t b h = load-prepared (os.load_payload t) _ t b h
  prepare-files (known a running) t b h = load-prepared (os.load_payload t) _ t b h

  conclude-view :
      (prev : PrevService A) (b : Prepared F C S) (r : Bool × Progress T) (n : List String) (x : X)
      (outcome : RollbackOutcome)
      → r.1.stopped ≡ true
      → ((rollback os prev b r.1).0 ≢ failed → view n (rollback os prev b r.1).1 ≡ x)
      → last_event (conclude os prev b r).0 ≡ some (done false outcome)
      → outcome ≢ failed
      → view n (conclude os prev b r).1 ≡ x
  unfolding conclude
  conclude-view prev b (true, p) n x outcome stopped back ended ok =
      ground (arith, ended, last_event-append p.events (done true not_needed))
  conclude-view prev b (false, p) n x outcome stopped back ended ok = ground (
    arith,
    stopped,
    back,
    ended,
    ok,
    last_event-append p.events (done false (rollback os prev b p).0),
  )

  -- An installation that fails leaves the files of its payload as they were, unless it reports that
  -- the rollback failed too: where the preparation goes through, only the unpacking and the restoring
  -- of files change them, and a captured backup that is restored without an error brings them back.
  pub install_rolls_back :
      (req : InstallRequest) (t : T) (b : Prepared F C S) (outcome : RollbackOutcome)
      → IsFaithful (names b)
      → prepare os (os.capture_prev_service t) t ≡ some b
      → last_event (run_install os req t).0 ≡ some (done false outcome)
      → outcome ≢ failed
      → view (names b) (run_install os req t).1 ≡ view (names b) t
  unfolding run_install
  install_rolls_back req t b outcome h prepared ended ok =
      let prev = os.capture_prev_service t in
      let r = step_stop os req b.entries (unstarted t) in
      let (is_stopped, cases) = step_stop-cases req b.entries t (names b) h in
      let runs : run_install os req t ≡ conclude os prev b r =
        ap
          (λ o. elim o [
            | none ↦ (done false not_needed ∷ [], t)
            | some b' ↦ conclude os prev b' (step_stop os req b'.entries (unstarted t))
          ])
          prepared in
      let concluded : view (names b) (conclude os prev b r).1 ≡ view (names b) t =
        conclude-view prev b r (names b) (view (names b) t) outcome is_stopped
          (rollback-view prev b r.1 t (names b) h (prepare-files prev t b prepared) cases)
          (ap (λ y. last_event y.0) (sym runs) ∙ ended) ok in
      ap (λ y. view (names b) y.1) runs ∙ concluded
