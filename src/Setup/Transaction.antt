-- ===== src/Setup/Transaction.antt =====
-- src/setup/transaction.rs: the steps of an installation, and its rollback, with `rollback_install` of
-- src/service.rs. The calls of the operating system and the backups are the parameter `Machine`, over
-- a state T; an error of theirs is a Boolean or none. The texts of the events are left out.
pub mod Backed
pub mod Restored
use gdut_net.Ipv4.{◌>>=◌}
use gdut_net.Payload.{PayloadEntry}
use gdut_net.Base.{
  String, ℕ, Bool, true, false, not, Option, none, some, List, [], ◌∷◌, ◌++◌, ◌&&◌, any, map,
  str_eq, if◌then◌else◌,
}

pub data Credential : Type 0 where
  plain : String → Credential
  keep_existing : Credential

-- PrevService, over the command lines and the start types of services.
pub data PrevService (A : Type 0) : Type 0 where
  absent unknown : PrevService A
  known : A → Bool → PrevService A

pub data RollbackOutcome : Type 0 where
  not_needed restored restored_unknown failed : RollbackOutcome

pub data Key : Type 0 where
  stop_service unpack install_core shell_integration start_service : Key

pub data InstallEvent : Type 0 where
  step step_done : Key → InstallEvent
  done : Bool → RollbackOutcome → InstallEvent

pub record InstallRequest : Type 0 where
  pub student_id : String
  pub password : Option String

-- A is the registration of a service; F, C and S are the backups of the files, the service's core and
-- the shell.
pub record Machine (T A F C S : Type 0) : Type 0 where
  pub capture_prev_service : T → PrevService A
  pub load_payload : T → Option (List PayloadEntry)
  pub same_file : T → Option Bool
  pub read_self : T → Option (List ℕ)
  pub eq_ignore_ascii_case : String → String → Bool
  pub capture_files : List String → T → Option F
  pub capture_core : T → Option C
  pub capture_shell : T → Option S
  pub stop_service : T → Bool × T
  pub kill_tray : T → T
  pub unpack_files : List PayloadEntry → T → Bool × T
  pub install_core : String → Credential → T → Bool × T
  pub install_shell_integration : T → Bool × T
  pub start_service : T → Bool × T
  pub delete_service : T → Bool × T
  pub restore_previous_service : A → T → Bool × T
  pub restore_files : F → T → Bool × T
  pub restore_core : C → T → Bool × T
  pub restore_shell : S → T → Bool × T

-- What the closure of the preparation returns.
pub record Prepared (F C S : Type 0) : Type 0 where
  pub entries : List PayloadEntry
  pub files : F
  pub core : C
  pub shell : S

-- The variables that the steps set, the events so far, and the system.
pub record Progress (T : Type 0) : Type 0 where
  pub files_changed : Bool
  pub core_changed : Bool
  pub stopped : Bool
  pub shell_changed : Bool
  pub events : List InstallEvent
  pub system : T

abbrev pub unstarted : {T : Type 0} → T → Progress T
unstarted t = record {
  files_changed = false;
  core_changed = false;
  stopped = false;
  shell_changed = false;
  events = [];
  system = t;
}

-- `step` and `done`
abbrev pub report : {T : Type 0} → InstallEvent → Progress T → Progress T
report e p = record p { events = p.events ++ e ∷ [] }

abbrev pub credential_of : Option String → Credential
credential_of none = keep_existing
credential_of (some p) = plain p

-- `rollback_install` of src/service.rs, over the starting, the deletion and the restoring of a service.
unfoldable pub rollback_install :
    {T A : Type 0}
    → (T → Bool × T)
    → (T → Bool × T)
    → (A → T → Bool × T)
    → PrevService A
    → T
    → RollbackOutcome × T
rollback_install start delete restore unknown t =
    let (ok, t') = start t in (if ok then restored_unknown else failed, t')
rollback_install start delete restore absent t =
    let (ok, t') = delete t in (if ok then restored else failed, t')
rollback_install start delete restore (known registration was_running) t =
    let (ok, t1) = restore registration t in
    let (started, t2) = start t1 in
    if ok
    then (if was_running then (if started then restored else failed, t2) else (restored, t1))
    else (failed, t1)

module _ {T A F C S : Type 0} (os : Machine T A F C S) where
  -- The payload, with the installer itself unless it runs from its destination.
  unfoldable pub with_installer : List PayloadEntry → T → Option (List PayloadEntry)
  with_installer entries t =
      let pushed : Option (List PayloadEntry) = elim (os.read_self t) [
        | none ↦ none
        | some bytes ↦
            some (entries ++ record { name = "gdut-net-setup.exe"; content = bytes } ∷ [])
      ] in
      elim (os.same_file t) [
        | none ↦ none
        | some same ↦
            if same
            then some entries
            else if any (λ e. os.eq_ignore_ascii_case e.name "gdut-net-setup.exe") entries
            then none
            else pushed
      ]

  -- The backups of everything that the steps change.
  unfoldable pub capture : List PayloadEntry → T → Option (Prepared F C S)
  capture entries t = do
    files ← os.capture_files (map (λ e. e.name) entries) t
    core ← os.capture_core t
    shell ← os.capture_shell t
    some (record { entries = entries; files = files; core = core; shell = shell })

  unfoldable pub prepare : PrevService A → T → Option (Prepared F C S)
  unfolding with_installer capture
  prepare unknown t = none
  prepare prev t = do
    entries ← os.load_payload t
    all ← if any (λ e. str_eq e.name "gdut-net.exe") entries then with_installer entries t else none
    capture all t

  -- A step whose start is reported: its end is, and the steps after it go on, where it went well.
  unfoldable pub run_step :
      Key → (T → Bool × T) → (Progress T → Bool × Progress T) → Progress T → Bool × Progress T
  run_step key op next p =
      let (ok, t) = op p.system in
      let p' : Progress T = record p { system = t } in
      let rest = next (report (step_done key) p') in if ok then rest else (false, p')

  abbrev pub stop_old : T → Bool × T
  stop_old t = let (ok, t') = os.stop_service t in (ok, if ok then os.kill_tray t' else t')

  unfoldable pub step_start : Progress T → Bool × Progress T
  unfolding run_step
  step_start p =
      run_step start_service os.start_service (λ p'. (true, p')) (report (step start_service) p)

  unfoldable pub step_shell : Progress T → Bool × Progress T
  unfolding run_step step_start
  step_shell p =
      run_step shell_integration os.install_shell_integration step_start
        (record (report (step shell_integration) p) { shell_changed = true })

  unfoldable pub step_core : InstallRequest → Progress T → Bool × Progress T
  unfolding run_step step_shell
  step_core req p =
      run_step install_core (os.install_core req.student_id (credential_of req.password)) step_shell
        (record (report (step install_core) p) { core_changed = true })

  unfoldable pub step_unpack : InstallRequest → List PayloadEntry → Progress T → Bool × Progress T
  unfolding run_step step_core
  step_unpack req entries p =
      run_step unpack (os.unpack_files entries) (step_core req)
        (record (report (step unpack) p) { files_changed = true })

  unfoldable pub step_stop : InstallRequest → List PayloadEntry → Progress T → Bool × Progress T
  unfolding run_step step_unpack
  step_stop req entries p =
      run_step stop_service stop_old (step_unpack req entries)
        (record (report (step stop_service) p) { stopped = true })

  abbrev pub service_back : PrevService A → T → RollbackOutcome × T
  service_back = rollback_install os.start_service os.delete_service os.restore_previous_service

  -- A backup that is restored if its part was changed: whether nothing failed.
  abbrev pub restore_if : Bool → (T → Bool × T) → T → Bool × T
  restore_if changed restore t = let r = restore t in if changed then r else (true, t)

  -- The rollback once the old service was stopped.
  unfoldable pub rollback : PrevService A → Prepared F C S → Progress T → RollbackOutcome × T
  unfolding rollback_install
  rollback prev b p =
      let (is_stopped, t1) = os.stop_service p.system in
      let (files_ok, t2) = restore_if p.files_changed (os.restore_files b.files) t1 in
      let (core_ok, t3) = restore_if p.core_changed (os.restore_core b.core) t2 in
      let (service, t4) = service_back prev t3 in
      let (shell_ok, t5) = restore_if p.shell_changed (os.restore_shell b.shell) t4 in
      (if is_stopped && files_ok && core_ok && shell_ok then service else failed, t5)

  -- The end of `run_install`, after the steps.
  unfoldable pub conclude :
      PrevService A → Prepared F C S → Bool × Progress T → List InstallEvent × T
  unfolding rollback
  conclude prev b r =
      let (outcome, t) = rollback prev b r.1 in
      if r.0
      then (r.1.events ++ done true not_needed ∷ [], r.1.system)
      else if r.1.stopped
      then (r.1.events ++ done false outcome ∷ [], t)
      else (r.1.events ++ done false not_needed ∷ [], r.1.system)

  -- The events that are reported, and the system after them.
  unfoldable pub run_install : InstallRequest → T → List InstallEvent × T
  unfolding prepare step_stop conclude
  run_install req t =
      let prev = os.capture_prev_service t in
      elim (prepare prev t) [
        | none ↦ (done false not_needed ∷ [], t)
        | some b ↦ conclude prev b (step_stop req b.entries (unstarted t))
      ]
