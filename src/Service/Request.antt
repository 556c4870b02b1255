-- ===== src/Service/Request.antt =====
-- What the installation of src/service.rs is given and returns, the changes that it makes to the
-- configuration, and the calls of the system that it makes, which are the parameter `System`, over a
-- state T; an error is none or false.
use gdut_net.Base.{ℕ, String, Bool, Option, none, some, str_eq, if◌then◌else◌}
use gdut_net.Config.{Config, dial_default, heartbeat_default, wireless_default, is_blank}
use gdut_net.Ipv4.{codes}
use gdut_net.Service.Control.{Scm}
use gdut_net.Setup.FileBackup.{FileSystem, FileBackup}
use gdut_net.Setup.Transaction.{Credential, RollbackOutcome}

pub record InstallRequest : Type 0 where
  pub cfg_path : String
  pub student_id : Option String
  pub credential : Credential
  pub service_exe : String
  pub tray_exe : String

pub record InstallOutcome : Type 0 where
  pub cfg_path : String
  pub service_refreshed : Bool

-- R is the backup of the registry's value that starts the tray.
pub record System (T A R : Type 0) : Type 0 where
  pub scm : Scm T A
  pub fs : FileSystem T
  pub load : String → T → Option Config
  pub save : Config → String → T → Bool × T
  pub create_dir_all : String → T → Bool × T
  pub unprotect : String → T → Option String
  pub protect : String → T → Option String × T
  pub ensure_entry : String → String → T → Bool × T
  pub validate_entry : String → String → T → ℕ
  pub set_credentials : String → String → String → String → T → Bool × T
  pub clear_credentials : String → String → T → Bool × T
  pub register_source : T → Bool × T
  pub register_autostart : String → T → Bool × T
  pub capture_autostart : T → Option R
  pub restore_autostart : R → T → Bool × T

pub record InstallBackup (R : Type 0) : Type 0 where
  pub files : FileBackup
  pub cfg : Config
  pub old_password : Option String
  pub had_entry : Bool
  pub autostart : R

-- What `install_with_rollback` returns.
pub data Installed : Type 0 where
  installed : InstallOutcome → Installed
  install_failure : RollbackOutcome → Installed

-- Config::default()
abbrev pub config_default : Config
config_default = record {
  account = record { student_id = ""; password_blob = "" };
  dial = dial_default;
  heartbeat = heartbeat_default;
  wireless = wireless_default;
}

-- The new student ID, where one is given that is not blank.
abbrev pub with_student_id : Option String → Config → Config
with_student_id none cfg = cfg
with_student_id (some id) cfg = if is_blank (codes id) then cfg else record cfg {
  account = record { student_id = id; password_blob = cfg.account.password_blob };
}

-- The migration of an old probe URL.
abbrev pub migrate : Config → Config
migrate cfg =
    if str_eq cfg.dial.http_probe_url "http://9.9.9.9"
    then record cfg {
      dial = record {
        entry_name = cfg.dial.entry_name;
        pbk_path = cfg.dial.pbk_path;
        interface = cfg.dial.interface;
        probe_interval_secs = cfg.dial.probe_interval_secs;
        http_probe_url = "http://223.5.5.5";
      };
    }
    else cfg

abbrev pub with_blob : String → Config → Config
with_blob blob cfg = record cfg {
  account = record { student_id = cfg.account.student_id; password_blob = blob };
}

-- A call that may fail leaves a state in either case.
infixl 5 ◌>>=◌
abbrev pub ◌>>=◌ : {T B C : Type 0} → (T → Option B × T) → (B → T → Option C × T) → T → Option C × T
◌>>=◌ m f t = let (o, t') = m t in elim o [ none ↦ (none, t') | some b ↦ f b t' ]

infixl 5 ◌>>◌
abbrev pub ◌>>◌ :
    {T C : Type 0} → (T → Option (Unit {0}) × T) → (T → Option C × T) → T → Option C × T
m >> k = m >>= λ _. k

-- An answer of the system, a reading of it, a test, and a call whose failure does not count.
abbrev pub call : {T : Type 0} → (T → Bool × T) → T → Option (Unit {0}) × T
call f t = let (ok, t') = f t in (if ok then some tt else none, t')

abbrev pub ask : {T B : Type 0} → (T → Option B) → T → Option B × T
ask f t = (f t, t)

abbrev pub ensure : {T : Type 0} → Bool → T → Option (Unit {0}) × T
ensure b t = (if b then some tt else none, t)

abbrev pub attempt : {T : Type 0} → (T → Bool × T) → T → Option (Unit {0}) × T
attempt f t = (some tt, (f t).1)

abbrev pub pure : {T B : Type 0} → B → T → Option B × T
pure b t = (some b, t)
