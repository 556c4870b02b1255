-- ===== src/Tests/Setup.antt =====
-- A machine on which an installation fails, over the files of a disk.
use Prim.Native.String.append
use gdut_net.Base.{
  decimal, ◌<+>◌, ℕ, ◌≡◌, refl, ap, String, true, false, none, some, Option, str_eq, if◌then◌else◌,
  List, [], ◌∷◌, arith, map,
}
use gdut_net.Ipv4.{codes}
use gdut_net.Payload.{PayloadEntry}
use gdut_net.Setup.FileBackup
use gdut_net.Setup.FileBackup.{Contents, contents, FileBackup}
use gdut_net.Setup.FileBackup.Laws.{IsApart}
use gdut_net.Setup.Transaction.{
  absent, restored, InstallRequest, Machine, Prepared, run_install, prepare, done,
}
use gdut_net.Setup.Transaction.Restored.{names, last_event}
use gdut_net.Setup.Transaction.Backed.{IsBacked, install_restores_payload}
use gdut_net.Tests.Files.{Files, disk, disk-IsLawful, put}

abbrev payload : List PayloadEntry
payload = record { name = "gdut-net.exe"; content = [] } ∷ []

-- The core cannot be installed.
abbrev machine : Machine Files ℕ FileBackup ℕ ℕ
machine = record {
  capture_prev_service = λ t. absent;
  load_payload = λ t. some payload;
  same_file = λ t. some true;
  read_self = λ t. none;
  eq_ignore_ascii_case = λ a b. false;
  capture_files = λ n t. FileBackup.capture disk (map (disk.join "") n) t;
  capture_core = λ t. some 0;
  capture_shell = λ t. some 0;
  stop_service = λ t. (true, t);
  kill_tray = λ t. t;
  unpack_files = λ entries t. (true, put "/gdut-net.exe" (contents (7 ∷ [])) t);
  install_core = λ id credential t. (false, t);
  install_shell_integration = λ t. (true, t);
  start_service = λ t. (true, t);
  delete_service = λ t. (true, t);
  restore_previous_service = λ a t. (true, t);
  restore_files = λ f t. FileBackup.restore disk 1 f t;
  restore_core = λ c t. (true, t);
  restore_shell = λ s t. (true, t);
}

abbrev request : InstallRequest
request = record { student_id = "3120000000"; password = none }

-- The old version of the file.
abbrev start : Files
start = (λ q. if str_eq q "/gdut-net.exe" then contents (5 ∷ []) else Contents.missing, 0)

abbrev prepared : Prepared FileBackup ℕ ℕ
prepared = record {
  entries = payload;
  files = ("/gdut-net.exe", some (5 ∷ [])) ∷ [];
  core = 0;
  shell = 0;
}

machine-IsBacked : IsBacked disk 1 "" machine (names prepared)
machine-IsBacked = record {
  capturing = λ t. refl;
  restoring = λ f t. refl;
  stopping = λ t. refl;
  killing = λ t. refl;
  starting = λ t. refl;
  deleting = λ t. refl;
  reinstating = λ a t. refl;
  core_restoring = λ c t. refl;
  shell_restoring = λ s t. refl;
}

payload-IsApart : IsApart disk "/gdut-net.exe"
payload-IsApart dir n =
    let number = decimal disk.process_id <+> "-" <+> decimal n in
    let dotted = ap codes (append.cons "." "gdut-install-" number) in
    (
      (λ e. ground (arith, ap codes e, dotted)),
      (λ e. ground (arith, ap codes e)),
      (λ e. ground (arith, ap codes e)),
    )

was_prepared : prepare machine (machine.capture_prev_service start) start ≡ some prepared
unfolding prepare FileBackup.capture
was_prepared = refl

ended : last_event (run_install machine request start).0 ≡ some (done false restored)
unfolding run_install FileBackup.capture FileBackup.restore gdut_net.Payload.bytes_eq
    gdut_net.Base.decimal
ended = refl

install_restores_payload_example :
    (disk.read "/gdut-net.exe" (run_install machine request start).1 ≡ contents (5 ∷ [])) × Unit {0}
install_restores_payload_example =
    install_restores_payload disk 1 "" machine request start prepared restored disk-IsLawful
      machine-IsBacked (payload-IsApart, tt) was_prepared ended (λ e. ground (arith, e))
