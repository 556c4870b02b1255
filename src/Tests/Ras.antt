-- ===== src/Tests/Ras.antt =====
-- Three connections, of which the second has the name of the entry.
use gdut_net.Base.{
  ℕ, ◌+◌, ◌==◌, ◌≡◌, ◌≢◌, refl, true, false, none, some, length, if◌then◌else◌, List, [], ◌∷◌, ◌++◌,
}
use gdut_net.Ipv4.{codes}
use gdut_net.Ras.{RasApi, RasConn, choose, find_entry_connection, pbk_eq_ci, contains}
use gdut_net.Ras.Best.{IsBest, enumerated, find_entry_connection-IsBest}
use gdut_net.Service.Control.{Scm, not_installed, uncreated}

abbrev conn : ℕ → List ℕ → List ℕ → List ℕ → RasConn ℕ
conn handle name pbk device = record {
  handle = handle;
  entry_name = name ++ 0 ∷ [];
  phonebook = pbk ++ 0 ∷ [];
  device_name = device;
}

abbrev conns : List (RasConn ℕ)
conns =
    conn 1 (codes "vpn") (codes "a.pbk") (codes "WAN Miniport (PPPoE)")
    ∷ conn 2 (codes "gdut") (codes "drcom.pbk") (codes "modem")
    ∷ conn 3 (codes "gdut") (codes "other.pbk") (codes "modem")
    ∷ []

-- A service manager of which nothing is asked here.
abbrev no_manager : Scm ℕ ℕ
no_manager = record {
  connect = λ t. false;
  open_service = λ t. not_installed;
  query_status = λ t. none;
  query_config = λ t. none;
  stop = λ t. (false, t);
  start = λ t. (false, t);
  delete = λ t. (false, t);
  service_info = λ cfg_path exe. 0;
  create_service = λ info t. (uncreated, t);
  change_config = λ info t. (false, t);
  change_registration = λ command start_type t. (false, t);
  update_failure_actions = λ t. (false, t);
  now = λ t. t;
  sleep = λ d t. t + d;
}

-- A library that lists the three connections to whoever has room for six.
abbrev listing : RasApi ℕ ℕ ℕ
listing = record {
  encode_utf16 = codes;
  byte_len = λ s. length (codes s);
  conn_size = 100;
  error_string = λ code. "";
  set_entry_properties = λ pbk name t. (0, t);
  set_credentials_of = λ pbk name user pass t. (0, t);
  ras_dial = λ pbk name user pass t. ((0, 1), t);
  enum_connections = λ room t.
      if room == 6
      then record { code = 0; size = 300; connections = conns }
      else record { code = 603; size = 500; connections = [] };
  connect_status = λ h t. record { code = 0; is_down = false; error = 0 };
  hang_up = λ h t. (0, t);
  detach_ppp_dns = λ name t. t;
  rasman = no_manager;
}

find_entry_connection-IsBest_example :
    ((enumerated listing 0).code ≡ 0
      → IsBest
          (codes "gdut.pbk")
          (codes "gdut")
          (enumerated listing 0).connections
          (find_entry_connection listing "gdut.pbk" "gdut" 0))
    × ((enumerated listing 0).code ≢ 0 → find_entry_connection listing "gdut.pbk" "gdut" 0 ≡ none)
find_entry_connection-IsBest_example = find_entry_connection-IsBest listing "gdut.pbk" "gdut" 0

chosen :
    choose (codes "gdut.pbk") (codes "gdut") conns
    ≡ some (conn 2 (codes "gdut") (codes "drcom.pbk") (codes "modem"))
unfolding choose pbk_eq_ci contains gdut_net.Http.Transport.codes_eq
chosen = refl

same_phonebook : pbk_eq_ci (codes "C:\\Gdut.PBK") (codes "c:\\gdut.pbk") ≡ true
unfolding pbk_eq_ci
same_phonebook = refl
