-- ===== src/HomeMode.antt =====
-- src/home_mode.rs: whether the tray stays. The reading of the service's state is outside.
use gdut_net.Base.{ℕ, Bool, not, ◌&&◌, ◌||◌, ◌==◌}

abbrev pub start_auto : ℕ
start_auto = 2

abbrev pub start_demand : ℕ
start_demand = 3

abbrev pub start_disabled : ℕ
start_disabled = 4

unfoldable pub tray_should_exit : ℕ → Bool → Bool
tray_should_exit start_type running =
    not running && (start_type == start_demand || start_type == start_disabled)
