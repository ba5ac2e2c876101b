-- ===== src/Status/Examples.antt =====
-- Tests of the status line and the health card, and their theorems at concrete inputs.
use patrolbot_dashboard.Base.{◌≡◌, ◌≢◌, refl, ◌⊎◌, true, false, none, some, [], ◌∷◌, All}
use patrolbot_dashboard.Base.Int
use patrolbot_dashboard.Base.Float.{nano, le, lt, fabs, is_finite}
use patrolbot_dashboard.Base.Text.{one_of, lower, upper, strip}
use patrolbot_dashboard.Protocol.Telemetry.{
  Connection, BaseStateData, GoalData, DiagLevel, parked, still, no_map,
}
use patrolbot_dashboard.Status.Line.{
  StatusInputs, navigating, ready, stale_age, hazard, shown_on_dock, calm_status, under_way,
  derive_status,
}
use patrolbot_dashboard.Status.Card.{
  HealthInputs, healthy, warning, subsystems, connection_line, drive_base_line, battery_line,
  laser_line, localization_line, systems_line, systems_of, computer_line, roll_up, derive_health,
}
use patrolbot_dashboard.Status.Agreement.{Fresh, Vouched, calm-Vouched, navigating-Fresh}
use patrolbot_dashboard.Status.Overall.{
  Covers, Shows, Current, overall_is_worst, healthy-Current, calm_agrees,
}

abbrev target : GoalData
target = record { map = no_map; x = nano 1; y = nano 2; yaw = none }

abbrev idle : StatusInputs
idle = record {
  connection = Connection.online;
  base_state = some parked;
  diagnostics = none;
  pose = some still;
  path = none;
  recording = false;
  stalled = false;
  base_state_age_s = some (nano 1_000_000_000);
  diagnostics_age_s = none;
  pose_age_s = some (nano 100_000_000);
}

abbrev driving : StatusInputs
driving = record idle {
  pose = some (record still { linear_velocity = nano 300_000_000 });
  path = some (record { map = no_map; frame_id = "map"; points = []; goal = some target });
}

abbrev well : HealthInputs
well = record {
  connection = Connection.online;
  base_state = some parked;
  battery = some (record {
    voltage = nano 25;
    current = none;
    percentage = some (nano 80_000_000_000);
    charging = false;
  });
  diagnostics = some (record {
    items = record { name = "laser"; level = DiagLevel.ok; message = ""; values = none } ∷ [];
  });
  pose = some still;
  resources = some (record {
    cpu_percent = nano 1;
    memory_percent = nano 1;
    cpu_temp_c = none;
    disk_percent = nano 40_000_000_000;
    wifi_signal_dbm = none;
  });
  lidar_age_s = some (nano 0);
  base_state_age_s = some (nano 1_000_000_000);
  battery_age_s = some (nano 1_000_000_000);
  diagnostics_age_s = some (nano 0);
  pose_age_s = some (nano 0);
  resources_age_s = some (nano 0);
  battery_low_percent = nano 20_000_000_000;
  battery_critical_percent = nano 10_000_000_000;
}

idle_ready : (derive_status idle).status ≡ ready
unfolding derive_status hazard calm_status shown_on_dock under_way stale_age is_finite le lt one_of
    lower upper strip
idle_ready = refl

driving_shown : (derive_status driving).status ≡ navigating
unfolding derive_status hazard calm_status shown_on_dock under_way stale_age is_finite le lt one_of
    lower upper strip fabs Int.abs
driving_shown = refl

well-healthy : (derive_health well).overall ≡ healthy
unfolding derive_health subsystems connection_line drive_base_line battery_line laser_line
    localization_line systems_line systems_of computer_line roll_up stale_age is_finite le lt
well-healthy = refl

online_reachable : Connection.online ≢ Connection.offline
online_reachable e = cc

calm-Vouched_example : (b : BaseStateData) × Vouched driving b
unfolding derive_status hazard calm_status shown_on_dock under_way stale_age is_finite le lt one_of
    lower upper strip fabs Int.abs
calm-Vouched_example = calm-Vouched driving refl

navigating-Fresh_example :
    (b : BaseStateData) × (some parked ≡ some b)
    × ((b.undock_active ≡ true) ⊎ Fresh (some (nano 100_000_000)) 15_000_000_000)
navigating-Fresh_example = navigating-Fresh driving driving_shown

overall_is_worst_example :
    All (Covers (derive_health well).overall) (derive_health well).lines
    × (((derive_health well).overall ≡ healthy)
        ⊎ Shows (derive_health well).overall (derive_health well).lines)
overall_is_worst_example = overall_is_worst well online_reachable

healthy-Current_example : Current well
healthy-Current_example = healthy-Current well online_reachable well-healthy

calm_agrees_example :
    ((drive_base_line well).level ≡ healthy) ⊎ ((drive_base_line well).level ≡ warning)
unfolding derive_status hazard calm_status shown_on_dock under_way stale_age is_finite le lt one_of
    lower upper strip
calm_agrees_example = calm_agrees idle well refl refl refl refl
