-- ===== src/Protocol/Telemetry.antt =====
-- Telemetry payloads of server/app/protocol/messages.py.
use patrolbot_dashboard.Base.{ℕ, ℤ, pos, Bool, true, false, Option, none, some, List, String}
use patrolbot_dashboard.Base.Float.{Float, nano}

pub data Connection : Type 0 where
  online stale offline : Connection

pub data LidarState : Type 0 where
  unknown off starting ready fault : LidarState

pub data DiagLevel : Type 0 where
  ok warn error stale : DiagLevel

pub record MapContext : Type 0 where
  pub map_id : Option String
  pub map_revision : Option String

pub record PoseData : Type 0 where
  pub map : MapContext
  pub frame_id : String
  pub x : Float
  pub y : Float
  pub yaw : Float
  pub linear_velocity : Float
  pub angular_velocity : Float
  pub covariance_trace : Option Float
  pub planar_covariance : Option (Option Float × Option Float × Option Float)
  pub covariance_limit : Option Float
  pub localization_age_s : Option Float
  pub localization_max_age_s : Option Float
  pub localized : Bool

pub record GoalData : Type 0 where
  pub map : MapContext
  pub x : Float
  pub y : Float
  pub yaw : Option Float

pub record PathData : Type 0 where
  pub map : MapContext
  pub frame_id : String
  pub points : List (Float × Float)
  pub goal : Option GoalData

pub record BatteryData : Type 0 where
  pub voltage : Float
  pub current : Option Float
  pub percentage : Option Float
  pub charging : Bool

pub record BaseStateData : Type 0 where
  pub map : MapContext
  pub operation_fault_reason : String
  pub operation_fault_request_id : String
  pub operation_outcome_unknown : Bool
  pub lidar_state : LidarState
  pub lidar_power_supported : Bool
  pub lidar_scan_age : Float
  pub map_activated_stamp_ns : ℕ
  pub session_generation : ℤ
  pub link_connected : Bool
  pub telemetry_age : Float
  pub hardware_state_valid : Bool
  pub charge_state : String
  pub motors_enabled : Bool
  pub estop_pressed : Bool
  pub fault_flags : ℤ
  pub stall_value : ℤ
  pub bumpers_front : Bool
  pub bumpers_rear : Bool
  pub bumpers_valid : Option Bool
  pub dock_state : Option String
  pub dock_state_valid : Option Bool
  pub dock_phase : Option ℤ
  pub dock_phase_name : Option String
  pub undock_active : Bool
  pub undock_release_attempts : Option ℤ
  pub minimum_rear_range : Option Float
  pub rear_sonar_usable : Option Bool
  pub redock_inhibited : Option Bool
  pub redock_inhibit_remaining : Option Float
  pub undock_profile_commissioned : Option Bool
  pub odom_epoch_valid : Bool
  pub raw_odom_age_s : Option Float
  pub localization_recovery_required : Bool
  pub localization_recovery_stage : String
  pub localization_seed_stamp_ns : ℕ

-- `source` has one possible value and is left out.
pub record MotionData : Type 0 where
  pub linear_velocity : Float
  pub angular_velocity : Float
  pub sample_age_s : Float
  pub receipt_age_s : Float
  pub session_generation : ℤ
  pub odom_epoch : String
  pub odom_epoch_generation : ℕ

pub record DiagnosticItem : Type 0 where
  pub name : String
  pub level : DiagLevel
  pub message : String
  pub values : Option (List (String × String))

pub record DiagnosticsData : Type 0 where
  pub items : List DiagnosticItem

pub record ResourcesData : Type 0 where
  pub cpu_percent : Float
  pub memory_percent : Float
  pub cpu_temp_c : Option Float
  pub disk_percent : Float
  pub wifi_signal_dbm : Option ℤ

pub record LidarData : Type 0 where
  pub map : MapContext
  pub angle_min : Float
  pub angle_increment : Float
  pub ranges : List (Option Float)

pub record MapOrigin : Type 0 where
  pub x : Float
  pub y : Float
  pub yaw : Float

pub record MapData : Type 0 where
  pub map : MapContext
  pub map_version : ℤ
  pub name : String
  pub resolution : Float
  pub width : ℤ
  pub height : ℤ
  pub origin : MapOrigin
  pub rle : List (ℤ × ℤ)

-- A healthy robot, parked clear of its dock, for the tests and the witnesses.
abbrev pub no_map : MapContext
no_map = record { map_id = none; map_revision = none }

abbrev pub parked : BaseStateData
parked = record {
  map = no_map;
  operation_fault_reason = "";
  operation_fault_request_id = "";
  operation_outcome_unknown = false;
  lidar_state = ready;
  lidar_power_supported = true;
  lidar_scan_age = nano 100_000_000;
  map_activated_stamp_ns = 0;
  session_generation = pos 4;
  link_connected = true;
  telemetry_age = nano 50_000_000;
  hardware_state_valid = true;
  charge_state = "discharging";
  motors_enabled = true;
  estop_pressed = false;
  fault_flags = pos 0;
  stall_value = pos 0;
  bumpers_front = false;
  bumpers_rear = false;
  bumpers_valid = some true;
  dock_state = some "CLEAR_CONFIRMED";
  dock_state_valid = some true;
  dock_phase = none;
  dock_phase_name = none;
  undock_active = false;
  undock_release_attempts = none;
  minimum_rear_range = none;
  rear_sonar_usable = none;
  redock_inhibited = none;
  redock_inhibit_remaining = none;
  undock_profile_commissioned = some true;
  odom_epoch_valid = true;
  raw_odom_age_s = some (nano 20_000_000);
  localization_recovery_required = false;
  localization_recovery_stage = "";
  localization_seed_stamp_ns = 1;
}

abbrev pub still : PoseData
still = record {
  map = no_map;
  frame_id = "map";
  x = nano 0;
  y = nano 0;
  yaw = nano 0;
  linear_velocity = nano 0;
  angular_velocity = nano 0;
  covariance_trace = none;
  planar_covariance = none;
  covariance_limit = none;
  localization_age_s = none;
  localization_max_age_s = none;
  localized = true;
}
