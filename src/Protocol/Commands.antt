-- ===== src/Protocol/Commands.antt =====
-- Command payloads of server/app/protocol/messages.py. Command ids are compared for equality
-- only, and are numbers here.
use patrolbot_dashboard.Base.{ℕ, Bool, Option}
use patrolbot_dashboard.Protocol.Telemetry.{GoalData}

pub data Command : Type 0 where
  navigate_to_pose set_initial_pose stop teleop_start teleop_stop : Command
  charge_release motor_enable motor_disable undock : Command
  software_reset set_lidar_power dock_reset : Command

pub Command-discrete : Discrete Command
Command-discrete = hlevel

pub data CommandOutcome : Type 0 where
  succeeded failed rejected canceled timeout : CommandOutcome

pub record CommandRequestData : Type 0 where
  pub command_id : ℕ
  pub command : Command
  pub measured_seed : Bool
  pub enabled : Option Bool
  pub goal : Option GoalData
  pub takeover : Bool
  pub allow_unlocalized : Bool
  pub operator_authorized : Bool
