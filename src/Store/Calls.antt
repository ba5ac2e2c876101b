-- ===== src/Store/Calls.antt =====
-- The calls on the state of one robot in server/app/telemetry/store.py, as one step, with the clock's
-- reading at the call. `refreshes` is what `recompute` does to the diagnostics, and
-- `heartbeats`, `says`, `silences` and `drops_motion` what server/app/telemetry/hub.py does by `record_heartbeat`,
-- `emit_event` and when a connection comes or goes.
use patrolbot_dashboard.Base.{ℕ, String, List, [], ◌∷◌, none}
use patrolbot_dashboard.Protocol.Telemetry.{
  Connection, LidarData, MapData, PoseData, PathData, BatteryData, BaseStateData, MotionData,
  DiagnosticsData, ResourcesData,
}
use patrolbot_dashboard.Store.State.{
  Settings, empty, Severity, Alert, RobotState, Store, on_state, add_event, record_heartbeat,
  set_capabilities,
}
use patrolbot_dashboard.Store.Diagnostics.{refresh_diagnostics, record_diagnostics}
use patrolbot_dashboard.Store.Records.{
  record_pose, record_lidar, record_path, record_battery, record_base_state, record_motion,
  record_resources, record_map, set_connection,
}

pub data Call : Type 0 where
  poses : ℕ → PoseData → Call
  lidars : ℕ → LidarData → Call
  paths : ℕ → PathData → Call
  batteries : ℕ → BatteryData → Call
  base_states : ℕ → BaseStateData → Call
  motions : ℕ → MotionData → Call
  diagnoses : ℕ → DiagnosticsData → Call
  resources : ℕ → ResourcesData → Call
  maps : ℕ → MapData → Call
  connects : Connection → Call
  declares : List String → Call
  heartbeats refreshes : ℕ → Call
  says : Severity → String → String → Call
  silences drops_motion : Call

-- `state.motion.data = None; state.motion.received_mono = None`.
unfoldable pub drop_motion : RobotState → RobotState
unfolding empty
drop_motion r = record r { motion = empty }

-- `state.last_heartbeat_mono = None`.
unfoldable pub lose_heartbeat : RobotState → RobotState
lose_heartbeat r = record r { last_heartbeat_mono = none }

unfoldable pub call : Settings → Call → Store → Store
unfolding record_pose record_lidar record_path record_battery record_base_state record_motion
    record_diagnostics record_resources record_map set_connection set_capabilities record_heartbeat
    refresh_diagnostics add_event drop_motion lose_heartbeat
call settings (Call.poses now sample) = record_pose settings now sample
call settings (Call.lidars now sample) = record_lidar now sample
call settings (Call.paths now sample) = record_path now sample
call settings (Call.batteries now sample) = record_battery settings now sample
call settings (Call.base_states now sample) = record_base_state now sample
call settings (Call.motions now sample) = record_motion now sample
call settings (Call.diagnoses now sample) = record_diagnostics settings now sample
call settings (Call.resources now sample) = record_resources now sample
call settings (Call.maps now sample) = record_map now sample
call settings (Call.connects state) = set_connection state
call settings (Call.declares capabilities) = on_state (set_capabilities capabilities)
call settings (Call.heartbeats now) = on_state (record_heartbeat now)
call settings (Call.refreshes now) = on_state (refresh_diagnostics settings now)
call settings (Call.says severity title message) = add_event severity (Alert.notice title message)
call settings Call.silences = on_state lose_heartbeat
call settings Call.drops_motion = on_state drop_motion

unfoldable pub run : Settings → List Call → Store → Store
unfolding call
run settings [] s = s
run settings (c ∷ calls) s = run settings calls (call settings c s)
