-- ===== src/Hub/Messages.antt =====
-- `handle_robot_message` of server/app/telemetry/hub.py. `age` is the age of a motion envelope, from
-- its time stamp, in seconds.
use patrolbot_dashboard.Base.{
  String, Bool, true, false, not, ◌||◌, List, ltb, eqb_ℤ, maybe, if◌then◌else◌,
}
use patrolbot_dashboard.Base.Float.{Float, nano, lt, add, negate}
use patrolbot_dashboard.Protocol.Telemetry.{
  LidarData, MapData, PoseData, PathData, BatteryData, BaseStateData, MotionData, DiagnosticsData,
  ResourcesData,
}
use patrolbot_dashboard.Store.Calls.{Call}
use patrolbot_dashboard.Hub.{
  RobotSession, Channel, Frame, Output, Env, Task, out, out_if, on_store, emit_events, emit_derived,
}

pub data Message : Type 0 where
  hello : List String → Message
  heartbeat : Message
  pose : PoseData → Message
  lidar : LidarData → Message
  path : PathData → Message
  battery : BatteryData → Message
  base_state : BaseStateData → Message
  motion : MotionData → Float → Message
  diagnostics : DiagnosticsData → Message
  resources : ResourcesData → Message
  map : MapData → Message
  tuning_response : Message
  other : Message

-- The base state does not vouch for a motion sample: there is none, it came before this connection,
-- it is of another session, or the sample's odometry epoch is older than that of the last one.
unfoldable pub unvouched : RobotSession → MotionData → Bool
unvouched session sample =
    maybe true (λ base. not (eqb_ℤ sample.session_generation base.session_generation))
      session.state.base_state.value
    || maybe true (λ t. ltb t session.connected_mono) session.state.base_state.received_mono
    || maybe false (λ m. ltb sample.odom_epoch_generation m.odom_epoch_generation)
        session.state.motion.value

-- `age < -1 or age > 1.5`.
unfoldable pub untimely : Float → Bool
untimely age = lt age (negate (nano 1_000_000_000)) || lt (nano 1_500_000_000) age

-- `max(0, age)`.
abbrev pub at_least_zero : Float → Float
at_least_zero age = if lt (nano 0) age then age else nano 0

unfoldable pub aged : Float → MotionData → MotionData
aged age sample = record sample { receipt_age_s = add sample.receipt_age_s (at_least_zero age) }

-- What follows the branch of a message: the fan-out, the events, status and health, and the drive.
unfoldable pub follow_up : Env → Task → Task
unfolding out emit_events emit_derived
follow_up env t = out (Output.teleop_changed t.session.ident) (emit_derived env (emit_events env t))

unfoldable pub rebroadcast : Env → Channel → Task → Task
unfolding out follow_up
rebroadcast env channel t =
    follow_up env (out (Output.published t.session.robot_id (Frame.telemetry channel)) t)

-- A payload that is stored, offered to the recorder and sent on.
unfoldable pub take_in : Env → Channel → Call → Task → Task
unfolding on_store out rebroadcast
take_in env channel c t = rebroadcast env channel (out (Output.recorded channel) (on_store env c t))

unfoldable pub take_motion : Env → MotionData → Float → Task → Task
unfolding unvouched untimely aged take_in
take_motion env sample age t =
    if unvouched t.session sample || untimely age
    then t
    else take_in env Channel.motion (Call.motions env.now (aged age sample)) t

unfoldable pub take_battery : Env → BatteryData → Task → Task
unfolding on_store out rebroadcast
take_battery env sample t = rebroadcast env Channel.battery (
    out_if env.has_db (Output.battery_stored t.session.robot_id)
      (out (Output.recorded Channel.battery) (on_store env (Call.batteries env.now sample) t)))

unfoldable pub take_hello : Env → List String → Task → Task
unfolding on_store out follow_up
take_hello env capabilities t = follow_up env (
    out (Output.published t.session.robot_id (Frame.state_capabilities capabilities))
      (on_store env (Call.declares capabilities) t))

unfoldable pub dispatch : Env → Message → Task → Task
unfolding take_hello follow_up take_in take_battery take_motion rebroadcast on_store out
dispatch env (Message.hello capabilities) = take_hello env capabilities
dispatch env Message.heartbeat = follow_up env
dispatch env (Message.pose x) = take_in env Channel.pose (Call.poses env.now x)
dispatch env (Message.lidar x) = take_in env Channel.lidar (Call.lidars env.now x)
dispatch env (Message.path x) = take_in env Channel.path (Call.paths env.now x)
dispatch env (Message.battery x) = take_battery env x
dispatch env (Message.base_state x) = take_in env Channel.base_state (Call.base_states env.now x)
dispatch env (Message.motion x age) = take_motion env x age
dispatch env (Message.diagnostics x) = take_in env Channel.diagnostics (Call.diagnoses env.now x)
dispatch env (Message.resources x) =
    λ t. rebroadcast env Channel.resources (on_store env (Call.resources env.now x) t)
dispatch env (Message.map x) =
    λ t. rebroadcast env Channel.map (on_store env (Call.maps env.now x) t)
dispatch env Message.tuning_response = λ t. out (Output.tuning_reply t.session.ident) t
dispatch env Message.other = follow_up env

-- The message of the current session of its robot.
unfoldable pub handle_message : Env → Message → Task → Task
unfolding on_store dispatch
handle_message env message t = dispatch env message (on_store env (Call.heartbeats env.now) t)
