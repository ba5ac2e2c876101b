-- ===== src/Hub.antt =====
-- server/app/telemetry/hub.py: the robots' connections, and what their messages do. One call works
-- on a `Task`, the session it is for with the shared allocator, and leaves `Output`s: the frames it
-- publishes and its calls of the recorder, the database and the two brokers. A call runs to its end
-- before the next one. The payload of a telemetry frame and the frames of status and health are left
-- out, `derived` stands for the call that makes the latter; time stamps are read from the clock.
pub mod Messages
pub mod Connections
pub mod Fleet
pub mod Runs
pub mod Ids
pub mod Motion
pub mod History
pub mod Presence
mod Examples
use patrolbot_dashboard.Base.{
  ℕ, String, Bool, true, false, Option, none, some, List, [], ◌∷◌, ◌++◌, if◌then◌else◌,
}
use patrolbot_dashboard.Base.Float.{Float}
use patrolbot_dashboard.Protocol.Telemetry.{Connection, PoseData}
use patrolbot_dashboard.Store.State.{Settings, EventIdAllocator, EventData, RobotState, Store}
use patrolbot_dashboard.Store.Calls.{Call, call}

pub record RobotSession : Type 0 where
  pub ident : ℕ
  pub robot_id : ℕ
  pub state : RobotState
  pub websocket : Option ℕ
  pub generation : ℕ
  pub connected_mono : ℕ

-- The kinds of telemetry that a browser is sent on.
pub data Channel : Type 0 where
  pose lidar path battery base_state motion diagnostics resources map : Channel

pub data Frame : Type 0 where
  telemetry : Channel → Frame
  state_capabilities : List String → Frame
  state_connection : Connection → Frame
  event_append : EventData → Frame

pub data Output : Type 0 where
  published : ℕ → Frame → Output
  recorded : Channel → Output
  event_recorded : EventData → Output
  event_stored : ℕ → EventData → Output
  battery_stored : ℕ → Output
  pose_stored : ℕ → PoseData → Output
  derived : ℕ → Output
  teleop_changed : ℕ → Output
  teleop_revoked : ℕ → Output
  tuning_disconnected : ℕ → Output
  tuning_reply : ℕ → Output
  command_reply : ℕ → Output
  closed : ℕ → Output

-- What a call reads besides its session.
pub record Env : Type 0 where
  pub settings : Settings
  pub has_db : Bool
  pub now : ℕ

pub record Task : Type 0 where
  pub event_ids : EventIdAllocator
  pub session : RobotSession
  pub pending : List EventData
  pub outputs : List Output

unfoldable pub out : Output → Task → Task
out o t = record t { outputs = t.outputs ++ (o ∷ []) }

abbrev pub out_if : Bool → Output → Task → Task
out_if b o t = if b then out o t else t

abbrev pub store_of : Task → Store
store_of t = record { event_ids = t.event_ids; state = t.session.state; returned = t.pending }

abbrev pub put_store : Store → Task → Task
put_store s t = record t {
  event_ids = s.event_ids;
  session = record t.session { state = s.state };
  pending = s.returned;
}

-- A call on the session's state; the events that it returns are emitted later.
unfoldable pub on_store : Env → Call → Task → Task
unfolding call
on_store env c t = put_store (call env.settings c (store_of t)) t

unfoldable pub emit_each : Env → List EventData → Task → Task
unfolding out
emit_each env [] t = t
emit_each env (e ∷ events) t =
    let robot = t.session.robot_id in
    emit_each env events (
      out_if env.has_db (Output.event_stored robot e)
        (out (Output.event_recorded e) (out (Output.published robot (Frame.event_append e)) t)))

unfoldable pub emit_events : Env → Task → Task
unfolding emit_each
emit_events env t = emit_each env t.pending (record t { pending = [] })

-- `_emit_derived`.
unfoldable pub emit_derived : Env → Task → Task
unfolding on_store out
emit_derived env t =
    out (Output.derived t.session.robot_id) (on_store env (Call.refreshes env.now) t)

-- `emit_event`.
unfoldable pub emit_event : Env → Call → Task → Task
unfolding on_store emit_events
emit_event env notice t = emit_events env (on_store env notice t)
