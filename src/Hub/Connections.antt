-- ===== src/Hub/Connections.antt =====
-- `_apply_connection`, `robot_connected` and `robot_disconnected` of server/app/telemetry/hub.py, on
-- the task of the robot's current session.
use patrolbot_dashboard.Base.{ℕ, suc, Bool, false, ◌==◌, none, some, [], maybe, if◌then◌else◌}
use patrolbot_dashboard.Base.Float.{Float, lt}
use patrolbot_dashboard.Protocol.Telemetry.{Connection, online, stale, offline}
use patrolbot_dashboard.Store.State.{Settings, heartbeat_age}
use patrolbot_dashboard.Store.Records.{same_connection}
use patrolbot_dashboard.Store.Calls.{Call}
use patrolbot_dashboard.Hub.{
  RobotSession, Frame, Output, Env, Task, out, on_store, emit_events, emit_derived,
}

abbrev by_age : Settings → Float → Connection
by_age settings age =
    if lt age settings.online_threshold_s
    then online
    else if lt age settings.offline_threshold_s
    then stale
    else offline

-- What the socket and the age of the last heartbeat say of the connection.
unfoldable pub judged : Env → RobotSession → Connection
unfolding heartbeat_age
judged env session = elim session.websocket [
  | none ↦ offline
  | some w ↦ maybe offline (by_age env.settings) (heartbeat_age env.now session.state)
]

unfoldable pub persist_last_pose : Env → Task → Task
unfolding out
persist_last_pose env t =
    if env.has_db
    then maybe t (λ pose. out (Output.pose_stored t.session.robot_id pose) t)
        t.session.state.pose.value
    else t

unfoldable pub change_connection : Env → Connection → Task → Task
unfolding persist_last_pose on_store out emit_events
change_connection env state t = emit_events env (
    out (Output.published t.session.robot_id (Frame.state_connection state)) (
      on_store env (Call.connects state)
        (if same_connection state offline then persist_last_pose env t else t)))

unfoldable pub apply_connection : Env → Task → Task
unfolding judged change_connection emit_derived out
apply_connection env t =
    let state = judged env t.session in
    out (Output.teleop_changed t.session.ident) (
      emit_derived env (
        if same_connection state t.session.state.connection
        then t
        else change_connection env state t))

-- The session object that replaces another; it keeps the robot's state.
unfoldable pub replaced : Env → ℕ → ℕ → RobotSession → RobotSession
replaced env ident websocket previous = record {
  ident = ident;
  robot_id = previous.robot_id;
  state = previous.state;
  websocket = some websocket;
  generation = suc previous.generation;
  connected_mono = env.now;
}

-- What a new connection does to the session before it.
unfoldable pub supersede : Env → Task → Task
unfolding on_store out
supersede env t =
    let revoked =
      out (Output.teleop_revoked t.session.robot_id)
        (on_store env Call.drops_motion (out (Output.tuning_disconnected t.session.ident) t)) in
    maybe revoked (λ w. out (Output.closed w) revoked) t.session.websocket

unfoldable pub robot_connected : Env → ℕ → ℕ → Task → Task
unfolding supersede replaced on_store apply_connection
robot_connected env ident websocket t =
    let old = supersede env t in
    let new = record old { session = replaced env ident websocket old.session } in
    apply_connection env
      (on_store env (Call.heartbeats env.now) (on_store env (Call.declares []) new))

abbrev is_socket : ℕ → RobotSession → Bool
is_socket websocket session = maybe false (λ w. w == websocket) session.websocket

unfoldable pub disconnect : Env → Task → Task
unfolding on_store out apply_connection
disconnect env t =
    let closed = record t { session = record t.session { websocket = none } } in
    let revoked = out (Output.teleop_revoked t.session.robot_id) closed in
    apply_connection env (
      out (Output.tuning_disconnected t.session.ident)
        (on_store env Call.drops_motion (on_store env Call.silences revoked)))

unfoldable pub robot_disconnected : Env → ℕ → Task → Task
unfolding disconnect
robot_disconnected env websocket t = if is_socket websocket t.session then disconnect env t else t
