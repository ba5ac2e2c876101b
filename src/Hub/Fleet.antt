-- ===== src/Hub/Fleet.antt =====
-- `TelemetryHub` of server/app/telemetry/hub.py as a machine: the robots' current sessions, the
-- shared allocator of event ids, the clock, and what has happened, action by action. A session
-- object is told from another by its `ident`; a call that comes from a superseded one does nothing.
use patrolbot_dashboard.Base.{
  ℕ, suc, ◌+◌, String, Bool, ◌==◌, none, List, [], ◌∷◌, maybe, or_default, if◌then◌else◌,
}
use patrolbot_dashboard.Base.Dict.{get, insert}
use patrolbot_dashboard.Store.State.{Settings, EventIdAllocator, seed, new_state, Severity}
use patrolbot_dashboard.Store.Calls.{Call}
use patrolbot_dashboard.Hub.{RobotSession, Output, Env, Task, out, on_store, emit_event}
use patrolbot_dashboard.Hub.Messages.{Message, handle_message}
use patrolbot_dashboard.Hub.Connections.{apply_connection, robot_connected, robot_disconnected}

pub record TelemetryHub : Type 0 where
  pub settings : Settings
  pub has_db : Bool
  pub clock : ℕ
  pub event_ids : EventIdAllocator
  pub robots : List (ℕ × RobotSession)
  pub next_ident : ℕ
  pub outputs : List Output

pub data Action : Type 0 where
  connects : ℕ → ℕ → Action
  disconnects : ℕ → ℕ → ℕ → Action
  receives : ℕ → ℕ → Message → Action
  replies : ℕ → ℕ → Action
  ticks : ℕ → Action
  notices : ℕ → Severity → String → String → Action
  seeds : ℕ → Action

abbrev pub env_of : TelemetryHub → Env
env_of h = record { settings = h.settings; has_db = h.has_db; now = h.clock }

abbrev pub task_of : TelemetryHub → RobotSession → Task
task_of h session = record {
  event_ids = h.event_ids;
  session = session;
  pending = [];
  outputs = h.outputs;
}

unfoldable pub commit : ℕ → Task → TelemetryHub → TelemetryHub
unfolding insert
commit robot t h = record h {
  event_ids = t.event_ids;
  robots = insert robot t.session h.robots;
  outputs = t.outputs;
}

-- The session that `get_or_create_state` makes for a robot without one.
unfoldable pub fresh_session : ℕ → TelemetryHub → RobotSession
unfolding new_state
fresh_session robot h = record {
  ident = h.next_ident;
  robot_id = robot;
  state = new_state;
  websocket = none;
  generation = 0;
  connected_mono = h.clock;
}

-- Run a call on the current session of a robot, if the condition on it holds.
unfoldable pub on_current : (RobotSession → Bool) → (Task → Task) → ℕ → TelemetryHub → TelemetryHub
unfolding get commit
on_current test f robot h =
    maybe h (λ s. if test s then commit robot (f (task_of h s)) h else h) (get robot h.robots)

abbrev pub is_session : ℕ → RobotSession → Bool
is_session ident s = s.ident == ident

abbrev pub any_session : RobotSession → Bool
any_session s = Bool.true

-- `handle_robot_command_reply`: the command broker gets the reply.
unfoldable pub command_reply : Env → Task → Task
unfolding on_store out
command_reply env t =
    out (Output.command_reply t.session.ident) (on_store env (Call.heartbeats env.now) t)

unfoldable pub connect : ℕ → ℕ → TelemetryHub → TelemetryHub
unfolding get fresh_session commit robot_connected
connect robot websocket h =
    let previous = or_default (fresh_session robot h) (get robot h.robots) in
    record (commit robot
      (robot_connected (env_of h) (suc h.next_ident) websocket (task_of h previous)) h) {
        next_ident = suc (suc h.next_ident);
      }

unfoldable pub act : Action → TelemetryHub → TelemetryHub
unfolding connect on_current robot_disconnected handle_message command_reply apply_connection
    emit_event seed
act (Action.connects robot websocket) h = connect robot websocket h
act (Action.disconnects ident robot websocket) h =
    on_current (is_session ident) (robot_disconnected (env_of h) websocket) robot h
act (Action.receives ident robot message) h =
    on_current (is_session ident) (handle_message (env_of h) message) robot h
act (Action.replies ident robot) h =
    on_current (is_session ident) (command_reply (env_of h)) robot h
act (Action.ticks robot) h = on_current any_session (apply_connection (env_of h)) robot h
act (Action.notices robot severity title message) h =
    on_current any_session (emit_event (env_of h) (Call.says severity title message)) robot h
act (Action.seeds n) h = record h { event_ids = seed n h.event_ids }

-- Every action comes some time after the one before it.
unfoldable pub run : List (ℕ × Action) → TelemetryHub → TelemetryHub
unfolding act
run [] h = h
run ((wait, action) ∷ actions) h = run actions (act action (record h { clock = h.clock + wait }))
