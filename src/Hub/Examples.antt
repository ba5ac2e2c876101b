-- ===== src/Hub/Examples.antt =====
-- Two robots that connect, one of them twice, and report their base state and a motion sample.
use mathlib.Core.List.{Nodup}
use mathlib.Core.List.Perm
use patrolbot_dashboard.Base.{ℕ, pos, true, some, List, [], ◌∷◌, ◌≡◌, refl, arith}
use patrolbot_dashboard.Base.Dict.{get, AllValues}
use patrolbot_dashboard.Base.Float.{nano, lt}
use patrolbot_dashboard.Base.Text.{codes, lower}
use patrolbot_dashboard.Protocol.Telemetry.{MotionData, parked, online, offline}
use patrolbot_dashboard.Store.State.{Settings, new_state, heartbeat_age}
use patrolbot_dashboard.Hub.{RobotSession}
use patrolbot_dashboard.Hub.Messages.{Message}
use patrolbot_dashboard.Hub.Connections.{judged}
use patrolbot_dashboard.Hub.Fleet.{TelemetryHub, Action, env_of, connect, act, run}
use patrolbot_dashboard.Hub.Ids.{ids_in, run-Nodup}
use patrolbot_dashboard.Hub.History.{Matched, run-Matched}
use patrolbot_dashboard.Hub.Presence.{Judged, tick-Judged, connect_supersedes}

abbrev settings : Settings
settings = record {
  stall_warning_s = nano 10_000_000_000;
  battery_low_percent = nano 20_000_000_000;
  online_threshold_s = nano 3_000_000_000;
  offline_threshold_s = nano 10_000_000_000;
  casefold = λ name. lower (codes name);
}

abbrev new_hub : TelemetryHub
new_hub = record {
  settings = settings;
  has_db = true;
  clock = 0;
  event_ids = record { next_id = 1 };
  robots = [];
  next_ident = 0;
  outputs = [];
}

abbrev rolling : MotionData
rolling = record {
  linear_velocity = nano 0;
  angular_velocity = nano 0;
  sample_age_s = nano 0;
  receipt_age_s = nano 0;
  session_generation = pos 4;
  odom_epoch = "e";
  odom_epoch_generation = 1;
}

abbrev actions : List (ℕ × Action)
actions =
    (5, Action.connects 1 71)
    ∷ (1, Action.connects 2 72)
    ∷ (1, Action.receives 1 1 (Message.base_state parked))
    ∷ (1, Action.receives 1 1 (Message.motion rolling (nano 0)))
    ∷ (1, Action.connects 1 73)
    ∷ (20_000_000_000, Action.ticks 2)
    ∷ []

run-Nodup_example : Nodup (ids_in (run actions new_hub).outputs)
run-Nodup_example = run-Nodup actions new_hub _ refl (Perm.refl _)

run-Matched_example : AllValues Matched (run actions new_hub).robots
run-Matched_example = run-Matched actions new_hub refl

-- A robot that showed as online and has not been heard of for eleven seconds.
abbrev lost_robot : RobotSession
lost_robot = record {
  ident = 0;
  robot_id = 2;
  state = record new_state { connection = online; last_heartbeat_mono = some 1_000_000_000 };
  websocket = some 72;
  generation = 1;
  connected_mono = 0;
}

abbrev with_lost : TelemetryHub
with_lost = record new_hub { clock = 12_000_000_000; robots = (2, lost_robot) ∷ [] }

tick-Judged_example :
    (after : RobotSession) × (get 2 (act (Action.ticks 2) with_lost).robots ≡ some after)
    × Judged with_lost lost_robot after.state.connection
unfolding get
tick-Judged_example = tick-Judged 2 with_lost lost_robot refl

lost_test : judged (env_of with_lost) lost_robot ≡ offline
unfolding judged heartbeat_age lt
lost_test = refl

abbrev first : TelemetryHub
first = connect 1 71 new_hub

connect_supersedes_example :
    let new = connect 1 73 first in
    (act (Action.receives 1 1 Message.heartbeat) new ≡ new)
    × (act (Action.replies 1 1) new ≡ new)
    × (act (Action.disconnects 1 1 71) new ≡ new)
unfolding connect
connect_supersedes_example = connect_supersedes 1 73 71 Message.heartbeat first 1 (omega arith)
