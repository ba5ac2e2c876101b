-- ===== src/Broker/Examples.antt =====
-- Requests on a concrete server: one robot, online, and an operator who switches its motors on.
use patrolbot_dashboard.Base.{
  pos, negsuc, abs, ◌-ℤ◌, ◌+ℤ◌, List, [], ◌∷◌, ◌≡◌, refl, ◌≤◌, true, false, none, some, length,
}
use patrolbot_dashboard.Base.Float.{nano, le, negate, is_finite, lt, add, fabs, eq}
use patrolbot_dashboard.Protocol.Telemetry.{online, parked}
use patrolbot_dashboard.Protocol.Commands.{succeeded, motor_enable}
use patrolbot_dashboard.TuningPolicy.{
  nothing, legacy_policy, resolve_policy, over_policy, capability_requires_policy,
}
use patrolbot_dashboard.Broker.State.{
  age, member, send_text, emit, RobotSession, ManualOwner, Phase, World, velocity, to_robot, event,
  audited, duplicate,
}
use patrolbot_dashboard.Broker.Checks.{
  Request, run_checks, check_user, check_lidar, check_reset, check_rate, charge_rate, check_lease,
  take_lease, check_destination, online_session, connected, on_socket, check_robot,
  check_active_map, check_state, start_manual, check_duplicate, seen_limit,
}
use patrolbot_dashboard.Broker.Requests.{
  handle, handle_with, conclude, conclude_online, conclude_robot, admit, check_owner, check_manual,
}
use patrolbot_dashboard.Broker.Drive.{Settings, VelocityFrame}
use patrolbot_dashboard.Broker.Drive
use patrolbot_dashboard.Broker.Manual
use patrolbot_dashboard.Gates.Manual.{teleop_reason}
use patrolbot_dashboard.Base.Dict.{get, insert}
use patrolbot_dashboard.Base.Text.{contains}
use patrolbot_dashboard.Gates.Facts.{facts_from_state}
use patrolbot_dashboard.Gates.Rules.{rejection_reason, motor_enable_reason}
use patrolbot_dashboard.Lease.{can_command, holder, acquire}
use patrolbot_dashboard.RateLimit.{allow, take_token}
use patrolbot_dashboard.Broker.Admission.{
  check_goal, check_map, check_target, validate_robot_state, lidar_settles, facts_for,
}
use patrolbot_dashboard.Broker.Publishing.{publish, activate, raise_barriers, forward, after_send}
use patrolbot_dashboard.Broker.Adds.{Adds}
use patrolbot_dashboard.Broker.Guarded.{Guarded}
use patrolbot_dashboard.Broker.Replies.{acked, ended}
use patrolbot_dashboard.Broker.History.{Call, requested, replied, drove, monitored}
use patrolbot_dashboard.Broker.Replay.{replay_refused}

abbrev robot : RobotSession
robot = record {
  ident = 11;
  robot_id = 1;
  state = record {
    connection = online;
    capabilities = "map_context_v1" ∷ "motor_enable" ∷ [];
    base_state = record { value = none; received_mono = none };
    pose = record { value = none; received_mono = none };
    motion = record { value = none; received_mono = none };
  };
  websocket = some 21;
  generation = 1;
  connected_mono = 0;
}

abbrev server : World
server = record {
  active = [];
  reset_pending = [];
  lidar_pending = [];
  lidar_recovery_required = [];
  lidar_state_after = [];
  seen = [];
  lease = [];
  rate = record { capacity = 30; buckets = [] };
  owners = [];
  revisions = [];
  robots = (1, robot) ∷ [];
  maps = [];
  disconnected = [];
  now = 0;
  outcomes = true ∷ [];
  drawn = 0;
  out = [];
  recorded = λ _. false;
  uuid = λ n. n;
  policy_source = λ _. nothing;
  map_point = λ _ _. (nano 0, nano 0);
  map_extent = λ _. (nano 0, nano 0);
}

abbrev motors_on : Request
motors_on = record {
  client = record {
    ident = 5;
    user = some (record { id = 7; username = "ada"; can_command = true });
  };
  robot_id = 1;
  payload = record {
    command_id = 100;
    command = motor_enable;
    measured_seed = false;
    enabled = none;
    goal = none;
    takeover = false;
    allow_unlocalized = false;
    operator_authorized = false;
  };
  revision = 0;
}

abbrev once : World
once = record server { seen = 100 ∷ [] }

motors_on_sent :
    (handle motors_on server).out ≡ event 1 ∷ to_robot 1 100 motor_enable ∷ audited 1 100 ∷ []
unfolding handle handle_with conclude conclude_online conclude_robot admit run_checks check_user
    check_owner check_lidar check_reset check_manual check_rate charge_rate check_lease take_lease
    check_duplicate check_destination check_goal online_session connected on_socket check_robot
    check_active_map check_map check_target check_state validate_robot_state lidar_settles facts_for
    facts_from_state rejection_reason motor_enable_reason start_manual publish activate
    raise_barriers forward send_text after_send emit member get insert contains allow take_token
    can_command holder acquire
motors_on_sent = refl

first_pass : check_duplicate motors_on server ≡ (once, none)
unfolding check_duplicate member
first_pass = refl

replay_refused_example :
    (check_duplicate motors_on once ≡ (once, some duplicate)) × (length once.seen ≤ seen_limit)
replay_refused_example = replay_refused motors_on motors_on server once refl first_pass

abbrev limits : Settings
limits = record {
  teleop_frames_per_s = 30;
  teleop_session_ttl = 20_000_000_000;
  ack_timeout_ns = 5_000_000_000;
}

abbrev frame : VelocityFrame
frame = record {
  command_id = 100;
  seq = pos 0;
  linear = nano 100_000_000;
  angular = nano 0;
  deadman = true;
  age = some (nano 0);
}

-- A server on which the operator drives the robot by hand: the start, command 100, was accepted.
abbrev driven_robot : RobotSession
driven_robot = record robot {
  state = record {
    connection = online;
    capabilities = "web_teleop_v1" ∷ [];
    base_state = record { value = some parked; received_mono = some 0 };
    pose = record { value = none; received_mono = none };
    motion = record { value = none; received_mono = none };
  };
}

abbrev operator_drive : ManualOwner
operator_drive = record {
  command_id = 100;
  client = motors_on.client;
  session = 11;
  websocket = 21;
  generation = 1;
  base_generation = pos 4;
  phase = Phase.active;
  seq = negsuc 0;
  last_frame = 0;
  frame_times = [];
  start_terminal = false;
  stop_ids = [];
  stop_issued = false;
  policy = legacy_policy;
}

abbrev driving_server : World
driving_server = record server {
  owners = (1, operator_drive) ∷ [];
  lease = (1, record { user_id = 7; username = "ada"; client = 5; acquired_at = nano 0 }) ∷ [];
  robots = (1, driven_robot) ∷ [];
}

-- The robot moves, the motors are asked for, and the watchdog looks twice.
abbrev drive_history : List Call
drive_history =
    drove limits motors_on.client 1 frame
    ∷ monitored limits
    ∷ requested motors_on
    ∷ replied driven_robot 100 (acked true)
    ∷ replied driven_robot 100 (ended succeeded)
    ∷ monitored limits
    ∷ []

-- The frame moves the robot.
moved_test :
    (Drive.velocity driving_server limits motors_on.client 1 frame).0.out ≡ velocity 1 21 true ∷ []
unfolding Drive.velocity get Manual.bound Manual.owns_lease Manual.resolve_for holder member le
    negate ◌-ℤ◌ ◌+ℤ◌ teleop_reason contains age is_finite lt add resolve_policy Drive.same_signature
    over_policy fabs Manual.send Manual.set_owner insert send_text emit eq
    capability_requires_policy abs
moved_test = refl
