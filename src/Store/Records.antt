-- ===== src/Store/Records.antt =====
-- The `record_*` operations and `set_connection` of server/app/telemetry/store.py.
use patrolbot_dashboard.Base.{
  ℕ, ◌-◌, Bool, true, false, not, ◌&&◌, ◌||◌, Option, none, some, [], eqb_ℤ, is_some, or_default,
  maybe, if◌then◌else◌,
}
use patrolbot_dashboard.Base.Float.{nano, le, lt, fabs}
use patrolbot_dashboard.Protocol.Telemetry.{
  Connection, LidarData, MapData, PoseData, PathData, BatteryData, BaseStateData, MotionData,
  ResourcesData,
}
use patrolbot_dashboard.Broker.State.{Slice}
use patrolbot_dashboard.Store.State.{
  Settings, empty, set, Severity, Alert, RobotState, Store, on_state, add_event, add_if,
}

-- The robot has a goal, stands still, and neither its motors nor its emergency stop explain it.
unfoldable pub unexplained_stop : RobotState → PoseData → Bool
unexplained_stop r sample =
    maybe false (λ p. is_some p.goal) r.path.value
    && (lt (fabs sample.linear_velocity) (nano 20_000_000)
        && lt (fabs sample.angular_velocity) (nano 50_000_000))
    && not (maybe false (λ b. not b.motors_enabled || b.estop_pressed) r.base_state.value)

unfoldable pub update_stall : Settings → ℕ → PoseData → Store → Store
unfolding unexplained_stop add_event
update_stall settings now sample s =
    if not (unexplained_stop s.state sample)
    then on_state (λ r. record r { stopped_since_mono = none; stalled = false }) s
    else let since = or_default now s.state.stopped_since_mono in
      let waiting = on_state (λ r. record r { stopped_since_mono = some since }) s in
      if s.state.stalled || lt (nano (now - since)) settings.stall_warning_s
      then waiting
      else add_event Severity.warning (Alert.stuck settings.stall_warning_s)
          (on_state (λ r. record r { stalled = true }) waiting)

unfoldable pub record_pose : Settings → ℕ → PoseData → Store → Store
unfolding set update_stall
record_pose settings now sample s =
    update_stall settings now sample (on_state (λ r. record r { pose = set now sample }) s)

unfoldable pub record_lidar : ℕ → LidarData → Store → Store
unfolding set
record_lidar now sample = on_state (λ r. record r { lidar = set now sample })

unfoldable pub record_path : ℕ → PathData → Store → Store
unfolding set
record_path now sample = on_state (λ r. record r { path = set now sample })

abbrev pub is_low : Settings → BatteryData → Bool
is_low settings sample =
    maybe false (λ percentage. le percentage settings.battery_low_percent) sample.percentage
    && not sample.charging

abbrev pub was_charging : Slice BatteryData → Option Bool
was_charging s = elim s.value [ none ↦ none | some b ↦ some b.charging ]

abbrev pub charging_edge : Option Bool → Bool → Store → Store
charging_edge (some false) true s = add_event Severity.info Alert.charging_started s
charging_edge (some true) false s = add_event Severity.info Alert.charging_stopped s
charging_edge _ _ s = s

unfoldable pub record_battery : Settings → ℕ → BatteryData → Store → Store
unfolding set add_event
record_battery settings now sample s =
    let low = is_low settings sample in
    charging_edge (was_charging s.state.battery) sample.charging (
      on_state (λ r. record r { prev_battery_low = low })
        (add_if (low && not s.state.prev_battery_low) Severity.warning
          (Alert.battery_low sample.percentage)
          (on_state (λ r. record r { battery = set now sample }) s)))

abbrev pub is_bumped : BaseStateData → Bool
is_bumped sample = sample.bumpers_front || sample.bumpers_rear

abbrev pub other_session : MotionData → BaseStateData → Bool
other_session m b = not (eqb_ℤ m.session_generation b.session_generation)

-- The motion sample that a new base state leaves.
unfoldable pub kept_motion : BaseStateData → Slice MotionData → Slice MotionData
unfolding empty
kept_motion sample motion =
    if maybe false (λ m. other_session m sample) motion.value then empty else motion

-- The event of the emergency stop, by what the sample says and what the last one said.
abbrev pub estop_event : Bool → Bool → Store → Store
estop_event true false s = add_event Severity.critical Alert.estop_pressed s
estop_event false true s = add_event Severity.info Alert.estop_released s
estop_event _ _ s = s

unfoldable pub estop_edge : BaseStateData → Store → Store
unfolding add_event
estop_edge sample s =
    on_state (λ r. record r { prev_estop = sample.estop_pressed })
      (estop_event sample.estop_pressed s.state.prev_estop s)

unfoldable pub bumper_edge : BaseStateData → Store → Store
unfolding add_event
bumper_edge sample s =
    on_state (λ r. record r { prev_bumper = is_bumped sample })
      (add_if (is_bumped sample && not s.state.prev_bumper) Severity.warning
        (if sample.bumpers_front then Alert.bumper_front else Alert.bumper_rear) s)

unfoldable pub record_base_state : ℕ → BaseStateData → Store → Store
unfolding set kept_motion estop_edge bumper_edge
record_base_state now sample s =
    on_state (λ r. record r { motion = kept_motion sample r.motion; base_state = set now sample })
      (bumper_edge sample (estop_edge sample s))

unfoldable pub record_motion : ℕ → MotionData → Store → Store
unfolding set
record_motion now sample s =
    if maybe false (other_session sample) s.state.base_state.value
    then s
    else on_state (λ r. record r { motion = set now sample }) s

unfoldable pub record_resources : ℕ → ResourcesData → Store → Store
unfolding set
record_resources now sample = on_state (λ r. record r { resources = set now sample })

unfoldable pub record_map : ℕ → MapData → Store → Store
unfolding set add_event
record_map now sample s =
    add_event Severity.info (Alert.map_updated sample.name)
      (on_state (λ r. record r { map = set now sample }) s)

abbrev pub same_connection : Connection → Connection → Bool
same_connection Connection.online Connection.online = true
same_connection Connection.stale Connection.stale = true
same_connection Connection.offline Connection.offline = true
same_connection _ _ = false

-- `state == "online" and self.connection in ("offline", "stale")`.
abbrev pub comes_online : Connection → Connection → Bool
comes_online Connection.online Connection.online = false
comes_online Connection.online _ = true
comes_online _ _ = false

unfoldable pub forget_diagnostics : RobotState → RobotState
unfolding empty
forget_diagnostics r = record r { diagnostic_sources = []; diag_levels = []; diagnostics = empty }

abbrev pub connection_event : Connection → Bool → Store → Store
connection_event Connection.offline online s = add_event Severity.critical Alert.disconnected s
connection_event _ online s = add_if online Severity.info Alert.connected s

unfoldable pub set_connection : Connection → Store → Store
unfolding forget_diagnostics add_event
set_connection state s =
    let online = comes_online state s.state.connection in
    if same_connection state s.state.connection
    then s
    else on_state (λ r. record r { connection = state })
        (connection_event state online (if online then on_state forget_diagnostics s else s))
