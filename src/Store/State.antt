-- ===== src/Store/State.antt =====
-- `Slice.set`, `EventIdAllocator` and `RobotState` of server/app/telemetry/store.py. The allocator
-- is one object that all robots share; a call works on it, on the state of its robot and on the
-- list of the events it returns. Title and text of an event are a constructor of `Alert` with what
-- the text shows; the time stamps `ts` and `last_seen`, the battery estimate, and the status and
-- health that `recompute` keeps are left out. Settings are those that the state reads, with
-- `casefold` for Python's `str.casefold`, as code points.
use patrolbot_dashboard.Base.{
  ℕ, suc, max, ◌-◌, String, Bool, false, Option, none, some, List, [], ◌∷◌, ◌++◌, take,
  if◌then◌else◌,
}
use patrolbot_dashboard.Base.Float.{Float, nano}
use patrolbot_dashboard.Protocol.Telemetry.{
  Connection, LidarData, MapData, DiagLevel, PoseData, PathData, BatteryData, BaseStateData,
  MotionData, DiagnosticItem, DiagnosticsData, ResourcesData,
}
use patrolbot_dashboard.Broker.State.{Slice}

pub record Settings : Type 0 where
  pub stall_warning_s : Float
  pub battery_low_percent : Float
  pub online_threshold_s : Float
  pub offline_threshold_s : Float
  pub casefold : String → List ℕ

unfoldable pub empty : {A : Type 0} → Slice A
empty = record { value = none; received_mono = none }

unfoldable pub set : {A : Type 0} → ℕ → A → Slice A
set now sample = record { value = some sample; received_mono = some now }

pub record EventIdAllocator : Type 0 where
  pub next_id : ℕ

unfoldable pub allocate : EventIdAllocator → ℕ × EventIdAllocator
allocate ids = (ids.next_id, record { next_id = suc ids.next_id })

unfoldable pub seed : ℕ → EventIdAllocator → EventIdAllocator
seed next_id ids = record { next_id = max ids.next_id next_id }

pub data Severity : Type 0 where
  info warning critical : Severity

pub data Alert : Type 0 where
  stuck : Float → Alert
  battery_low : Option Float → Alert
  charging_started charging_stopped estop_pressed estop_released : Alert
  bumper_front bumper_rear : Alert
  needs_attention : String → String → Alert
  recovered : String → Alert
  map_updated : String → Alert
  disconnected connected : Alert
  notice : String → String → Alert

pub record EventData : Type 0 where
  pub id : ℕ
  pub severity : Severity
  pub alert : Alert

-- The latest item of a source and the time of its receipt.
pub record Report : Type 0 where
  pub item : DiagnosticItem
  pub received : ℕ

pub record RobotState : Type 0 where
  pub pose : Slice PoseData
  pub lidar : Slice LidarData
  pub path : Slice PathData
  pub battery : Slice BatteryData
  pub base_state : Slice BaseStateData
  pub motion : Slice MotionData
  pub diagnostics : Slice DiagnosticsData
  pub resources : Slice ResourcesData
  pub map : Slice MapData
  pub last_heartbeat_mono : Option ℕ
  pub connection : Connection
  pub capabilities : List String
  pub events : List EventData
  pub diag_levels : List (String × DiagLevel)
  pub diagnostic_sources : List (String × Report)
  pub prev_estop : Bool
  pub prev_bumper : Bool
  pub prev_battery_low : Bool
  pub stopped_since_mono : Option ℕ
  pub stalled : Bool

unfoldable pub new_state : RobotState
unfolding empty
new_state = record {
  pose = empty;
  lidar = empty;
  path = empty;
  battery = empty;
  base_state = empty;
  motion = empty;
  diagnostics = empty;
  resources = empty;
  map = empty;
  last_heartbeat_mono = none;
  connection = Connection.offline;
  capabilities = [];
  events = [];
  diag_levels = [];
  diagnostic_sources = [];
  prev_estop = false;
  prev_bumper = false;
  prev_battery_low = false;
  stopped_since_mono = none;
  stalled = false;
}

-- The shared allocator, the robot's state, and the events that a call returns, in their order.
pub record Store : Type 0 where
  pub event_ids : EventIdAllocator
  pub state : RobotState
  pub returned : List EventData

abbrev pub on_state : (RobotState → RobotState) → Store → Store
on_state f s = record s { state = f s.state }

abbrev pub max_events : ℕ
max_events = 500

unfoldable pub made : Severity → Alert → Store → EventData
unfolding allocate
made severity alert s = record { id = (allocate s.event_ids).0; severity = severity; alert = alert }

-- `events.append(self.add_event(severity, ...))`: a full deque loses its oldest event.
unfoldable pub add_event : Severity → Alert → Store → Store
unfolding allocate made
add_event severity alert s = record {
  event_ids = (allocate s.event_ids).1;
  state = record s.state { events = take max_events (made severity alert s ∷ s.state.events) };
  returned = s.returned ++ (made severity alert s ∷ []);
}

abbrev pub add_if : Bool → Severity → Alert → Store → Store
add_if b severity alert s = if b then add_event severity alert s else s

unfoldable pub record_heartbeat : ℕ → RobotState → RobotState
record_heartbeat now r = record r { last_heartbeat_mono = some now }

unfoldable pub heartbeat_age : ℕ → RobotState → Option Float
heartbeat_age now r = elim r.last_heartbeat_mono [ none ↦ none | some t ↦ some (nano (now - t)) ]

unfoldable pub set_capabilities : List String → RobotState → RobotState
set_capabilities capabilities r = record r { capabilities = capabilities }
