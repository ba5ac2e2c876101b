-- ===== src/Broker/State.antt =====
-- The state that the command broker and the manual-drive controller share, and what they read of
-- the hub. A call runs to its end before the next one: what other tasks do across its awaits is
-- not in the model. The answers of the outside are fields: `outcomes` says of each coming send to
-- a robot socket whether it succeeds, `recorded` is the database's lookup, `uuid n` the n-th id
-- drawn, `policy_source` the trusted source of speed policies, and `map_point` and `map_extent`
-- the rotated offset of a goal and the size of a map, which the source computes by `math.cos` and
-- `math.sin`. Ids, clients, sessions and sockets are compared only, and are numbers.
use patrolbot_dashboard.Base.{
  ℕ, ◌-◌, ℤ, String, Bool, true, false, Option, none, some, List, [], ◌∷◌, any, ◌==◌,
}
use patrolbot_dashboard.Base.Float.{Float, nano}
use patrolbot_dashboard.Base.Dict.{get}
use patrolbot_dashboard.Protocol.Telemetry.{
  Connection, BaseStateData, PoseData, MotionData, GoalData,
}
use patrolbot_dashboard.Protocol.Commands.{Command, CommandOutcome}
use patrolbot_dashboard.Gates.Rules.{Reason}
use patrolbot_dashboard.Gates.Manual.{ManualReason}
use patrolbot_dashboard.TuningPolicy.{TeleopPolicy, PolicyReason, Source}
use patrolbot_dashboard.Lease.{OperatorLease}
use patrolbot_dashboard.RateLimit.{RateLimiter}

-- One telemetry slice with the time of its receipt.
pub record Slice (A : Type 0) : Type 0 where
  pub value : Option A
  pub received_mono : Option ℕ

-- The age of a slice at a time, never negative.
unfoldable pub age : {A : Type 0} → Slice A → ℕ → Option Float
age s now = elim s.received_mono [ none ↦ none | some t ↦ some (nano (now - t)) ]

-- What the broker reads of a robot's state.
pub record RobotState : Type 0 where
  pub connection : Connection
  pub capabilities : List String
  pub base_state : Slice BaseStateData
  pub pose : Slice PoseData
  pub motion : Slice MotionData

pub record RobotSession : Type 0 where
  pub ident : ℕ
  pub robot_id : ℕ
  pub state : RobotState
  pub websocket : Option ℕ
  pub generation : ℕ
  pub connected_mono : ℕ

pub record User : Type 0 where
  pub id : ℕ
  pub username : String
  pub can_command : Bool

pub record Client : Type 0 where
  pub ident : ℕ
  pub user : Option User

pub record MapInfo : Type 0 where
  pub map_id : String
  pub map_revision : String

pub data Phase : Type 0 where
  pending active closing unknown : Phase

pub record ManualOwner : Type 0 where
  pub command_id : ℕ
  pub client : Client
  pub session : ℕ
  pub websocket : ℕ
  pub generation : ℕ
  pub base_generation : ℤ
  pub phase : Phase
  pub seq : ℤ
  pub last_frame : ℕ
  pub frame_times : List ℕ
  pub start_terminal : Bool
  pub stop_ids : List ℕ
  pub stop_issued : Bool
  pub policy : TeleopPolicy

pub record ActiveCommand : Type 0 where
  pub command_id : ℕ
  pub command : Command
  pub robot_id : ℕ
  pub initiator : ℕ
  pub acked : Bool
  pub uncertain : Bool
  pub robot_session : ℕ
  pub robot_websocket : ℕ

-- Why a request is refused.
pub data Refusal : Type 0 where
  read_only manual_busy lidar_power_pending reset_pending manual_ending rate_limited : Refusal
  in_control duplicate no_destination map_mismatch bad_goal outside_map : Refusal
  not_connected no_map_support other_map : Refusal
  lidar_recovery lidar_settling : Refusal
  gate : Reason → Refusal
  manual_gate : ManualReason → Refusal
  policy_gate : PolicyReason → Refusal
  manual_canceled stop_navigation stop_operation old_readings : Refusal

-- What leaves the server: frames to a robot's socket, messages to the browsers, audit rows, events.
pub data Output : Type 0 where
  to_robot : ℕ → ℕ → Command → Output
  velocity : ℕ → ℕ → Bool → Output
  cancel_map : ℕ → ℕ → Output
  ack : ℕ → ℕ → Bool → Output
  progress : ℕ → ℕ → Output
  result : ℕ → ℕ → CommandOutcome → Output
  audited : ℕ → ℕ → Output
  rejection : ℕ → ℕ → Refusal → Output
  completed : ℕ → CommandOutcome → Output
  event : ℕ → Output

pub record World : Type 0 where
  pub active : List (ℕ × ActiveCommand)
  pub reset_pending : List (ℕ × ℕ)
  pub lidar_pending : List (ℕ × ℕ)
  pub lidar_recovery_required : List ℕ
  pub lidar_state_after : List (ℕ × ℕ)
  pub seen : List ℕ
  pub lease : OperatorLease
  pub rate : RateLimiter
  pub owners : List (ℕ × ManualOwner)
  pub revisions : List (ℕ × ℕ)
  pub robots : List (ℕ × RobotSession)
  pub maps : List MapInfo
  pub disconnected : List ℕ
  pub now : ℕ
  pub outcomes : List Bool
  pub drawn : ℕ
  pub out : List Output
  pub recorded : ℕ → Bool
  pub uuid : ℕ → ℕ
  pub policy_source : ℕ → Source
  pub map_point : MapInfo → GoalData → Float × Float
  pub map_extent : MapInfo → Float × Float

-- Outputs are kept newest first.
unfoldable pub emit : World → Output → World
emit w o = record w { out = o ∷ w.out }

abbrev next_outcome : List Bool → Bool × List Bool
next_outcome [] = (false, [])
next_outcome (b ∷ rest) = (b, rest)

-- One send to a robot's socket: the frame is logged where the send succeeds.
unfoldable pub send_text : World → Output → World × Bool
unfolding emit
send_text w o =
    let (sent, rest) = next_outcome w.outcomes in
    let w' = record w { outcomes = rest } in (elim sent [ true ↦ emit w' o | false ↦ w' ], sent)

unfoldable pub member : ℕ → List ℕ → Bool
member k xs = any (λ x. x == k) xs

unfoldable pub discard : ℕ → List ℕ → List ℕ
discard k [] = []
discard k (x ∷ xs) = let rest = discard k xs in elim (x == k) [ true ↦ rest | false ↦ x ∷ rest ]

unfoldable pub revision : World → ℕ → ℕ
revision w robot = elim (get robot w.revisions) [ none ↦ 0 | some n ↦ n ]
