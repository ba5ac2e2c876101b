-- ===== src/Tuning/Requests.antt =====
-- `request`, `_request_locked`, `_optimistic_check` and `_update_desired` of
-- server/app/tuning/broker.py, and `require_administrator` of server/app/tuning/authz.py.
use patrolbot_dashboard.Base.{
  ℕ, suc, ℤ, String, Bool, true, false, not, ◌==◌, ◌&&◌, ◌||◌, Option, none, some, List, [], ◌∷◌,
  leb, any, eqb_ℤ, is_none, is_some, maybe, or_else, if◌then◌else◌,
}
use patrolbot_dashboard.Base.Dict.{get, insert}
use patrolbot_dashboard.Base.Text.{contains}
use text.Mathlib.Text.{◌==◌ as str_eq}
use patrolbot_dashboard.Protocol.Telemetry.{Connection}
use patrolbot_dashboard.Hub.{RobotSession}
use patrolbot_dashboard.Tuning.{
  Operation, is_mutation, is_ok, Snapshot, TuningResponse, Refusal, Payload, Stage, Pending, Result,
  Event, Desired, TuningBroker, note, pending_count, pending_entry, prune_seen, has, remember,
  bound, lost_result, finish,
}

abbrev refuse_if : Bool → Refusal → Option Refusal
refuse_if b r = if b then some r else none

abbrev read_capability : String
read_capability = "robot_tuning_read_v1"

abbrev mutation_capability : String
mutation_capability = "robot_tuning_v1"

abbrev write_capability : String
write_capability = "robot_tuning_write_v1"

abbrev is_save : Operation → Bool
is_save Operation.save = true
is_save _ = false

abbrev is_online : Connection → Bool
is_online Connection.online = true
is_online _ = false

-- `self._seen_recently(...)` drops old ids, unless the request is refused before it or is a read.
unfoldable pub looked_up : Payload → TuningBroker → TuningBroker
unfolding prune_seen
looked_up p b =
    if is_mutation p.operation && is_none (pending_entry p.request_id b.tasks)
    then prune_seen b
    else b

-- What is refused before the robot is looked at.
unfoldable pub early_refusal : Bool → ℕ → Payload → TuningBroker → Option Refusal
early_refusal administrator robot p b =
    let mutation = is_mutation p.operation in
    or_else (refuse_if (mutation && not administrator) Refusal.forbidden) (
      or_else (refuse_if (is_some (pending_entry p.request_id b.tasks)) Refusal.conflict) (
        or_else (refuse_if (mutation && has p.request_id b.seen) Refusal.conflict) (
          or_else (refuse_if (leb b.max_pending (pending_count b.tasks)) Refusal.rate_limited)
            (refuse_if (mutation && any (λ r. r == robot) b.locked) Refusal.rate_limited))))

-- The robot is connected and declares that it can do the operation.
unfoldable pub capable : Operation → List String → Bool
unfolding contains
capable operation capabilities =
    contains (if is_mutation operation then mutation_capability else read_capability) capabilities
    || is_save operation && contains write_capability capabilities

abbrev supplied : Payload → Option ℤ
supplied p = if is_save p.operation then p.base_revision else p.expected_revision

-- `_optimistic_check`: the request is of another tuning session, or of another revision.
unfoldable pub outdated : ℕ → RobotSession → Payload → TuningBroker → Bool
unfolding get
outdated robot s p b =
    maybe false
      (λ d.
        d.generation == s.generation
        && (not (str_eq p.session_id d.session_id)
            || maybe false (λ r. not (eqb_ℤ r d.revision)) (supplied p)))
      (get robot b.desired)

unfoldable pub late_refusal : ℕ → RobotSession → Payload → TuningBroker → Option Refusal
unfolding capable outdated
late_refusal robot s p b =
    let mutation = is_mutation p.operation in
    or_else
      (refuse_if (is_none s.websocket || not (is_online s.state.connection)) Refusal.unavailable)
      (or_else (refuse_if (not (capable p.operation s.state.capabilities)) Refusal.unavailable) (
        or_else (refuse_if (mutation && outdated robot s p b) Refusal.conflict)
          (refuse_if (mutation && not b.can_sign) Refusal.unavailable)))

abbrev pub entry : ℕ → ℕ → RobotSession → ℕ → Payload → Pending
entry number robot s websocket p = record {
  number = number;
  request_id = p.request_id;
  robot_id = robot;
  session = s.ident;
  generation = s.generation;
  websocket = websocket;
  mutation = is_mutation p.operation;
  stage = Stage.sending;
  listed = true;
  future = none;
}

-- The entry of a request is listed, and a mutation takes the lock of its robot.
unfoldable pub enlist : ℕ → RobotSession → ℕ → Payload → TuningBroker → TuningBroker
enlist robot s websocket p b = record b {
  tasks = entry b.next_number robot s websocket p ∷ b.tasks;
  locked = if is_mutation p.operation then robot ∷ b.locked else b.locked;
  next_number = suc b.next_number;
}

-- The id of a mutation is remembered, and the frame is handed to the socket.
unfoldable pub begin : ℕ → RobotSession → ℕ → Payload → TuningBroker → TuningBroker
unfolding enlist remember
begin robot s websocket p b =
    let listed = enlist robot s websocket p b in
    if is_mutation p.operation
    then note (Event.mutation_sent p.request_id b.clock) (remember p.request_id listed)
    else listed

-- A request to a robot that has a session, with its socket.
abbrev pub to_robot : ℕ → Payload → RobotSession → TuningBroker → TuningBroker
to_robot robot p s b =
    maybe
      (maybe (note (Event.turned_away Refusal.unavailable) b) (λ w. begin robot s w p b)
        s.websocket)
      (λ refusal. note (Event.turned_away refusal) b) (late_refusal robot s p b)

unfoldable pub request : Bool → ℕ → Payload → TuningBroker → TuningBroker
unfolding looked_up early_refusal late_refusal begin get
request administrator robot p b =
    let known = if is_mutation p.operation && not administrator then b else looked_up p b in
    maybe
      (maybe (note (Event.turned_away Refusal.unavailable) known) (λ s. to_robot robot p s known)
        (get robot known.robots))
      (λ refusal. note (Event.turned_away refusal) known)
      (early_refusal administrator robot p known)

unfoldable pub set_waiting : Pending → List Pending → List Pending
set_waiting t [] = []
set_waiting t (u ∷ tasks) =
    (if u.number == t.number then record u { stage = Stage.waiting } else u) ∷ set_waiting t tasks

-- The send ends: well, or by an error of the socket or the time limit.
unfoldable pub send_ends : Bool → Pending → TuningBroker → TuningBroker
unfolding bound finish set_waiting
send_ends went t b =
    if went && bound b.robots t
    then record b { tasks = set_waiting t b.tasks }
    else finish t (lost_result t) b

-- The revision that a snapshot teaches, if it has one.
unfoldable pub desired_after : Pending → Snapshot → List (ℕ × Desired) → List (ℕ × Desired)
unfolding insert
desired_after t snapshot desired =
    maybe desired
      (λ revision.
        maybe desired
          (λ session_id.
            insert t.robot_id
              (record { generation = t.generation; revision = revision; session_id = session_id })
              desired)
          snapshot.session_id)
      snapshot.desired_revision

-- `_update_desired`, with the generation of the entry's session.
unfoldable pub update_desired : Pending → Option Snapshot → TuningBroker → TuningBroker
unfolding desired_after
update_desired t snapshot b = record b {
  desired = maybe b.desired (λ s. desired_after t s b.desired) snapshot;
}

-- The task goes on after its future was set.
unfoldable pub resumed : Pending → Option TuningResponse → TuningBroker → TuningBroker
unfolding bound update_desired finish
resumed t none b = finish t (lost_result t) b
resumed t (some r) b =
    if is_ok r.outcome && not (bound b.robots t)
    then finish t (lost_result t) b
    else finish t (Result.response r) (update_desired t r.snapshot b)
