-- ===== src/Tuning/Replies.antt =====
-- `handle_response`, `disconnected`, `shutdown` and `teleop_policy` of server/app/tuning/broker.py.
use patrolbot_dashboard.Base.{
  ℕ, ℤ, String, Bool, true, false, not, ◌==◌, ◌&&◌, ◌||◌, Option, none, some, List, [], ◌∷◌, eqb_ℤ,
  is_none, maybe, ◌>>=◌, if◌then◌else◌,
}
use patrolbot_dashboard.Base.Dict.{get, insert, pop}
use patrolbot_dashboard.TuningPolicy.{Value}
use patrolbot_dashboard.Hub.{RobotSession}
use patrolbot_dashboard.Tuning.{
  is_ok, Snapshot, TuningResponse, Pending, Event, Policy, TuningBroker, note, pending_entry,
  remember, unknown_response,
}

-- A reply: unreadable, not valid, with the request id that it names if there is one, or valid, with
-- the robot that its envelope names.
pub data Reply : Type 0 where
  unreadable : Reply
  invalid : Option ℕ → Reply
  valid : ℕ → TuningResponse → Reply

-- `_bound_entry`, for the current session of a robot.
unfoldable pub bound_entry : Pending → RobotSession → Bool
bound_entry t s =
    t.session == s.ident
    && t.generation == s.generation
    && maybe false (λ w. w == t.websocket) s.websocket

-- The future of one task is set, if it is not yet.
unfoldable pub resolve : Pending → Option TuningResponse → List Pending → List Pending
resolve t r [] = []
resolve t r (u ∷ tasks) =
    (if u.number == t.number && is_none u.future then record u { future = some r } else u)
    ∷ resolve t r tasks

unfoldable pub on_invalid : RobotSession → ℕ → TuningBroker → TuningBroker
unfolding bound_entry resolve
on_invalid s rid b =
    maybe b
      (λ t.
        if bound_entry t s
        then record b { tasks = resolve t (some (unknown_response t.request_id)) b.tasks }
        else b)
      (pending_entry rid b.tasks)

-- The policy that a good reply with a snapshot leaves, on the socket it came on.
unfoldable pub policies_after : RobotSession → ℕ → Snapshot → TuningBroker → List (ℕ × Policy)
unfolding insert
policies_after s websocket snapshot b =
    insert s.robot_id
      (record { session = s.ident; websocket = websocket; snapshot = snapshot; received = b.clock })
      b.policies

unfoldable pub keep_policy : RobotSession → TuningResponse → TuningBroker → TuningBroker
unfolding policies_after
keep_policy s r b = record b {
  policies =
      if is_ok r.outcome
      then maybe b.policies
          (λ snapshot. maybe b.policies (λ w. policies_after s w snapshot b) s.websocket) r.snapshot
      else b.policies;
}

unfoldable pub take_reply : TuningResponse → Pending → TuningBroker → TuningBroker
unfolding remember resolve
take_reply r t b =
    let known = if t.mutation then remember t.request_id b else b in
    note (Event.accepted t.number r) (record known { tasks = resolve t (some r) known.tasks })

unfoldable pub on_valid : RobotSession → TuningResponse → TuningBroker → TuningBroker
unfolding keep_policy bound_entry take_reply
on_valid s r b =
    let kept = keep_policy s r b in
    maybe kept (λ t. if bound_entry t s then take_reply r t kept else kept)
      (pending_entry r.request_id kept.tasks)

-- `handle_response` for the current session of a robot.
unfoldable pub handle_response : RobotSession → Reply → TuningBroker → TuningBroker
unfolding on_invalid on_valid
handle_response s Reply.unreadable b = b
handle_response s (Reply.invalid rid) b =
    if is_none s.websocket then b else maybe b (λ id. on_invalid s id b) rid
handle_response s (Reply.valid robot r) b =
    if is_none s.websocket || not (robot == s.robot_id) then b else on_valid s r b

-- What a task without an answer gets when its robot is lost.
abbrev pub lost_future : Pending → Option TuningResponse
lost_future t = if t.mutation then some (unknown_response t.request_id) else none

unfoldable pub lose_if : (Pending → Bool) → List Pending → List Pending
lose_if test [] = []
lose_if test (t ∷ tasks) =
    (if t.listed && test t && is_none t.future
      then record t { future = some (lost_future t) }
      else t)
    ∷ lose_if test tasks

unfoldable pub disconnected : ℕ → ℕ → TuningBroker → TuningBroker
unfolding get pop lose_if
disconnected robot session b = record b {
  policies =
      if maybe false (λ p. p.session == session) (get robot b.policies)
      then pop robot b.policies
      else b.policies;
  tasks = lose_if (λ t. t.session == session) b.tasks;
}

abbrev pub unlisted : List Pending → List Pending
unlisted [] = []
unlisted (t ∷ tasks) = record t { listed = false } ∷ unlisted tasks

abbrev pub every_task : Pending → Bool
every_task t = true

unfoldable pub shutdown : TuningBroker → TuningBroker
unfolding lose_if
shutdown b = record b { policies = []; tasks = unlisted (lose_if every_task b.tasks) }

-- The policy that manual drive may use; the generation is the session id, the revision
-- and the digest, which keeps its prefix here.
pub record DrivePolicy : Type 0 where
  pub limits : List (String × Value)
  pub generation : Option String × (ℤ × String)
  pub received_mono : ℕ
  pub robot_generation : ℤ

-- The policy's own session is the robot's current one, with the same socket.
abbrev pub still_bound : Policy → RobotSession → Bool
still_bound p s = s.ident == p.session && maybe false (λ w. w == p.websocket) s.websocket

abbrev only_if : Bool → DrivePolicy → Option DrivePolicy
only_if b p = if b then some p else none

abbrev pub policy_of : Policy → RobotSession → Option DrivePolicy
policy_of p s = if not (still_bound p s) || not p.snapshot.active_known then none else do
  base ← s.state.base_state.value
  limits ← p.snapshot.effective_limits
  digest ← p.snapshot.digest
  hardware ← p.snapshot.hardware_session_generation
  only_if (eqb_ℤ hardware base.session_generation) (record {
    limits = limits;
    generation = (p.snapshot.session_id, (p.snapshot.active_revision, digest));
    received_mono = p.received;
    robot_generation = base.session_generation;
  })

unfoldable pub teleop_policy : ℕ → TuningBroker → Option DrivePolicy
unfolding get
teleop_policy robot b =
    maybe none (λ p. maybe none (policy_of p) (get robot b.robots)) (get robot b.policies)
