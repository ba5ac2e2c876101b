-- ===== src/Tuning.antt =====
-- server/app/tuning/broker.py: requests for a robot's tuning, as tasks that wait for the socket and then
-- for the robot. Every await of the source ends a step, and any other step may come between. A
-- request comes in after its validation, and so does a reply; `can_sign` says that the key of the
-- authorization can be loaded. Request ids, sockets and sessions are compared only, and are numbers;
-- texts, durable jobs and the signed frame are left out. What is asked twice without an await
-- between, the binding just before the send and the checks under the lock, is asked once.
pub mod Requests
pub mod Replies
pub mod Machine
pub mod Tasks
pub mod Unknown
pub mod Recent
pub mod Spacing
pub mod Replay
pub mod Drive
mod Examples
use patrolbot_dashboard.Base.{
  ℕ, suc, ◌-◌, ℤ, String, Bool, true, false, not, ◌==◌, ◌&&◌, ◌||◌, Option, none, some, List, [],
  ◌∷◌, ltb, leb, find, maybe, take, if◌then◌else◌,
}
use patrolbot_dashboard.Base.Dict.{get, pop}
use patrolbot_dashboard.TuningPolicy.{Value}
use patrolbot_dashboard.Hub.{RobotSession}

pub data Operation : Type 0 where
  read save apply redeploy status restore : Operation

abbrev pub is_mutation : Operation → Bool
is_mutation Operation.read = false
is_mutation Operation.status = false
is_mutation _ = true

pub data Outcome : Type 0 where
  ok conflict refused failed unknown : Outcome

pub record Snapshot : Type 0 where
  pub session_id : Option String
  pub desired_revision : Option ℤ
  pub active_known : Bool
  pub active_revision : ℤ
  pub digest : Option String
  pub effective_limits : Option (List (String × Value))
  pub hardware_session_generation : Option ℤ

pub record TuningResponse : Type 0 where
  pub request_id : ℕ
  pub outcome : Outcome
  pub snapshot : Option Snapshot

pub data Refusal : Type 0 where
  forbidden conflict rate_limited unavailable : Refusal

pub record Payload : Type 0 where
  pub operation : Operation
  pub request_id : ℕ
  pub session_id : String
  pub base_revision : Option ℤ
  pub expected_revision : Option ℤ

pub data Stage : Type 0 where
  sending waiting : Stage

-- A request under way: its entry, whether `_pending` lists it, and what its future holds; `some none`
-- is the sentinel of a lost session.
pub record Pending : Type 0 where
  pub number : ℕ
  pub request_id : ℕ
  pub robot_id : ℕ
  pub session : ℕ
  pub generation : ℕ
  pub websocket : ℕ
  pub mutation : Bool
  pub stage : Stage
  pub listed : Bool
  pub future : Option (Option TuningResponse)

pub data Result : Type 0 where
  response : TuningResponse → Result
  raised : Refusal → Result

-- What has happened: a mutation's frame sent or an id remembered, at a time, a reply taken for a task, and the
-- result of a task, with whether it was a mutation.
pub data Event : Type 0 where
  mutation_sent : ℕ → ℕ → Event
  remembered : ℕ → ℕ → Event
  accepted : ℕ → TuningResponse → Event
  returned : ℕ → Bool → Result → Event
  turned_away : Refusal → Event

pub record Desired : Type 0 where
  pub generation : ℕ
  pub revision : ℤ
  pub session_id : String

pub record Policy : Type 0 where
  pub session : ℕ
  pub websocket : ℕ
  pub snapshot : Snapshot
  pub received : ℕ

-- The ids in `seen` and the events are kept newest first.
pub record TuningBroker : Type 0 where
  pub max_pending : ℕ
  pub dedupe_limit : ℕ
  pub dedupe_ttl : ℕ
  pub can_sign : Bool
  pub clock : ℕ
  pub robots : List (ℕ × RobotSession)
  pub tasks : List Pending
  pub locked : List ℕ
  pub seen : List (ℕ × ℕ)
  pub desired : List (ℕ × Desired)
  pub policies : List (ℕ × Policy)
  pub next_number : ℕ
  pub events : List Event

abbrev pub note : Event → TuningBroker → TuningBroker
note e b = record b { events = e ∷ b.events }

-- `len(self._pending)`, and the entry under a request id.
abbrev pub pending_count : List Pending → ℕ
pending_count [] = 0
pending_count (t ∷ tasks) = if t.listed then suc (pending_count tasks) else pending_count tasks

abbrev pub pending_entry : ℕ → List Pending → Option Pending
pending_entry rid = find (λ t. t.listed && t.request_id == rid)

-- `_prune_seen`: the oldest ids go, up to the first one that is recent enough.
unfoldable pub drop_old : ℕ → ℕ → List (ℕ × ℕ) → List (ℕ × ℕ)
drop_old now ttl [] = []
drop_old now ttl ((id, t) ∷ seen) = elim (drop_old now ttl seen) [
  | [] ↦ if ltb t (now - ttl) then [] else (id, t) ∷ []
  | x ∷ rest ↦ (id, t) ∷ (x ∷ rest)
]

unfoldable pub prune_seen : TuningBroker → TuningBroker
unfolding drop_old
prune_seen b = record b {
  seen = if leb b.dedupe_ttl 0 then b.seen else drop_old b.clock b.dedupe_ttl b.seen;
}

abbrev pub has : ℕ → List (ℕ × ℕ) → Bool
has rid [] = false
has rid ((id, t) ∷ seen) = id == rid || has rid seen

unfoldable pub remember : ℕ → TuningBroker → TuningBroker
unfolding prune_seen pop
remember rid b =
    let kept = prune_seen (record b { seen = (rid, b.clock) ∷ pop rid b.seen }) in
    note (Event.remembered rid b.clock) (record kept { seen = take b.dedupe_limit kept.seen })

-- `_bound`: the robot's current session is the entry's, with the same socket and generation.
unfoldable pub bound : List (ℕ × RobotSession) → Pending → Bool
unfolding get
bound robots t =
    maybe false
      (λ s.
        s.ident == t.session
        && maybe false (λ w. w == t.websocket) s.websocket
        && s.generation == t.generation)
      (get t.robot_id robots)

-- `TuningResponse(request_id, "unknown", ...)`.
abbrev pub unknown_response : ℕ → TuningResponse
unknown_response rid = record { request_id = rid; outcome = Outcome.unknown; snapshot = none }

abbrev pub is_ok : Outcome → Bool
is_ok Outcome.ok = true
is_ok _ = false

-- What a request that has lost its robot ends with: a mutation may have been carried out.
abbrev pub lost_result : Pending → Result
lost_result t =
    if t.mutation
    then Result.response (unknown_response t.request_id)
    else Result.raised Refusal.unavailable

-- The end of a task: `_pending.pop`, and the lock of its robot is free again.
unfoldable pub leave : Pending → List Pending → List Pending
leave t [] = []
leave t (u ∷ tasks) =
    let rest = leave t tasks in
    if u.number == t.number
    then rest
    else if u.request_id == t.request_id
    then record u { listed = false } ∷ rest
    else u ∷ rest

abbrev unlock : ℕ → List ℕ → List ℕ
unlock robot [] = []
unlock robot (r ∷ locked) = let rest = unlock robot locked in if r == robot then rest else r ∷ rest

unfoldable pub finish : Pending → Result → TuningBroker → TuningBroker
unfolding leave
finish t result b = note (Event.returned t.number t.mutation result) (record b {
  tasks = leave t b.tasks;
  locked = if t.mutation then unlock t.robot_id b.locked else b.locked;
})
