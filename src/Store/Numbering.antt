-- ===== src/Store/Numbering.antt =====
-- The ids of the events and the list of recent ones, of server/app/telemetry/store.py.
use patrolbot_dashboard.Base.{
  ℕ, zero, suc, ◌+◌, Bool, true, false, List, [], ◌∷◌, ◌++◌, reverse, take, length, length-append,
  if-holds, ◌≡◌, refl, ap, ◌∙◌, sym, subst, arith,
}
use mathlib.Core.List.{append_assoc, append-nil, reverse_aux}
use patrolbot_dashboard.Protocol.Telemetry.{BaseStateData, MotionData}
use patrolbot_dashboard.Store.State.{
  Settings, Severity, Alert, EventData, EventIdAllocator, RobotState, Store, max_events, allocate,
  made, add_event, record_heartbeat, set_capabilities, new_state,
}
use patrolbot_dashboard.Store.Records.{
  record_lidar, record_path, estop_event, estop_edge, bumper_edge, record_base_state, record_motion,
  record_resources,
}
use patrolbot_dashboard.Store.Effects.{
  Emits, emit_if, Quiet, record_pose-Quiet, record_battery-Quiet, refresh-Quiet,
  record_diagnostics-Quiet, record_map-Quiet, set_connection-Quiet,
}
use patrolbot_dashboard.Store.Calls.{Call, drop_motion, lose_heartbeat, call, run}

abbrev pub any_alert : Alert → Bool
any_alert a = true

abbrev pub events_of : RobotState → List EventData
events_of r = r.events

-- The store grows by new events, and its recent ones change by nothing else.
abbrev pub Grows : Store → Store → Type 0
Grows = Emits any_alert events_of

pub Quiet-Grows : (s t : Store) → Quiet s t → Grows s t
Quiet-Grows s _ Emits.idle = Emits.idle
Quiet-Grows s _ (Emits.update t r e q) = Emits.update t r (ap (λ k. k.events) e) (Quiet-Grows s t q)
Quiet-Grows s _ (Emits.emit t severity alert h q) =
    Emits.emit t severity alert refl (Quiet-Grows s t q)

estop_edge-Grows :
    (sample : BaseStateData) (s u : Store) → Grows u s → Grows u (estop_edge sample s)
unfolding estop_edge
estop_edge-Grows sample s u g =
    Emits.update _ _ refl (event-Grows sample.estop_pressed s.state.prev_estop)
  where
    event-Grows : (now before : Bool) → Grows u (estop_event now before s)
    event-Grows true true = g
    event-Grows true false = Emits.emit s _ _ refl g
    event-Grows false true = Emits.emit s _ _ refl g
    event-Grows false false = g

bumper_edge-Grows :
    (sample : BaseStateData) (s u : Store) → Grows u s → Grows u (bumper_edge sample s)
unfolding bumper_edge
bumper_edge-Grows sample s u g =
    Emits.update _ _ refl (emit_if any_alert events_of u _ _ _ s refl g)

record_base_state-Grows :
    (now : ℕ) (sample : BaseStateData) (s : Store) → Grows s (record_base_state now sample s)
unfolding record_base_state
record_base_state-Grows now sample s =
    Emits.update (bumper_edge sample (estop_edge sample s)) _ refl
      (bumper_edge-Grows sample _ s (estop_edge-Grows sample s s Emits.idle))

record_motion-Grows :
    (now : ℕ) (sample : MotionData) (s : Store) → Grows s (record_motion now sample s)
unfolding record_motion
record_motion-Grows now sample s =
    if-holds (Grows s) _ s _ Emits.idle (Emits.update s _ refl Emits.idle)

pub call-Grows : (settings : Settings) (c : Call) (s : Store) → Grows s (call settings c s)
unfolding call record_lidar record_path record_resources record_heartbeat set_capabilities
    drop_motion lose_heartbeat
call-Grows settings (Call.poses now x) s =
    Quiet-Grows s _ (record_pose-Quiet s settings now x s Emits.idle)
call-Grows settings (Call.lidars now x) s = Emits.update s _ refl Emits.idle
call-Grows settings (Call.paths now x) s = Emits.update s _ refl Emits.idle
call-Grows settings (Call.batteries now x) s =
    Quiet-Grows s _ (record_battery-Quiet s settings now x s Emits.idle)
call-Grows settings (Call.base_states now x) s = record_base_state-Grows now x s
call-Grows settings (Call.motions now x) s = record_motion-Grows now x s
call-Grows settings (Call.diagnoses now x) s =
    Quiet-Grows s _ (record_diagnostics-Quiet s settings now x s Emits.idle)
call-Grows settings (Call.resources now x) s = Emits.update s _ refl Emits.idle
call-Grows settings (Call.maps now x) s = Quiet-Grows s _ (record_map-Quiet s now x s Emits.idle)
call-Grows settings (Call.connects c) s = Quiet-Grows s _ (set_connection-Quiet s c s Emits.idle)
call-Grows settings (Call.declares names) s = Emits.update s _ refl Emits.idle
call-Grows settings (Call.heartbeats now) s = Emits.update s _ refl Emits.idle
call-Grows settings (Call.refreshes now) s =
    Quiet-Grows s _ (refresh-Quiet s settings now s Emits.idle)
call-Grows settings (Call.says severity title message) s = Emits.emit s _ _ refl Emits.idle
call-Grows settings Call.silences s = Emits.update s _ refl Emits.idle
call-Grows settings Call.drops_motion s = Emits.update s _ refl Emits.idle

-- The ids count up from a number, one by one.
abbrev pub Numbered : ℕ → List EventData → Type 0
Numbered n [] = Unit
Numbered n (e ∷ events) = (e.id ≡ n) × Numbered (suc n) events

-- What a deque keeps of events that are put in front of its old ones, one by one.
abbrev pushed : List EventData → List EventData → List EventData
pushed [] old = old
pushed (e ∷ events) old = pushed events (take max_events (e ∷ old))

abbrev pub Logged : Store → Store → Type 0
Logged s t =
    (news : List EventData) × (t.returned ≡ s.returned ++ news)
    × Numbered s.event_ids.next_id news
    × (t.event_ids.next_id ≡ s.event_ids.next_id + length news)
    × (t.state.events ≡ pushed news s.state.events)

Numbered-join :
    (n : ℕ) (xs ys : List EventData)
    → Numbered n xs
    → Numbered (n + length xs) ys
    → Numbered n (xs ++ ys)
Numbered-join n [] ys u v = subst (λ k. Numbered k ys) (omega arith) v
Numbered-join n (x ∷ xs) ys (p, u) v =
    (p, Numbered-join (suc n) xs ys u (subst (λ k. Numbered k ys) (omega arith) v))

pushed-join : (xs ys old : List EventData) → pushed (xs ++ ys) old ≡ pushed ys (pushed xs old)
pushed-join [] ys old = refl
pushed-join (x ∷ xs) ys old = pushed-join xs ys (take max_events (x ∷ old))

Logged-trans : (s t u : Store) → Logged s t → Logged t u → Logged s u
Logged-trans s t u (xs, old, ids, next, same) (ys, old', ids', next', same') = (
  xs ++ ys,
  rw old' (rw old (append_assoc s.returned xs ys)),
  Numbered-join s.event_ids.next_id xs ys ids (subst (λ n. Numbered n ys) next ids'),
  omega (arith, next, next', length-append xs ys),
  same' ∙ ap (pushed ys) same ∙ sym (pushed-join xs ys s.state.events),
)

emit-Logged :
    (severity : Severity) (alert : Alert) (s : Store) → Logged s (add_event severity alert s)
unfolding add_event made allocate
emit-Logged severity alert s = (made severity alert s ∷ [], refl, (refl, tt), omega arith, refl)

pub Grows-Logged : (s t : Store) → Grows s t → Logged s t
Grows-Logged s _ Emits.idle = ([], sym (append-nil s.returned), tt, omega arith, refl)
Grows-Logged s _ (Emits.update t r e g) =
    let (news, old, ids, next, same) = Grows-Logged s t g in (news, old, ids, next, e ∙ same)
Grows-Logged s _ (Emits.emit t severity alert h g) =
    Logged-trans s t (add_event severity alert t) (Grows-Logged s t g)
      (emit-Logged severity alert t)

run-Logged : (settings : Settings) (calls : List Call) (s : Store) → Logged s (run settings calls s)
unfolding run
run-Logged settings [] s = Grows-Logged s s Emits.idle
run-Logged settings (c ∷ calls) s =
    Logged-trans s (call settings c s) (run settings calls (call settings c s))
      (Grows-Logged s (call settings c s) (call-Grows settings c s))
      (run-Logged settings calls (call settings c s))

take-take : {A : Type 0} (n : ℕ) (xs : List A) → take n (take (suc n) xs) ≡ take n xs
take-take zero xs = refl
take-take (suc n) [] = refl
take-take (suc n) (x ∷ xs) = ap (λ l. x ∷ l) (take-take n xs)

pushed-take :
    (xs old : List EventData)
    → pushed xs (take max_events old) ≡ take max_events (reverse_aux xs old)
pushed-take [] old = refl
pushed-take (e ∷ xs) old =
    ap (λ l. pushed xs (e ∷ l)) (take-take 499 old) ∙ pushed-take xs (e ∷ old)

-- A robot's store before its first call.
abbrev pub started : EventIdAllocator → Store
started ids = record { event_ids = ids; state = new_state; returned = [] }

-- In every history of calls on one robot, the events have consecutive ids, counted from the next id
-- of the allocator at the start, so no id is given twice.
pub run-Numbered :
    (settings : Settings) (ids : EventIdAllocator) (calls : List Call)
    → Numbered ids.next_id (run settings calls (started ids)).returned
run-Numbered settings ids calls =
    let (news, old, numbered, next, same) = run-Logged settings calls (started ids) in
    subst (Numbered ids.next_id) (sym old) numbered

-- After every history of calls on a new robot state, the event list that a browser's snapshot is
-- taken from is exactly the latest 500 of the events that the calls returned, the newest first.
pub run_latest :
    (settings : Settings) (ids : EventIdAllocator) (calls : List Call)
    → let s = run settings calls (started ids) in
      s.state.events ≡ take max_events (reverse s.returned)
unfolding new_state
run_latest settings ids calls =
    let (news, old, numbered, next, same) = run-Logged settings calls (started ids) in
    same ∙ pushed-take news [] ∙ ap (λ l. take max_events (reverse l)) (sym old)
