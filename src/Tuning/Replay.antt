-- ===== src/Tuning/Replay.antt =====
-- Histories of server/app/tuning/broker.py: no mutation is sent again while its id is remembered.
use patrolbot_dashboard.Base.{
  ℕ, ◌+◌, Bool, true, false, not, ◌==◌, ◌&&◌, ◌||◌, Option, none, some, List, [], ◌∷◌, is_none,
  maybe, maybe-holds, maybe-split, if-holds, if-split, if◌then◌else◌, ◌≡◌, refl, sym, subst, arith,
}
use patrolbot_dashboard.Base.Dict.{get}
use patrolbot_dashboard.Hub.{RobotSession}
use patrolbot_dashboard.Tuning.{
  Payload, Pending, Stage, Result, Event, Refusal, TuningResponse, TuningBroker, note, prune_seen,
  has, remember, finish, is_mutation, is_ok, bound, pending_entry, lost_result,
}
use patrolbot_dashboard.Tuning.Requests.{
  looked_up, early_refusal, late_refusal, enlist, begin, to_robot, request, send_ends,
  update_desired, resumed,
}
use patrolbot_dashboard.Tuning.Replies.{
  Reply, bound_entry, on_invalid, keep_policy, take_reply, on_valid, handle_response, disconnected,
  shutdown,
}
use patrolbot_dashboard.Tuning.Machine.{Step, task_at, step, run}
use patrolbot_dashboard.Tuning.Unknown.{Idle}
use patrolbot_dashboard.Tuning.Spacing.{
  Kept, Covered, Covered-later, Covered-map, Covered-Apart, Apart-SentApart, Spaced, pruned-Within,
  remember-Kept,
}

finish-Kept : (t : Pending) (r : Result) (b : TuningBroker) → Kept b → Kept (finish t r b)
unfolding finish
finish-Kept t r b k = k

send_ends-Kept : (went : Bool) (t : Pending) (b : TuningBroker) → Kept b → Kept (send_ends went t b)
unfolding send_ends
send_ends-Kept went t b k =
    if-holds Kept (went && bound b.robots t) _ _ k (finish-Kept t (lost_result t) b k)

resumed-Kept :
    (t : Pending) (r : Option TuningResponse) (b : TuningBroker) → Kept b → Kept (resumed t r b)
unfolding resumed update_desired
resumed-Kept t none b k = finish-Kept t (lost_result t) b k
resumed-Kept t (some r) b k =
    if-holds Kept (is_ok r.outcome && not (bound b.robots t)) _ _
      (finish-Kept t (lost_result t) b k)
      (finish-Kept t (Result.response r) (update_desired t r.snapshot b) k)

take_reply-Kept :
    (r : TuningResponse) (t : Pending) (b : TuningBroker) → Kept b → Kept (take_reply r t b)
unfolding take_reply
take_reply-Kept r t b k = if-holds Kept t.mutation _ b (remember-Kept t.request_id b k) k

on_valid-Kept :
    (s : RobotSession) (r : TuningResponse) (b : TuningBroker) → Kept b → Kept (on_valid s r b)
unfolding on_valid keep_policy
on_valid-Kept s r b k =
    maybe-holds Kept (keep_policy s r b) _ (pending_entry r.request_id (keep_policy s r b).tasks) k
      (λ t. if-holds Kept (bound_entry t s) _ _ (take_reply-Kept r t (keep_policy s r b) k) k)

on_invalid-Kept :
    (s : RobotSession) (rid : ℕ) (b : TuningBroker) → Kept b → Kept (on_invalid s rid b)
unfolding on_invalid
on_invalid-Kept s rid b k =
    maybe-holds Kept b _ (pending_entry rid b.tasks) k
      (λ t. if-holds Kept (bound_entry t s) _ b k k)

handle_response-Kept :
    (s : RobotSession) (reply : Reply) (b : TuningBroker)
    → Kept b
    → Kept (handle_response s reply b)
unfolding handle_response
handle_response-Kept s Reply.unreadable b k = k
handle_response-Kept s (Reply.invalid rid) b k =
    if-holds Kept (is_none s.websocket) b _ k
      (maybe-holds Kept b _ rid k (λ id. on_invalid-Kept s id b k))
handle_response-Kept s (Reply.valid robot r) b k =
    if-holds Kept (is_none s.websocket || not (robot == s.robot_id)) b _ k (on_valid-Kept s r b k)

prune_seen-Kept : (b : TuningBroker) → Kept b → Kept (prune_seen b)
unfolding prune_seen
prune_seen-Kept b (covered, spaced) = (
  Covered-map b.dedupe_limit b.clock b.dedupe_ttl 0 b.seen _ b.events
      (λ n j u few fresh past w. pruned-Within b n j u fresh w) covered,
  spaced,
)

looked_up-Kept : (p : Payload) (b : TuningBroker) → Kept b → Kept (looked_up p b)
unfolding looked_up
looked_up-Kept p b k =
    if-holds Kept (is_mutation p.operation && is_none (pending_entry p.request_id b.tasks))
      (prune_seen b) b (prune_seen-Kept b k) k

early_absent :
    (administrator : Bool) (robot : ℕ) (p : Payload) (b : TuningBroker)
    → early_refusal administrator robot p b ≡ none
    → is_mutation p.operation ≡ true
    → has p.request_id b.seen ≡ false
unfolding early_refusal
early_absent administrator robot p b h m = ground arith

-- A mutation whose id is not kept is noted and sent.
sent-Kept :
    (rid : ℕ) (b : TuningBroker)
    → has rid b.seen ≡ false
    → Kept b
    → Kept (note (Event.mutation_sent rid b.clock) (remember rid b))
unfolding remember prune_seen
sent-Kept rid b absent (covered, spaced) =
    let apart =
      Covered-Apart b.dedupe_limit b.clock b.dedupe_ttl 0 b.dedupe_limit rid b.seen b.events
        (omega arith) absent covered in
    (
      (remember-Kept rid b (covered, spaced)).0,
      (
        (refl, refl),
        apart,
        Apart-SentApart b.dedupe_limit b.dedupe_ttl b.dedupe_limit rid b.clock b.events spaced
            apart,
        spaced,
      ),
    )

begin-Kept :
    (robot : ℕ) (s : RobotSession) (w : ℕ) (p : Payload) (b : TuningBroker)
    → (is_mutation p.operation ≡ true → has p.request_id b.seen ≡ false)
    → Kept b
    → Kept (begin robot s w p b)
unfolding begin enlist
begin-Kept robot s w p b absent (covered, spaced) =
    if-split Kept (is_mutation p.operation) _ (enlist robot s w p b)
      (λ m. sent-Kept p.request_id (enlist robot s w p b) (absent m) (covered, spaced))
      (λ m. (covered, spaced))

to_robot-Kept :
    (robot : ℕ) (p : Payload) (s : RobotSession) (b : TuningBroker)
    → (is_mutation p.operation ≡ true → has p.request_id b.seen ≡ false)
    → Kept b
    → Kept (to_robot robot p s b)
to_robot-Kept robot p s b absent k =
    maybe-holds Kept _ _ (late_refusal robot s p b)
      (maybe-holds Kept (note (Event.turned_away Refusal.unavailable) b) _ s.websocket k
        (λ w. begin-Kept robot s w p b absent k))
      (λ refusal. k)

request-Kept :
    (administrator : Bool) (robot : ℕ) (p : Payload) (b : TuningBroker)
    → Kept b
    → Kept (request administrator robot p b)
unfolding request
request-Kept administrator robot p b k =
    let known : TuningBroker =
      if is_mutation p.operation && not administrator then b else looked_up p b in
    let ready : Kept known =
      if-holds Kept (is_mutation p.operation && not administrator) b _ k (looked_up-Kept p b k) in
    maybe-split Kept _ _ (early_refusal administrator robot p known)
      (λ clear.
        maybe-holds Kept (note (Event.turned_away Refusal.unavailable) known) _
          (get robot known.robots) ready
          (λ s.
            to_robot-Kept robot p s known (early_absent administrator robot p known clear) ready))
      (λ refusal e. ready)

step-Kept : (s : Step) (b : TuningBroker) → Kept b → Kept (step s b)
unfolding step disconnected shutdown
step-Kept (Step.requests administrator robot p) b k = request-Kept administrator robot p b k
step-Kept (Step.sends went number) b k =
    maybe-holds Kept b _ (task_at number b.tasks) k (λ t. sending t t.stage)
  where
    sending :
        (t : Pending) (x : Stage)
        → Kept (elim x [ Stage.sending ↦ send_ends went t b | Stage.waiting ↦ b ])
    sending t Stage.sending = send_ends-Kept went t b k
    sending t Stage.waiting = k
step-Kept (Step.times_out number) b k =
    maybe-holds Kept b _ (task_at number b.tasks) k (λ t. timeout t t.stage)
  where
    timeout :
        (t : Pending) (x : Stage)
        → Kept (elim x [
          | Stage.sending ↦ b
          | Stage.waiting ↦ maybe (finish t (lost_result t) b) (λ r. b) t.future
        ])
    timeout t Stage.sending = k
    timeout t Stage.waiting =
        maybe-holds Kept _ _ t.future (finish-Kept t (lost_result t) b k) (λ r. k)
step-Kept (Step.resumes number) b k =
    maybe-holds Kept b _ (task_at number b.tasks) k (λ t. resume t t.stage)
  where
    resume :
        (t : Pending) (x : Stage)
        → Kept
            (elim x [ Stage.sending ↦ b | Stage.waiting ↦ maybe b (λ r. resumed t r b) t.future ])
    resume t Stage.sending = k
    resume t Stage.waiting = maybe-holds Kept b _ t.future k (λ r. resumed-Kept t r b k)
step-Kept (Step.responds robot session reply) b k =
    maybe-holds Kept b _ (get robot b.robots) k
      (λ s. if-holds Kept (s.ident == session) _ b (handle_response-Kept s reply b k) k)
step-Kept (Step.disconnects robot session) b k = k
step-Kept Step.shuts_down b k = k
step-Kept (Step.hub_is robots) b k = k

run-Kept : (steps : List (ℕ × Step)) (b : TuningBroker) → Kept b → Kept (run steps b)
unfolding run
run-Kept [] b k = k
run-Kept ((wait, s) ∷ steps) b (covered, spaced) = run-Kept steps _ (
    step-Kept s (record b { clock = b.clock + wait })
      (Covered-later b.dedupe_limit b.clock b.dedupe_ttl 0 wait b.seen b.events covered, spaced))

-- In every history of the broker, a mutation that is sent was noted right before, under its id and at
-- that time. Before that note, neither the latest ids that were noted, as many as the limit of
-- remembered ids, nor the mutations sent since the first of these, have its id, except where the
-- retention time has passed since: no mutation is sent again under its id, however often the browser
-- repeats it, until that time has passed or that many ids have been noted.
pub run-Spaced :
    (steps : List (ℕ × Step)) (b : TuningBroker)
    → Idle b
    → let after = run steps b in Spaced after.dedupe_limit after.dedupe_ttl after.events
run-Spaced steps b (tasks, events) =
    (run-Kept steps b (
      subst
        (λ es.
          Covered 0 b.dedupe_limit b.clock b.dedupe_ttl b.seen es
          × Spaced b.dedupe_limit b.dedupe_ttl es)
        (sym events) (tt, tt))).1
