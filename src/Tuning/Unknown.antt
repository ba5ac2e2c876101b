-- ===== src/Tuning/Unknown.antt =====
-- How the requests of server/app/tuning/broker.py end, and how many are under way.
use patrolbot_dashboard.Base.{
  ℕ, suc, ◌+◌, ◌≤◌, Bool, true, false, not, ◌==◌, ◌&&◌, ◌||◌, Option, none, some, List, [], ◌∷◌,
  find-All, is_none, maybe, maybe-holds, maybe-split, if-holds, or_else, if◌then◌else◌, ◌≡◌, refl,
  sym, subst, inl, inr, arith,
}
use patrolbot_dashboard.Base.Dict.{get}
use patrolbot_dashboard.Hub.{RobotSession}
use patrolbot_dashboard.Tuning.{
  is_ok, TuningResponse, Refusal, Payload, Stage, Pending, Result, Event, TuningBroker, note,
  pending_count, pending_entry, prune_seen, remember, bound, unknown_response, lost_result, finish,
  is_mutation,
}
use patrolbot_dashboard.Tuning.Requests.{
  looked_up, early_refusal, late_refusal, enlist, begin, to_robot, request, send_ends,
  update_desired, resumed,
}
use patrolbot_dashboard.Tuning.Replies.{
  Reply, bound_entry, on_invalid, keep_policy, take_reply, on_valid, handle_response, lose_if,
  disconnected, every_task, shutdown,
}
use patrolbot_dashboard.Tuning.Machine.{
  Step, task_at, on_task, on_sending, on_timeout, on_resume, step, run,
}
use patrolbot_dashboard.Tuning.Tasks.{
  Backed, ResultBacked, Honest, FutureBacked, GoodOf, Good, later-All, leave-Backed, waiting-Backed,
  resolve-Backed, lose-Backed, unlisted-Backed, leave-count, waiting-count, resolve-count,
  lose-count, unlisted-count,
}

remember-Good : (rid : ℕ) (b : TuningBroker) → Good b → Good (remember rid b)
unfolding remember prune_seen
remember-Good rid b (tasks, honest, few) = (later-All _ b.events b.tasks tasks, honest, few)

finish-Good :
    (t : Pending) (result : Result) (b : TuningBroker)
    → ResultBacked b.events t.number t.mutation result
    → Good b
    → Good (finish t result b)
unfolding finish
finish-Good t result b backed (tasks, honest, few) = (
  later-All _ b.events _ (leave-Backed b.events t b.tasks tasks),
  (backed, honest),
  omega (arith, few, leave-count t b.tasks),
)

lost-Backed :
    (events : List Event) (t : Pending) → ResultBacked events t.number t.mutation (lost_result t)
lost-Backed events t = from t.mutation
  where
    from :
        (m : Bool)
        → ResultBacked events t.number m (
            if m
            then Result.response (unknown_response t.request_id)
            else Result.raised Refusal.unavailable)
    from true = inl refl
    from false = refl

lost-Good : (t : Pending) (b : TuningBroker) → Good b → Good (finish t (lost_result t) b)
lost-Good t b g = finish-Good t (lost_result t) b (lost-Backed b.events t) g

send_ends-Good : (went : Bool) (t : Pending) (b : TuningBroker) → Good b → Good (send_ends went t b)
unfolding send_ends
send_ends-Good went t b (tasks, honest, few) =
    if-holds Good (went && bound b.robots t) _ _
      (waiting-Backed b.events t b.tasks tasks, honest, omega (arith, few, waiting-count t b.tasks))
      (lost-Good t b (tasks, honest, few))

resumed-Good :
    (t : Pending) (r : Option TuningResponse) (b : TuningBroker)
    → maybe Unit (Backed b.events t.number) r
    → Good b
    → Good (resumed t r b)
unfolding resumed update_desired
resumed-Good t none b h g = lost-Good t b g
resumed-Good t (some r) b h g =
    if-holds Good (is_ok r.outcome && not (bound b.robots t)) _ _ (lost-Good t b g)
      (finish-Good t (Result.response r) (update_desired t r.snapshot b) h g)

take_reply-Good :
    (r : TuningResponse) (t : Pending) (b : TuningBroker) → Good b → Good (take_reply r t b)
unfolding take_reply
take_reply-Good r t b g =
    let known : TuningBroker = if t.mutation then remember t.request_id b else b in
    let (tasks, honest, few) = if-holds Good t.mutation _ b (remember-Good t.request_id b g) g in
    (
      resolve-Backed (Event.accepted t.number r ∷ known.events) t r known.tasks (inr (inl refl))
          (later-All _ known.events known.tasks tasks),
      honest,
      omega (arith, few, resolve-count t (some r) known.tasks),
    )

on_valid-Good :
    (s : RobotSession) (r : TuningResponse) (b : TuningBroker) → Good b → Good (on_valid s r b)
unfolding on_valid keep_policy
on_valid-Good s r b g =
    maybe-holds Good (keep_policy s r b) _ (pending_entry r.request_id (keep_policy s r b).tasks) g
      (λ t. if-holds Good (bound_entry t s) _ _ (take_reply-Good r t (keep_policy s r b) g) g)

on_invalid-Good :
    (s : RobotSession) (rid : ℕ) (b : TuningBroker) → Good b → Good (on_invalid s rid b)
unfolding on_invalid
on_invalid-Good s rid b (tasks, honest, few) =
    maybe-holds Good b _ (pending_entry rid b.tasks) (tasks, honest, few)
      (λ t.
        if-holds Good (bound_entry t s) _ b
          (
            resolve-Backed b.events t (unknown_response t.request_id) b.tasks (inl refl) tasks,
            honest,
            omega (arith, few, resolve-count t (some (unknown_response t.request_id)) b.tasks),
          )
          (tasks, honest, few))

handle_response-Good :
    (s : RobotSession) (reply : Reply) (b : TuningBroker)
    → Good b
    → Good (handle_response s reply b)
unfolding handle_response
handle_response-Good s Reply.unreadable b g = g
handle_response-Good s (Reply.invalid rid) b g =
    if-holds Good (is_none s.websocket) b _ g
      (maybe-holds Good b _ rid g (λ id. on_invalid-Good s id b g))
handle_response-Good s (Reply.valid robot r) b g =
    if-holds Good (is_none s.websocket || not (robot == s.robot_id)) b _ g (on_valid-Good s r b g)

looked_up-Good : (p : Payload) (b : TuningBroker) → Good b → Good (looked_up p b)
unfolding looked_up prune_seen
looked_up-Good p b g = if-holds Good _ _ b g g

sent-Good :
    (rid time : ℕ) (b : TuningBroker) → Good b → Good (note (Event.mutation_sent rid time) b)
sent-Good rid time b (tasks, honest, few) = (later-All _ b.events b.tasks tasks, honest, few)

away-Good : (r : Refusal) (b : TuningBroker) → Good b → Good (note (Event.turned_away r) b)
away-Good r b (tasks, honest, few) = (later-All _ b.events b.tasks tasks, honest, few)

enlist-Good :
    (robot : ℕ) (s : RobotSession) (w : ℕ) (p : Payload) (b : TuningBroker)
    → suc (pending_count b.tasks) ≤ b.max_pending
    → Good b
    → Good (enlist robot s w p b)
unfolding enlist
enlist-Good robot s w p b room (tasks, honest, few) = ((tt, tasks), honest, room)

begin-Good :
    (robot : ℕ) (s : RobotSession) (w : ℕ) (p : Payload) (b : TuningBroker)
    → suc (pending_count b.tasks) ≤ b.max_pending
    → Good b
    → Good (begin robot s w p b)
unfolding begin
begin-Good robot s w p b room g =
    let listed = enlist-Good robot s w p b room g in
    if-holds Good (is_mutation p.operation) _ _
      (sent-Good p.request_id b.clock (remember p.request_id (enlist robot s w p b))
        (remember-Good p.request_id (enlist robot s w p b) listed))
      listed

or_else-none : {A : Type 0} (a b : Option A) → or_else a b ≡ none → (a ≡ none) × (b ≡ none)
or_else-none none b h = (refl, h)
or_else-none (some a) b h = ground arith

to_robot-Good :
    (robot : ℕ) (p : Payload) (s : RobotSession) (b : TuningBroker)
    → suc (pending_count b.tasks) ≤ b.max_pending
    → Good b
    → Good (to_robot robot p s b)
to_robot-Good robot p s b room g =
    maybe-holds Good _ _ (late_refusal robot s p b)
      (maybe-holds Good (note (Event.turned_away Refusal.unavailable) b) _ s.websocket
        (away-Good Refusal.unavailable b g) (λ w. begin-Good robot s w p b room g))
      (λ refusal. away-Good refusal b g)

early_room :
    (administrator : Bool) (robot : ℕ) (p : Payload) (b : TuningBroker)
    → early_refusal administrator robot p b ≡ none
    → suc (pending_count b.tasks) ≤ b.max_pending
unfolding early_refusal
early_room administrator robot p b h = ground arith

request-Good :
    (administrator : Bool) (robot : ℕ) (p : Payload) (b : TuningBroker)
    → Good b
    → Good (request administrator robot p b)
unfolding request
request-Good administrator robot p b g =
    let known : TuningBroker =
      if is_mutation p.operation && not administrator then b else looked_up p b in
    let ready : Good known =
      if-holds Good (is_mutation p.operation && not administrator) b _ g (looked_up-Good p b g) in
    maybe-split Good _ _ (early_refusal administrator robot p known)
      (λ clear.
        maybe-holds Good (note (Event.turned_away Refusal.unavailable) known) _
          (get robot known.robots) (away-Good Refusal.unavailable known ready)
          (λ s. to_robot-Good robot p s known (early_room administrator robot p known clear) ready))
      (λ refusal e. away-Good refusal known ready)

-- ------------------------------------------------------------------ the steps

task-Backed :
    (number : ℕ) (b : TuningBroker) (f : Pending → TuningBroker → TuningBroker)
    → ((t : Pending) → FutureBacked b.events t → Good (f t b))
    → Good b
    → Good (on_task number f b)
task-Backed number b f h g =
    maybe-split Good b _ (task_at number b.tasks) (λ e. g)
      (λ t e. h t (find-All (FutureBacked b.events) (λ u. u.number == number) b.tasks t g.0 e))

step-Good : (s : Step) (b : TuningBroker) → Good b → Good (step s b)
unfolding step disconnected shutdown
step-Good (Step.requests administrator robot p) b g = request-Good administrator robot p b g
step-Good (Step.sends went number) b g =
    task-Backed number b (on_sending went) (λ t h. sending t.stage t) g
  where
    sending :
        (x : Stage) (t : Pending)
        → Good (elim x [ Stage.sending ↦ send_ends went t b | Stage.waiting ↦ b ])
    sending Stage.sending t = send_ends-Good went t b g
    sending Stage.waiting t = g
step-Good (Step.times_out number) b g = task-Backed number b on_timeout (λ t h. timeout t.stage t) g
  where
    timeout :
        (x : Stage) (t : Pending)
        → Good (elim x [
          | Stage.sending ↦ b
          | Stage.waiting ↦ maybe (finish t (lost_result t) b) (λ r. b) t.future
        ])
    timeout Stage.sending t = g
    timeout Stage.waiting t = maybe-holds Good _ _ t.future (lost-Good t b g) (λ r. g)
step-Good (Step.resumes number) b g =
    task-Backed number b on_resume (λ t h. resume t t.stage t.future h) g
  where
    resume :
        (t : Pending) (x : Stage) (o : Option (Option TuningResponse))
        → maybe Unit (λ r. maybe Unit (Backed b.events t.number) r) o
        → Good (elim x [ Stage.sending ↦ b | Stage.waiting ↦ maybe b (λ r. resumed t r b) o ])
    resume t Stage.sending o h = g
    resume t Stage.waiting none h = g
    resume t Stage.waiting (some r) h = resumed-Good t r b h g
step-Good (Step.responds robot session reply) b g =
    maybe-holds Good b _ (get robot b.robots) g
      (λ s. if-holds Good (s.ident == session) _ b (handle_response-Good s reply b g) g)
step-Good (Step.disconnects robot session) b (tasks, honest, few) = (
  lose-Backed b.events (λ t. t.session == session) b.tasks tasks,
  honest,
  omega (arith, few, lose-count (λ t. t.session == session) b.tasks),
)
step-Good Step.shuts_down b (tasks, honest, few) = (
  unlisted-Backed b.events _ (lose-Backed b.events every_task b.tasks tasks),
  honest,
  omega (arith, unlisted-count (lose_if every_task b.tasks)),
)
step-Good (Step.hub_is robots) b g = g

run-Good : (steps : List (ℕ × Step)) (b : TuningBroker) → Good b → Good (run steps b)
unfolding run
run-Good [] b g = g
run-Good ((wait, s) ∷ steps) b g =
    run-Good steps _ (step-Good s (record b { clock = b.clock + wait }) g)

-- A broker that has nothing under way and has done nothing.
abbrev pub Idle : TuningBroker → Type 0
Idle b = (b.tasks ≡ []) × (b.events ≡ [])

Idle-Good : (b : TuningBroker) → Idle b → Good b
Idle-Good b (tasks, events) =
    subst (λ ts. GoodOf b.max_pending ts b.events) (sym tasks)
      (subst (GoodOf b.max_pending []) (sym events) (tt, tt, omega arith))

-- In every history of the broker, with requests, sends that succeed or fail, time limits, replies, lost
-- and replaced sessions and a shutdown in any order, a mutation that was sent never ends by an
-- error, and a response that a task returns either says that the outcome is unknown or is a reply
-- that the robot gave and that was taken for that very task.
pub run-Honest : (steps : List (ℕ × Step)) (b : TuningBroker) → Idle b → Honest (run steps b).events
run-Honest steps b idle = (run-Good steps b (Idle-Good b idle)).1

-- In every such history, the entries of pending requests that the broker keeps, those that a
-- shutdown has cleared excluded, never exceed the limit.
pub run_bounded :
    (steps : List (ℕ × Step)) (b : TuningBroker)
    → Idle b
    → pending_count (run steps b).tasks ≤ (run steps b).max_pending
run_bounded steps b idle = (run-Good steps b (Idle-Good b idle)).2
