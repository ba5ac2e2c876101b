-- ===== src/Bridge/WellFormed.antt =====
-- The state of `TeleopSession` between calls, ros2_ws/src/patrolbot_web_bridge/patrolbot_web_bridge/
-- teleop.py.
use text.Mathlib.TextPositions.{eq_refl}
use patrolbot_dashboard.Base.{
  ℕ, ◌≤◌, ◌≡◌, refl, ap, String, Bool, true, false, false≢true, not, ◌&&◌, ◌||◌, Option, none, some,
  List, [], ◌∷◌, length, leb, if-holds, if-split, maybe-holds, is_none, is_some, arith,
}
use patrolbot_dashboard.Base.Float.{Float}
use patrolbot_dashboard.Base.Text.{contains}
use patrolbot_dashboard.Protocol.Commands.{CommandOutcome, failed, timeout}
use patrolbot_dashboard.TuningPolicy.{Value, str}
use patrolbot_dashboard.Bridge.Policy.{RuntimePolicy, Resolution, resolved, refused}
use patrolbot_dashboard.Bridge.Session.{
  Cause, policy, policy_changed, unsafe, Env, TeleopSession, StepResult, done, state_of, publish,
  say, zero, resolve, active, closed, report, finish, same_context, same_policy, accept,
  confirm_policy, confirm_start, StartRequest, text_value, check_start, seen_limit, begun,
  after_zero, begin, start_checked, watch, tick_policy, tick, next_outcome, was_seen, valid_id,
}

-- A closed session holds nothing; an open one has a connection and an id that it can never use again.
abbrev pub Held : Option String → Option ℕ → Option Float → Bool → List String → Type 0
Held none context heard acknowledged seen =
    (context ≡ none) × (heard ≡ none) × (acknowledged ≡ false)
Held (some id) context heard acknowledged seen =
    (contains id seen ≡ true) × (is_some context ≡ true) × (is_some heard ≡ true)

abbrev distinct : List String → Bool
distinct [] = true
distinct (x ∷ xs) = not (contains x xs) && distinct xs

-- With `K`, what else is known of the ids on record.
abbrev pub WellFormed : (List String → Type 0) → TeleopSession → Type 0
WellFormed K s =
    Held s.command_id s.context s.last_received s.acknowledged s.seen
    × (distinct s.seen ≡ true)
    × (length s.seen ≤ seen_limit)
    × K s.seen

-- An active session may be told that it was heard, and whether it is acknowledged.
pub heard-Held :
    (id : Option String) (context : Option ℕ) (heard : Option Float) (a b : Bool)
    (seen : List String) (t : Float)
    → is_some id ≡ true
    → Held id context heard a seen
    → Held id context (some t) b seen
heard-Held (some id) context heard a b seen t h (i, c, _) = (i, c, refl)
heard-Held none context heard a b seen t h _ = absurd (false≢true h)

unseen :
    (s : TeleopSession) (uuid : String → Option String) (id : Value)
    → valid_id uuid id ≡ true
    → was_seen s id ≡ false
    → contains (text_value id) s.seen ≡ false
unfolding valid_id
unseen s uuid (str id) valid fresh_id = fresh_id
unseen s uuid _ valid fresh_id = absurd (false≢true valid)

-- A start that passes the checks has an id that was never used.
pub check_start-contains :
    (s : TeleopSession) (env : Env) (q : StartRequest)
    → (check_start s env q).1 ≡ none
    → contains (text_value q.command_id) s.seen ≡ false
unfolding check_start
check_start-contains s env q =
    let G = λ (x : Option RuntimePolicy × Option Cause).
      x.1 ≡ none → contains (text_value q.command_id) s.seen ≡ false in
    let no : (c : Cause) → G (none, some c) = λ c h. absurd (false≢true (ap is_none h)) in
    if-split G (not q.authorized || not (valid_id env.uuid q.command_id)) _ _ (λ _. no _)
      (λ valid. if-holds G (active s) _ _ (no _) (
        if-split G (was_seen s q.command_id) _ _ (λ _. no _)
          (λ fresh_id _. unseen s env.uuid q.command_id (ground arith) fresh_id)))

module _ (K : List String → Type 0)
    (grow : (id : String) (seen : List String) → K seen → K (id ∷ seen)) where
  pub publish-WellFormed :
      (s : TeleopSession) (linear angular : Float) (moving : Bool)
      → WellFormed K s
      → WellFormed K (publish s linear angular moving).0
  unfolding publish say
  publish-WellFormed s linear angular moving w =
      if-holds (WellFormed K) (next_outcome s.outcomes).0 _ _ w w

  report-WellFormed :
      (s : TeleopSession) (id : Option String) (acked : Bool) (r : Cause) (o : CommandOutcome)
      (went : Bool)
      → WellFormed K s
      → WellFormed K (report s id acked r o went)
  unfolding report say
  report-WellFormed s none acked r o went w = w
  report-WellFormed s (some id) acked r o went w = if-holds (WellFormed K) acked _ _ w w

  pub finish-WellFormed :
      (s : TeleopSession) (r : Cause) (o : CommandOutcome)
      → WellFormed K s
      → WellFormed K (finish s r o)
  unfolding finish closed
  finish-WellFormed s r o (_, distinct_ids, few, kept) =
      report-WellFormed _ s.command_id s.acknowledged r o _ (
        publish-WellFormed (closed s) zero zero false ((refl, refl, refl), distinct_ids, few, kept))

  accept-WellFormed :
      (s : TeleopSession) (env : Env)
      → active s ≡ true
      → WellFormed K s
      → WellFormed K (accept s env)
  unfolding accept say
  accept-WellFormed s env on (h, distinct_ids, few, kept) =
      let w : WellFormed K (record s { acknowledged = true; last_received = some env.now }) = (
        heard-Held s.command_id s.context s.last_received s.acknowledged true s.seen env.now on h,
        distinct_ids,
        few,
        kept,
      ) in
      maybe-holds (WellFormed K) _ _ s.command_id w (λ id. w)

  confirm_policy-WellFormed :
      (s : TeleopSession) (env : Env) (r : Resolution)
      → active s ≡ true
      → WellFormed K s
      → WellFormed K (state_of (confirm_policy s env r))
  unfolding confirm_policy
  confirm_policy-WellFormed s env (refused r) on w = finish-WellFormed s (policy r) failed w
  confirm_policy-WellFormed s env (resolved p) on w =
      let G = λ (r : StepResult). WellFormed K (state_of r) in
      if-holds G (same_policy p s.policy_signature) _ _ (accept-WellFormed s env on w)
        (finish-WellFormed s policy_changed failed w)

  pub confirm_start-WellFormed :
      (s : TeleopSession) (env : Env) (context : ℕ)
      → WellFormed K s
      → WellFormed K (state_of (confirm_start s env context))
  unfolding confirm_start
  confirm_start-WellFormed s env context w =
      let G = λ (r : StepResult). WellFormed K (state_of r) in
      if-split G (not (active s) || s.acknowledged) (done s false) _ (λ _. w)
        (λ go.
          maybe-holds G _ _ env.safety
            (if-holds G (not (same_context context s.context)) _ _ (finish-WellFormed s _ failed w)
              (confirm_policy-WellFormed s env (resolve s env) (ground arith) w))
            (λ r. finish-WellFormed s (unsafe r) failed w))

  after_zero-WellFormed :
      (env : Env) (context : ℕ) (defer_ack : Bool) (x : TeleopSession × Bool)
      → WellFormed K x.0
      → WellFormed K (state_of (after_zero env context defer_ack x))
  unfolding after_zero
  after_zero-WellFormed env context defer_ack (v, false) w = finish-WellFormed v _ failed w
  after_zero-WellFormed env context defer_ack (v, true) w =
      if-holds (λ (r : StepResult). WellFormed K (state_of r)) defer_ack _ _ w
        (confirm_start-WellFormed v env context w)

  begin-WellFormed :
      (s : TeleopSession) (env : Env) (q : StartRequest) (context : ℕ)
      → contains (text_value q.command_id) s.seen ≡ false
      → WellFormed K s
      → WellFormed K (state_of (begin s env q context))
  unfolding begin contains say
  begin-WellFormed s env q context fresh_id (h, distinct_ids, few, kept) =
      let id = text_value q.command_id in
      if-split (λ (r : StepResult). WellFormed K (state_of r)) (leb seen_limit (length s.seen)) _ _
        (λ _. (h, distinct_ids, few, kept))
        (λ room. after_zero-WellFormed env context q.defer_ack _ (
          publish-WellFormed (begun s env id context) zero zero false (
            (rw (eq_refl id) refl, refl, refl),
            rw fresh_id distinct_ids,
            ground arith,
            grow id s.seen kept,
          )))

  pub start_checked-WellFormed :
      (s : TeleopSession) (env : Env) (q : StartRequest) (context : ℕ)
      (x : Option RuntimePolicy × Option Cause)
      → (x.1 ≡ none → contains (text_value q.command_id) s.seen ≡ false)
      → WellFormed K s
      → WellFormed K (state_of (start_checked s env q context x))
  unfolding start_checked say
  start_checked-WellFormed s env q context (_, some r) k w = w
  start_checked-WellFormed s env q context (p, none) k w =
      begin-WellFormed (record s { policy_signature = p }) env q context (k refl) w

  tick_policy-WellFormed :
      (s : TeleopSession) (env : Env) (r : Resolution)
      → WellFormed K s
      → WellFormed K (tick_policy s env r)
  unfolding tick_policy watch
  tick_policy-WellFormed s env (refused r) w = finish-WellFormed s _ failed w
  tick_policy-WellFormed s env (resolved p) w =
      let late = λ (c : Cause). finish-WellFormed s c timeout w in
      if-holds (WellFormed K) (not (same_policy p s.policy_signature)) _ _
        (finish-WellFormed s _ failed w)
        (if-holds (WellFormed K) (not s.acknowledged) _ _
          (maybe-holds (WellFormed K) s _ s.preparing_at w
            (λ t. if-holds (WellFormed K) _ _ s (late _) w))
          (maybe-holds (WellFormed K) s _ s.last_received w
            (λ t. if-holds (WellFormed K) _ s _ w (late _))))

  pub tick-WellFormed :
      (s : TeleopSession) (env : Env) (context : ℕ)
      → WellFormed K s
      → WellFormed K (tick s env context)
  unfolding tick
  tick-WellFormed s env context w = if-holds (WellFormed K) (not (active s)) s _ w (
      if-holds (WellFormed K) (not (same_context context s.context)) _ _
        (finish-WellFormed s _ failed w)
        (maybe-holds (WellFormed K) _ _ env.safety (tick_policy-WellFormed s env (resolve s env) w)
          (λ r. finish-WellFormed s (unsafe r) failed w)))
