-- ===== src/Bridge/Invariant.antt =====
-- The state of `TeleopSession` between calls, ros2_ws/src/patrolbot_web_bridge/patrolbot_web_bridge/
-- teleop.py.
use patrolbot_dashboard.Base.{
  ℕ, ◌≡◌, refl, ap, sym, String, Bool, true, false, false≢true, not, ◌||◌, Option, none, some, List,
  [], ◌∷◌, pos, if-holds, if-split, maybe-holds, is_none, is_some, arith, leb_ℤ, Option-cases, inl,
  inr, ◌∙◌,
}
use patrolbot_dashboard.Base.Float.{Float, sub}
use patrolbot_dashboard.Base.Text.{contains}
use patrolbot_dashboard.Protocol.Commands.{failed, timeout, succeeded}
use patrolbot_dashboard.TuningPolicy.{field}
use patrolbot_dashboard.Bridge.Policy.{RuntimePolicy, over, Resolution, resolved, refused}
use patrolbot_dashboard.Bridge.Session.{
  Cause, policy, unsafe, Contract, Env, TeleopSession, StepResult, done, state_of, publish, say,
  resolve, active, same_context, same_policy, StartRequest, text_value, new_session, ack,
  check_start, start_checked, start, within,
}
use patrolbot_dashboard.Bridge.Frame.{
  Payload, not_dict, dict, Velocity, Parsed, bad, overflow, type_error, good, after_publish, move,
  frame_policy, frame_in_time, frame_parsed, frame, names, has_frame_keys, last_fresh,
}
use patrolbot_dashboard.Bridge.WellFormed.{
  WellFormed, publish-WellFormed, finish-WellFormed, heard-Held, confirm_start-WellFormed,
  check_start-contains, start_checked-WellFormed, tick-WellFormed,
}
use patrolbot_dashboard.Bridge.History.{
  Call, starts, confirms, ticks, frames, ends, Step, run_call, take_step, run,
}

module _ (K : List String → Type 0)
    (grow : (id : String) (seen : List String) → K seen → K (id ∷ seen)) where
  after_publish-WellFormed :
      (x : TeleopSession × Bool) → WellFormed K x.0 → WellFormed K (state_of (after_publish x))
  unfolding after_publish
  after_publish-WellFormed (u, true) w = w
  after_publish-WellFormed (u, false) w = finish-WellFormed K grow u _ failed w

  move-WellFormed :
      (s : TeleopSession) (env : Env) (v : Velocity)
      → active s ≡ true
      → WellFormed K s
      → WellFormed K (state_of (move s env v))
  unfolding move
  move-WellFormed s env v on (h, distinct_ids, few, kept) =
      let heard =
        heard-Held s.command_id s.context s.last_received s.acknowledged s.acknowledged s.seen
          env.now on h in
      maybe-holds (λ (r : StepResult). WellFormed K (state_of r)) _ _ env.safety
        (after_publish-WellFormed
          (publish (record s { last_received = some env.now }) v.linear v.angular true)
          (publish-WellFormed K grow (record s { last_received = some env.now }) v.linear v.angular
            true (heard, distinct_ids, few, kept)))
        (λ r. finish-WellFormed K grow s (unsafe r) failed (h, distinct_ids, few, kept))

  frame_policy-WellFormed :
      (s : TeleopSession) (env : Env) (v : Velocity) (r : Resolution)
      → active s ≡ true
      → WellFormed K s
      → WellFormed K (state_of (frame_policy s env v r))
  unfolding frame_policy
  frame_policy-WellFormed s env v (refused r) on w = finish-WellFormed K grow s (policy r) failed w
  frame_policy-WellFormed s env v (resolved p) on w =
      let G = λ (r : StepResult). WellFormed K (state_of r) in
      if-holds G (not (same_policy p s.policy_signature)) _ _
        (finish-WellFormed K grow s _ failed w)
        (if-holds G (over p v.linear v.angular) _ _ (finish-WellFormed K grow s _ failed w)
          (move-WellFormed s env v on w))

  frame_parsed-WellFormed :
      (s : TeleopSession) (env : Env) (received_at : Float) (r : Parsed)
      → active s ≡ true
      → WellFormed K s
      → WellFormed K (state_of (frame_parsed s env received_at r))
  unfolding frame_parsed frame_in_time
  frame_parsed-WellFormed s env received_at overflow on w = w
  frame_parsed-WellFormed s env received_at type_error on w = w
  frame_parsed-WellFormed s env received_at bad on w = finish-WellFormed K grow s _ failed w
  frame_parsed-WellFormed s env received_at (good v) on w =
      let G = λ (r : StepResult). WellFormed K (state_of r) in
      let counted = record s { sequence = pos v.seq } in
      if-holds G (leb_ℤ (pos v.seq) s.sequence) _ _ w (
        if-holds G (not (within s.contract.timeout_s (sub env.now received_at))) _ _
          (finish-WellFormed K grow s _ timeout w)
          (if-holds G (not (last_fresh s env s.last_received)) _ _
            (finish-WellFormed K grow s _ timeout w)
            (if-holds G (not v.deadman) _ _ (finish-WellFormed K grow counted _ succeeded w)
              (frame_policy-WellFormed counted env v (resolve counted env) on w))))

  owns : (id : Option String) (b : Bool) → (is_none id || b) ≡ false → is_some id ≡ true
  owns none b h = absurd (false≢true (sym h))
  owns (some id) b h = refl

  frame-WellFormed :
      (s : TeleopSession) (env : Env) (data_in : Payload) (context : ℕ) (received_at : Float)
      → WellFormed K s
      → WellFormed K (state_of (frame s env data_in context received_at))
  unfolding frame
  frame-WellFormed s env not_dict context received_at w = finish-WellFormed K grow s _ failed w
  frame-WellFormed s env (dict m) context received_at w =
      let G = λ (r : StepResult). WellFormed K (state_of r) in
      let foreign = is_none s.command_id || not (names (field "command_id" m) s.command_id) in
      if-split G foreign (done s false) _ (λ _. w)
        (λ own. if-holds G (not s.acknowledged) (done s false) _ w (
          if-holds G (not (same_context context s.context)) _ _
            (finish-WellFormed K grow s _ failed w)
            (if-holds G (not (has_frame_keys m)) _ _ (finish-WellFormed K grow s _ failed w)
              (frame_parsed-WellFormed s env received_at _ (owns s.command_id _ own) w))))

  run_call-WellFormed :
      (c : Call) (s : TeleopSession) (env : Env) (context : ℕ)
      → WellFormed K s
      → WellFormed K (run_call c s env context)
  unfolding run_call start
  run_call-WellFormed (starts q) s env context w =
      start_checked-WellFormed K grow s env q context _ (check_start-contains s env q) w
  run_call-WellFormed confirms s env context w = confirm_start-WellFormed K grow s env context w
  run_call-WellFormed ticks s env context w = tick-WellFormed K grow s env context w
  run_call-WellFormed (frames data_in received_at) s env context w =
      frame-WellFormed s env data_in context received_at w
  run_call-WellFormed (ends reason outcome) s env context w =
      finish-WellFormed K grow s reason outcome w

  pub run-WellFormed :
      (steps : List Step) (s : TeleopSession) → WellFormed K s → WellFormed K (run steps s)
  run-WellFormed [] s w = w
  run-WellFormed (x ∷ rest) s w =
      run-WellFormed rest (take_step x s) (run_call-WellFormed x.call s x.env x.context w)

contains_cons :
    (id x : String) (seen : List String) → contains id seen ≡ true → contains id (x ∷ seen) ≡ true
unfolding contains
contains_cons id x seen h = ground arith

-- After any history of a new session it is closed and holds no connection, no time and no
-- acceptance, or it has an owner whose id is on record, a connection and a time it was heard; the
-- ids on record are distinct and at most 4096.
pub run-WellFormed_new :
    (steps : List Step) (contract : Contract) (outcomes : List Bool)
    → WellFormed (λ _. Unit) (run steps (new_session contract outcomes))
unfolding new_session
run-WellFormed_new steps contract outcomes =
    run-WellFormed (λ _. Unit) (λ _ _ _. tt) steps (new_session contract outcomes)
      ((refl, refl, refl), refl, omega arith, tt)

refused_start :
    (s : TeleopSession) (env : Env) (q : StartRequest) (context : ℕ)
    (x : Option RuntimePolicy × Option Cause) (c : Cause)
    → x.1 ≡ some c
    → start_checked s env q context x ≡ done (say s (ack q.command_id false (some c))) false
unfolding start_checked
refused_start s env q context (p, some r) c e = rw e refl
refused_start s env q context (p, none) c e = absurd (false≢true (ap is_some e))

-- An id on record never opens a session again: after any further history a start with it is
-- refused by a message, and the session is otherwise left as it is.
pub run-never_restarts :
    (steps : List Step) (s : TeleopSession) (env : Env) (q : StartRequest) (context : ℕ)
    → WellFormed (λ seen. contains (text_value q.command_id) seen ≡ true) s
    → (c : Cause) × (start (run steps s) env q context
        ≡ done (say (run steps s) (ack q.command_id false (some c))) false)
unfolding start
run-never_restarts steps s env q context w =
    let id = text_value q.command_id in
    let u = run steps s in
    let kept : contains id u.seen ≡ true =
      (run-WellFormed (λ seen. contains id seen ≡ true) (contains_cons id) steps s w).3 in
    elim (Option-cases (check_start u env q).1) [
      | inl e ↦ absurd (false≢true (sym (check_start-contains u env q e) ∙ kept))
      | inr (c, e) ↦ (c, refused_start u env q context (check_start u env q) c e)
    ]
