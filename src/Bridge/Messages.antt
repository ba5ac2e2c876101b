-- ===== src/Bridge/Messages.antt =====
-- What the calls of `TeleopSession`, ros2_ws/src/patrolbot_web_bridge/patrolbot_web_bridge/teleop.py,
-- put out.
use patrolbot_dashboard.Base.{
  if-holds, maybe-holds, ℕ, ◌≡◌, refl, Bool, true, false, Option, none, some, [], ◌∷◌, String,
}
use patrolbot_dashboard.Base.Float.{Float}
use patrolbot_dashboard.Base.Grown.{Grown, Grown-trans}
use patrolbot_dashboard.Protocol.Commands.{CommandOutcome, failed, timeout}
use patrolbot_dashboard.TuningPolicy.{str}
use patrolbot_dashboard.Bridge.Policy.{RuntimePolicy, Resolution, resolved, refused}
use patrolbot_dashboard.Bridge.Session.{
  next_outcome, watch, not_clear, timed_out, connection_changed, text_value, Cause, unsafe, policy,
  policy_changed, zero_failed, changed_before_acceptance, Message, published, ack, ready, Env,
  TeleopSession, StepResult, done, raised, state_of, say, publish, zero, resolve, closed, report,
  finish, failed_step, accept, confirm_policy, confirm_start, StartRequest, after_zero, begin,
  start_checked, start, watch, not_clear, timed_out, connection_changed, tick_policy, tick, begun,
}

abbrev pub is_published : Message → Bool
is_published (published _ _ _) = true
is_published _ = false

pub record Puts (P : Message → Type 0) (s s' : TeleopSession) : Type 0 where
  pub grown : Grown P s.sent s'.sent

pub record Gives (P : Message → Type 0) (s : TeleopSession) (r : StepResult) : Type 0 where
  pub grown : Grown P s.sent (state_of r).sent

module _ (P : Message → Type 0) where
  pub same : (s s' : TeleopSession) → s'.sent ≡ s.sent → Puts P s s'
  same s s' e = record { grown = ([], tt, e) }

  one : (s s' : TeleopSession) (m : Message) → P m → s'.sent ≡ m ∷ s.sent → Puts P s s'
  one s s' m p e = record { grown = (m ∷ [], (p, tt), e) }

  pub Puts-trans : (s t u : TeleopSession) → Puts P s t → Puts P t u → Puts P s u
  Puts-trans s t u a b = record { grown = Grown-trans P s.sent t.sent u.sent a.grown b.grown }

  pub Gives-trans : (s t : TeleopSession) (r : StepResult) → Puts P s t → Gives P t r → Gives P s r
  Gives-trans s t r a b = record {
    grown = Grown-trans P s.sent t.sent (state_of r).sent a.grown b.grown;
  }

  pub Gives-done : (s t : TeleopSession) (b : Bool) → Puts P s t → Gives P s (done t b)
  Gives-done s t b a = record { grown = a.grown }

  pub Gives-raised : (s : TeleopSession) → Gives P s (raised s)
  Gives-raised s = record { grown = ([], tt, refl) }

  pub Gives-state : (s : TeleopSession) (r : StepResult) → Gives P s r → Puts P s (state_of r)
  Gives-state s r a = record { grown = a.grown }

  pub say-Puts : (s : TeleopSession) (m : Message) → P m → Puts P s (say s m)
  unfolding say
  say-Puts s m p = one s _ m p refl

  pub publish-Puts :
      (s : TeleopSession) (linear angular : Float) (moving : Bool)
      → P (published linear angular moving)
      → Puts P s (publish s linear angular moving).0
  unfolding publish
  publish-Puts s linear angular moving p =
      let went = (next_outcome s.outcomes).0 in
      let v = record s { outcomes = (next_outcome s.outcomes).1 } in
      let m = published linear angular moving in
      let a : Puts P s v = same s v refl in
      if-holds (Puts P s) went (say v m) v (Puts-trans s v (say v m) a (say-Puts v m p)) a

-- Every call but a moving frame puts out zeros and messages only.
module _ (P : Message → Type 0) (still : P (published zero zero false))
    (said : (m : Message) → is_published m ≡ false → P m) where
  report-Puts :
      (s : TeleopSession) (id : Option String) (acked : Bool) (r : Cause) (o : CommandOutcome)
      (went : Bool)
      → Puts P s (report s id acked r o went)
  unfolding report
  report-Puts s none acked r o went = same P s s refl
  report-Puts s (some id) acked r o went =
      if-holds (Puts P s) acked _ _ (say-Puts P s _ (said _ refl)) (say-Puts P s _ (said _ refl))

  pub finish-Puts : (s : TeleopSession) (r : Cause) (o : CommandOutcome) → Puts P s (finish s r o)
  unfolding finish
  finish-Puts s r o =
      let x = publish (closed s) zero zero false in
      let a : Puts P s (closed s) = unfold closed in same P s (closed s) refl in
      Puts-trans P s x.0 _
        (Puts-trans P s (closed s) x.0 a (publish-Puts P _ zero zero false still))
        (report-Puts x.0 s.command_id s.acknowledged r o x.1)

  pub fails : (s : TeleopSession) (r : Cause) (o : CommandOutcome) → Gives P s (failed_step s r o)
  fails s r o = Gives-done P s _ false (finish-Puts s r o)

  accept-Puts : (s : TeleopSession) (env : Env) → Puts P s (accept s env)
  unfolding accept
  accept-Puts s env =
      let v = record s { acknowledged = true; last_received = some env.now } in
      let a : Puts P s v = same P s v refl in
      maybe-holds (Puts P s) v (λ id. say (say v (ack (str id) true none)) (ready id)) s.command_id
        a
        (λ id.
          let acked = say v (ack (str id) true none) in
          Puts-trans P s v _ a (
            Puts-trans P v acked _ (say-Puts P v _ (said _ refl))
              (say-Puts P acked _ (said _ refl))))

  confirm_policy-Gives :
      (s : TeleopSession) (env : Env) (r : Resolution) → Gives P s (confirm_policy s env r)
  unfolding confirm_policy
  confirm_policy-Gives s env (refused r) = fails s (policy r) failed
  confirm_policy-Gives s env (resolved p) =
      if-holds (Gives P s) _ _ _ (Gives-done P s _ true (accept-Puts s env))
        (fails s policy_changed failed)

  pub confirm_start-Gives :
      (s : TeleopSession) (env : Env) (context : ℕ) → Gives P s (confirm_start s env context)
  unfolding confirm_start
  confirm_start-Gives s env context =
      if-holds (Gives P s) _ _ _ (Gives-done P s s false (same P s s refl)) (
        maybe-holds (Gives P s) _ _ env.safety
          (if-holds (Gives P s) _ _ _ (fails s changed_before_acceptance failed)
            (confirm_policy-Gives s env (resolve s env)))
          (λ r. fails s (unsafe r) failed))

  after_zero-Gives :
      (s : TeleopSession) (env : Env) (context : ℕ) (defer_ack : Bool) (x : TeleopSession × Bool)
      → Puts P s x.0
      → Gives P s (after_zero env context defer_ack x)
  unfolding after_zero
  after_zero-Gives s env context defer_ack (v, false) g =
      Gives-trans P s v _ g (fails v zero_failed failed)
  after_zero-Gives s env context defer_ack (v, true) g =
      if-holds (Gives P s) defer_ack _ _ (Gives-done P s v true g) (
        Gives-done P s _ true
          (Puts-trans P s v _ g (Gives-state P v _ (confirm_start-Gives v env context))))

  begin-Gives :
      (s : TeleopSession) (env : Env) (q : StartRequest) (context : ℕ)
      → Gives P s (begin s env q context)
  unfolding begin
  begin-Gives s env q context =
      let id = text_value q.command_id in
      let b = begun s env id context in
      if-holds (Gives P s) _ _ _ (Gives-done P s _ false (say-Puts P s _ (said _ refl))) (
        after_zero-Gives s env context q.defer_ack _
          (Puts-trans P s b _ (same P s b refl) (publish-Puts P b zero zero false still)))

  start_checked-Gives :
      (s : TeleopSession) (env : Env) (q : StartRequest) (context : ℕ)
      (x : Option RuntimePolicy × Option Cause)
      → Gives P s (start_checked s env q context x)
  unfolding start_checked
  start_checked-Gives s env q context (_, some r) =
      Gives-done P s _ false (say-Puts P s _ (said _ refl))
  start_checked-Gives s env q context (p, none) =
      let kept = record s { policy_signature = p } in
      Gives-trans P s kept _ (same P s kept refl) (begin-Gives kept env q context)

  pub start-Gives :
      (s : TeleopSession) (env : Env) (q : StartRequest) (context : ℕ)
      → Gives P s (start s env q context)
  unfolding start
  start-Gives s env q context = start_checked-Gives s env q context _

  watch-Puts : (s : TeleopSession) (env : Env) → Puts P s (watch s env)
  unfolding watch
  watch-Puts s env =
      if-holds (Puts P s) _ _ _
        (maybe-holds (Puts P s) s _ s.preparing_at (same P s s refl)
          (λ t. if-holds (Puts P s) _ _ s (finish-Puts s not_clear timeout) (same P s s refl)))
        (maybe-holds (Puts P s) s _ s.last_received (same P s s refl)
          (λ t. if-holds (Puts P s) _ s _ (same P s s refl) (finish-Puts s timed_out timeout)))

  tick_policy-Puts :
      (s : TeleopSession) (env : Env) (r : Resolution) → Puts P s (tick_policy s env r)
  unfolding tick_policy
  tick_policy-Puts s env (refused r) = finish-Puts s (policy r) failed
  tick_policy-Puts s env (resolved p) =
      if-holds (Puts P s) _ _ _ (finish-Puts s policy_changed failed) (watch-Puts s env)

  pub tick-Puts : (s : TeleopSession) (env : Env) (context : ℕ) → Puts P s (tick s env context)
  unfolding tick
  tick-Puts s env context = if-holds (Puts P s) _ s _ (same P s s refl) (
      if-holds (Puts P s) _ _ _ (finish-Puts s connection_changed failed) (
        maybe-holds (Puts P s) _ _ env.safety (tick_policy-Puts s env (resolve s env))
          (λ r. finish-Puts s (unsafe r) failed)))
