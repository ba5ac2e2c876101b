-- ===== src/Bridge/Watchdog.antt =====
-- How `TeleopSession` stops the robot, ros2_ws/src/patrolbot_web_bridge/patrolbot_web_bridge/
-- teleop.py: `end`, the watchdog of `tick`, the release of a frame, and the input that it raises on.
use patrolbot_dashboard.Base.{
  ℕ, ◌≡◌, refl, ap, sym, pos, String, Bool, true, false, false≢true, not, ◌&&◌, ◌||◌, Option, none,
  some, List, [], ◌∷◌, ◌++◌, if-holds, if-split, maybe-holds, maybe-split, or_default, ◌∙◌, is_some,
  arith,
}
use patrolbot_dashboard.Base.Float.{Float, sub, le, lt, eq}
use patrolbot_dashboard.Protocol.Commands.{CommandOutcome, failed, timeout}
use patrolbot_dashboard.TuningPolicy.{Value, int, bool, field}
use patrolbot_dashboard.Bridge.Policy.{Resolution, resolved, refused, Answer}
use patrolbot_dashboard.Bridge.Session.{
  Cause, Message, published, Contract, Env, TeleopSession, publish, say, zero, resolve, active,
  closed, report, finish, same_context, same_policy, watch, tick_policy, tick, next_outcome,
  timed_out,
}
use patrolbot_dashboard.Bridge.Frame.{
  dict, Velocity, Parsed, bad, overflow, type_error, good, Finite, is, is_not, overflows, no_number,
  isfinite, check_range, check_finite, parse_types, parse, frame_in_time, frame_parsed, frame,
  in_range, is_number, fields_of,
}

-- The session is closed, and if the first publication goes through it is a zero.
pub record Stopped (s s' : TeleopSession) : Type 0 where
  pub idle : s'.command_id ≡ none
  pub unacknowledged : s'.acknowledged ≡ false
  pub zeroed :
      (next_outcome s.outcomes).0 ≡ true
      → (after : List Message) × (s'.sent ≡ after ++ (published zero zero false ∷ s.sent))

said_after :
    (s u : TeleopSession) (m : Message)
    → u.command_id ≡ none
    → u.acknowledged ≡ false
    → ((next_outcome s.outcomes).0 ≡ true → u.sent ≡ published zero zero false ∷ s.sent)
    → Stopped s (say u m)
unfolding say
said_after s u m a b c = record {
  idle = a;
  unacknowledged = b;
  zeroed = λ h. (m ∷ [], ap (λ t. m ∷ t) (c h));
}

report-Stopped :
    (s u : TeleopSession) (id : Option String) (acked : Bool) (r : Cause) (o : CommandOutcome)
    (went : Bool)
    → u.command_id ≡ none
    → u.acknowledged ≡ false
    → ((next_outcome s.outcomes).0 ≡ true → u.sent ≡ published zero zero false ∷ s.sent)
    → Stopped s (report u id acked r o went)
unfolding report say
report-Stopped s u none acked r o went a b c = record {
  idle = a;
  unacknowledged = b;
  zeroed = λ h. ([], c h);
}
report-Stopped s u (some id) acked r o went a b c =
    if-holds (Stopped s) acked _ _ (said_after s u _ a b c) (said_after s u _ a b c)

pub finish-Stopped : (s : TeleopSession) (r : Cause) (o : CommandOutcome) → Stopped s (finish s r o)
unfolding finish closed publish say
finish-Stopped s r o =
    let went = (next_outcome s.outcomes).0 in
    let u = (publish (closed s) zero zero false).0 in
    report-Stopped s u s.command_id s.acknowledged r o went
      (if-holds (λ (v : TeleopSession). v.command_id ≡ none) went _ _ refl refl)
      (if-holds (λ (v : TeleopSession). v.acknowledged ≡ false) went _ _ refl refl) (λ h. rw h refl)

abbrev heard_in_time : TeleopSession → Env → Float → Bool
heard_in_time s env t =
    let elapsed = sub env.now t in le zero elapsed && lt elapsed s.contract.timeout_s

watch-Stopped :
    (s : TeleopSession) (env : Env) (t : Float)
    → s.acknowledged ≡ true
    → s.last_received ≡ some t
    → heard_in_time s env t ≡ false
    → Stopped s (watch s env)
unfolding watch
watch-Stopped s env t a e late =
    if-split (Stopped s) (not s.acknowledged) _ _ (λ h. absurd (false≢true (ground arith)))
      (λ _.
        maybe-split (Stopped s) s _ s.last_received
          (λ h. absurd (false≢true (ap is_some (sym h ∙ e))))
          (λ t' e'.
            if-split (Stopped s) (heard_in_time s env t') s _
              (λ h.
                let same_time : t ≡ t' = ap (or_default t) (sym e ∙ e') in
                absurd (false≢true (sym late ∙ ap (heard_in_time s env) same_time ∙ h)))
              (λ _. finish-Stopped s timed_out timeout)))

tick_policy-Stopped :
    (s : TeleopSession) (env : Env) (r : Resolution)
    → Stopped s (watch s env)
    → Stopped s (tick_policy s env r)
unfolding tick_policy
tick_policy-Stopped s env (refused r) w = finish-Stopped s _ failed
tick_policy-Stopped s env (resolved p) w =
    if-holds (Stopped s) (not (same_policy p s.policy_signature)) _ _ (finish-Stopped s _ failed) w

-- A tick that finds an accepted session unheard of for the watchdog's time, or heard of in the
-- future, stops it, whatever the policy, the hazards and the connection.
pub tick-Stopped :
    (s : TeleopSession) (env : Env) (context : ℕ) (t : Float)
    → active s ≡ true
    → s.acknowledged ≡ true
    → s.last_received ≡ some t
    → heard_in_time s env t ≡ false
    → Stopped s (tick s env context)
unfolding tick
tick-Stopped s env context t on a e late =
    if-split (Stopped s) (not (active s)) s _ (λ h. absurd (false≢true (ground arith)))
      (λ _.
        if-holds (Stopped s) (not (same_context context s.context)) _ _ (finish-Stopped s _ failed)
          (maybe-holds (Stopped s) _ _ env.safety
            (tick_policy-Stopped s env (resolve s env) (watch-Stopped s env t a e late))
            (λ r. finish-Stopped s _ failed)))

-- A parsed frame that is no motion.
abbrev Release : Parsed → Type 0
Release (good v) = v.deadman ≡ false
Release _ = Unit

check_range-Release : (c : Contract) (v : Velocity) → v.deadman ≡ false → Release (check_range c v)
unfolding check_range
check_range-Release c v d =
    if-holds Release
      (in_range c.linear_min v.linear c.linear_max
        && in_range c.angular_min v.angular c.angular_max
        && (v.deadman || (eq v.linear zero && eq v.angular zero)))
      (good v) bad d tt

check_finite-Release :
    (c : Contract) (v : Velocity) (a b : Finite)
    → v.deadman ≡ false
    → Release (check_finite c v a b)
unfolding check_finite
check_finite-Release c v is is d = check_range-Release c v d
check_finite-Release c v is is_not d = tt
check_finite-Release c v is overflows d = tt
check_finite-Release c v is no_number d = tt
check_finite-Release c v is_not _ d = tt
check_finite-Release c v overflows _ d = tt
check_finite-Release c v no_number _ d = tt

parse_types-Release :
    (c : Contract) (seq linear angular : Value)
    → Release (parse_types c seq (bool false) linear angular)
unfolding parse_types
parse_types-Release c (int (pos k)) linear angular =
    if-holds Release (is_number linear && is_number angular) _ bad
      (check_finite-Release c _ (isfinite linear) (isfinite angular) refl) tt
parse_types-Release c _ linear angular = tt

-- The same moment with other hazards and another policy.
abbrev pub elsewhere : Env → Option ℕ → Answer → Bool → Env
elsewhere env safety answer required = record env {
  safety = safety;
  answer = answer;
  policy_required = required;
}

module _ (s : TeleopSession) (env : Env) (safety : Option ℕ) (answer : Answer)
    (required : Bool) where
  Release-frame_parsed :
      (received_at : Float) (r : Parsed)
      → Release r
      → frame_parsed s (elsewhere env safety answer required) received_at r
        ≡ frame_parsed s env received_at r
  unfolding frame_parsed frame_in_time
  Release-frame_parsed received_at overflow d = refl
  Release-frame_parsed received_at type_error d = refl
  Release-frame_parsed received_at bad d = refl
  Release-frame_parsed received_at (good v) d = rw d refl

  -- The release of the deadman is answered the same way whatever the speed policy and the hazards
  -- are: no policy that is missing, stale or changed holds a stop back.
  pub frame_release :
      (m : List (String × Value)) (context : ℕ) (received_at : Float)
      → field "deadman" m ≡ bool false
      → frame s (elsewhere env safety answer required) (dict m) context received_at
        ≡ frame s env (dict m) context received_at
  unfolding frame parse
  frame_release m context received_at d =
      let r = parse s.contract (fields_of m) in
      let k : Release r =
        rw d
          (parse_types-Release s.contract (field "seq" m) (field "linear" m) (field "angular" m)) in
      rw (Release-frame_parsed received_at r k) refl
