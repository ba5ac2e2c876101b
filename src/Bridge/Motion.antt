-- ===== src/Bridge/Motion.antt =====
-- When the bridge moves the robot on a browser's behalf,
-- ros2_ws/src/patrolbot_web_bridge/patrolbot_web_bridge/teleop.py.
use patrolbot_dashboard.Base.{
  ℕ, ◌≡◌, refl, sym, pos, leb_ℤ, Bool, true, false, false≢true, not, ◌&&◌, ◌||◌, none, some,
  if-holds, not-false, if-split, maybe-split, is_none, arith,
}
use patrolbot_dashboard.Base.Float.{Float, sub, eq}
use patrolbot_dashboard.Protocol.Commands.{CommandOutcome, succeeded, failed, timeout}
use patrolbot_dashboard.TuningPolicy.{field, Value, bool, int}
use patrolbot_dashboard.Bridge.Policy.{RuntimePolicy, over, Resolution, resolved, refused}
use patrolbot_dashboard.Bridge.Session.{
  Cause, malformed, connection_changed, out_of_range, too_late, timed_out, released, policy,
  policy_changed, over_policy, unsafe, publication_failed, Message, published, ack, ready, result,
  Contract, Env, TeleopSession, done, publish, zero, resolve, failed_step, same_context,
  same_policy, within,
}
use patrolbot_dashboard.Bridge.Frame.{
  Payload, not_dict, dict, Velocity, Parsed, bad, overflow, type_error, good, in_range, Finite, is,
  is_not, overflows, no_number, isfinite, check_range, check_finite, parse_types, parse, last_fresh,
  after_publish, move, frame_policy, frame_in_time, frame_parsed, frame, names, has_frame_keys,
  is_number,
}
use patrolbot_dashboard.Bridge.Messages.{
  is_published, Puts, Gives, Gives-trans, Gives-done, Gives-raised, Puts-trans, same, finish-Puts,
  fails, publish-Puts,
}

pub record InRange (c : Contract) (linear angular : Float) : Type 0 where
  pub linear_ok : in_range c.linear_min linear c.linear_max ≡ true
  pub angular_ok : in_range c.angular_min angular c.angular_max ≡ true

-- What holds of a session that moves the robot.
pub record Cleared (s : TeleopSession) (env : Env) (context : ℕ) (linear angular : Float)
    : Type 0 where
  pub acknowledged : s.acknowledged ≡ true
  pub connection : same_context context s.context ≡ true
  pub heard : last_fresh s env s.last_received ≡ true
  pub no_hazard : env.safety ≡ none
  pub ranges : InRange s.contract linear angular
  pub limits : RuntimePolicy
  pub resolved_now : resolve s env ≡ resolved limits
  pub unchanged : same_policy limits s.policy_signature ≡ true
  pub within_limits : over limits linear angular ≡ false

-- A published velocity is zero, or a motion that the session may make.
abbrev pub MayPublish : TeleopSession → Env → ℕ → Message → Type 0
MayPublish s env context (published linear angular true) = Cleared s env context linear angular
MayPublish s env context (published linear angular false) = (linear ≡ zero) × (angular ≡ zero)
MayPublish s env context _ = Unit

pub MayPublish-said :
    (s : TeleopSession) (env : Env) (context : ℕ) (m : Message)
    → is_published m ≡ false
    → MayPublish s env context m
MayPublish-said s env context (published _ _ _) h = absurd (false≢true (sym h))
MayPublish-said s env context (ack _ _ _) h = tt
MayPublish-said s env context (ready _) h = tt
MayPublish-said s env context (result _ _ _ _) h = tt

-- What a parsed frame promises.
abbrev Ranged : Contract → Parsed → Type 0
Ranged c (good v) = InRange c v.linear v.angular
Ranged c _ = Unit

check_range-Ranged : (c : Contract) (v : Velocity) → Ranged c (check_range c v)
unfolding check_range
check_range-Ranged c v =
    if-split (Ranged c)
      (in_range c.linear_min v.linear c.linear_max
        && in_range c.angular_min v.angular c.angular_max
        && (v.deadman || (eq v.linear zero && eq v.angular zero)))
      (good v) bad (λ h. record { linear_ok = ground arith; angular_ok = ground arith }) (λ h. tt)

check_finite-Ranged : (c : Contract) (v : Velocity) (a b : Finite) → Ranged c (check_finite c v a b)
unfolding check_finite
check_finite-Ranged c v is is = check_range-Ranged c v
check_finite-Ranged c v is is_not = tt
check_finite-Ranged c v is overflows = tt
check_finite-Ranged c v is no_number = tt
check_finite-Ranged c v is_not _ = tt
check_finite-Ranged c v overflows _ = tt
check_finite-Ranged c v no_number _ = tt

parse_types-Ranged :
    (c : Contract) (seq deadman linear angular : Value)
    → Ranged c (parse_types c seq deadman linear angular)
unfolding parse_types
parse_types-Ranged c (int (pos k)) (bool d) linear angular =
    if-holds (Ranged c) (is_number linear && is_number angular) _ bad
      (check_finite-Ranged c _ (isfinite linear) (isfinite angular)) tt
parse_types-Ranged c (int (pos k)) _ linear angular = tt
parse_types-Ranged c _ _ linear angular = tt

-- Each lemma follows the frame from the state `s` that it met to a state `u` on the way.
module _ (s : TeleopSession) (env : Env) (context : ℕ) where
  ends :
      (u : TeleopSession) (r : Cause) (o : CommandOutcome)
      → Puts (MayPublish s env context) s u
      → Gives (MayPublish s env context) s (failed_step u r o)
  ends u r o a =
      Gives-trans (MayPublish s env context) s u _ a
        (fails (MayPublish s env context) (refl, refl) (MayPublish-said s env context) u r o)

  after_publish-Gives :
      (x : TeleopSession × Bool)
      → Puts (MayPublish s env context) s x.0
      → Gives (MayPublish s env context) s (after_publish x)
  unfolding after_publish
  after_publish-Gives (u, true) a = Gives-done (MayPublish s env context) s u true a
  after_publish-Gives (u, false) a = ends u publication_failed failed a

  move-Gives :
      (u : TeleopSession) (v : Velocity)
      → Puts (MayPublish s env context) s u
      → (env.safety ≡ none → Cleared s env context v.linear v.angular)
      → Gives (MayPublish s env context) s (move u env v)
  unfolding move
  move-Gives u v a k =
      let P = MayPublish s env context in
      let heard = record u { last_received = some env.now } in
      let b : Puts P s heard = Puts-trans P s u heard a (same P u heard refl) in
      maybe-split (Gives P s) _ (λ r. failed_step u (unsafe r) failed) env.safety
        (λ e.
          after_publish-Gives (publish heard v.linear v.angular true)
            (Puts-trans P s heard _ b (publish-Puts P heard v.linear v.angular true (k e))))
        (λ r e. ends u (unsafe r) failed a)

  frame_policy-Gives :
      (u : TeleopSession) (v : Velocity) (r : Resolution)
      → Puts (MayPublish s env context) s u
      → u.policy_signature ≡ s.policy_signature
      → ((p : RuntimePolicy)
          → r ≡ resolved p
          → same_policy p s.policy_signature ≡ true
          → over p v.linear v.angular ≡ false
          → env.safety ≡ none
          → Cleared s env context v.linear v.angular)
      → Gives (MayPublish s env context) s (frame_policy u env v r)
  unfolding frame_policy
  frame_policy-Gives u v (refused r) a e k = ends u (policy r) failed a
  frame_policy-Gives u v (resolved p) a e k =
      let P = MayPublish s env context in
      if-split (Gives P s) (not (same_policy p u.policy_signature)) _ _
        (λ _. ends u policy_changed failed a)
        (λ kept.
          if-split (Gives P s) (over p v.linear v.angular) _ _ (λ _. ends u over_policy failed a)
            (λ within_limits. move-Gives u v a (
              k p refl (rw (← e) (not-false (same_policy p u.policy_signature) kept))
                within_limits)))

  frame_in_time-Gives :
      (v : Velocity)
      → ((p : RuntimePolicy)
          → resolve s env ≡ resolved p
          → same_policy p s.policy_signature ≡ true
          → over p v.linear v.angular ≡ false
          → env.safety ≡ none
          → Cleared s env context v.linear v.angular)
      → Gives (MayPublish s env context) s (frame_in_time s env v)
  unfolding frame_in_time resolve
  frame_in_time-Gives v k =
      let P = MayPublish s env context in
      let counted = record s { sequence = pos v.seq } in
      let a : Puts P s counted = same P s counted refl in
      if-holds (Gives P s) (not v.deadman) _ _
        (Gives-done P s _ true (
          Puts-trans P s counted _ a (
            finish-Puts P (refl, refl) (MayPublish-said s env context) counted released succeeded)))
        (frame_policy-Gives counted v (resolve counted env) a refl k)

  frame_parsed-Gives :
      (received_at : Float) (r : Parsed)
      → Ranged s.contract r
      → s.acknowledged ≡ true
      → same_context context s.context ≡ true
      → Gives (MayPublish s env context) s (frame_parsed s env received_at r)
  unfolding frame_parsed
  frame_parsed-Gives received_at overflow g k c = Gives-raised (MayPublish s env context) s
  frame_parsed-Gives received_at type_error g k c = Gives-raised (MayPublish s env context) s
  frame_parsed-Gives received_at bad g k c =
      ends s out_of_range failed (same (MayPublish s env context) s s refl)
  frame_parsed-Gives received_at (good v) g k c =
      let P = MayPublish s env context in
      let a : Puts P s s = same P s s refl in
      let G = Gives P s in
      if-split G (leb_ℤ (pos v.seq) s.sequence) (done s false) _ (λ _. Gives-done P s s false a)
        (λ _.
          if-split G (not (within s.contract.timeout_s (sub env.now received_at))) _ _
            (λ _. ends s too_late timeout a)
            (λ _.
              if-split G (not (last_fresh s env s.last_received)) _ _
                (λ _. ends s timed_out timeout a)
                (λ heard. frame_in_time-Gives v (λ p resolved_now unchanged within_limits no_hazard.
                  record {
                    acknowledged = k;
                    connection = c;
                    heard = not-false _ heard;
                    no_hazard = no_hazard;
                    ranges = g;
                    limits = p;
                    resolved_now = resolved_now;
                    unchanged = unchanged;
                    within_limits = within_limits;
                  }))))

-- Whatever a frame holds and whenever it comes, each velocity that it publishes is zero or a motion
-- of an accepted session on its own connection, heard of within the timeout, with no hazard, in
-- the commissioned ranges and within the speed policy that holds now and held at the start.
pub frame-MayPublish :
    (s : TeleopSession) (env : Env) (data_in : Payload) (context : ℕ) (received_at : Float)
    → Gives (MayPublish s env context) s (frame s env data_in context received_at)
unfolding frame parse
frame-MayPublish s env not_dict context received_at =
    ends s env context s malformed failed (same (MayPublish s env context) s s refl)
frame-MayPublish s env (dict m) context received_at =
    let P = MayPublish s env context in
    let a : Puts P s s = same P s s refl in
    if-split (Gives P s) (is_none s.command_id || not (names (field "command_id" m) s.command_id))
      (done s false) _ (λ _. Gives-done P s s false a)
      (λ _.
        if-split (Gives P s) (not s.acknowledged) _ _ (λ _. Gives-done P s s false a)
          (λ k.
            if-split (Gives P s) (not (same_context context s.context)) _ _
              (λ _. ends s env context s connection_changed failed a)
              (λ c.
                if-split (Gives P s) (not (has_frame_keys m)) _ _
                  (λ _. ends s env context s malformed failed a)
                  (λ _.
                    frame_parsed-Gives s env context received_at _
                      (parse_types-Ranged s.contract (field "seq" m) (field "deadman" m)
                        (field "linear" m) (field "angular" m))
                      (not-false s.acknowledged k)
                      (not-false (same_context context s.context) c)))))
