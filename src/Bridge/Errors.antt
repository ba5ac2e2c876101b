-- ===== src/Bridge/Errors.antt =====
-- The frames that `TeleopSession.frame` raises on, ros2_ws/src/patrolbot_web_bridge/
-- patrolbot_web_bridge/teleop.py.
use patrolbot_dashboard.Base.{
  ℕ, ◌≡◌, ◌≢◌, refl, arith, and_true, if-split, ℤ, pos, String, Bool, true, false, not, ◌&&◌, ◌||◌,
  none, List, if-holds, maybe-holds, is_none, ◌⊎◌, inl, inr, leb_ℤ,
}
use patrolbot_dashboard.Base.Float.{Float, sub, eq}
use patrolbot_dashboard.TuningPolicy.{Value, int, bool, field, finite_number}
use patrolbot_dashboard.Bridge.Policy.{over, Resolution, resolved, refused}
use patrolbot_dashboard.Bridge.Session.{
  Contract, Env, TeleopSession, StepResult, done, raised, zero, resolve, same_context, same_policy,
  within,
}
use patrolbot_dashboard.Bridge.Frame.{
  dict, Fields, Velocity, Parsed, bad, overflow, type_error, good, Finite, is, is_not, overflows,
  no_number, isfinite, check_range, check_finite, parse_types, parse, last_fresh, frame_policy,
  move, after_publish, frame_in_time, frame_parsed, frame, in_range, names, has_frame_keys,
  is_number, fields_of,
}

-- If a call raises it leaves the session as it was, and there is a reason.
abbrev pub RaisesOnly : Type 0 → TeleopSession → StepResult → Type 0
RaisesOnly why s (done _ _) = Unit
RaisesOnly why s (raised u) = (u ≡ s) × why

abbrev pub TooLarge : Fields → Type 0
TooLarge f = (isfinite f.linear ≡ overflows) ⊎ (isfinite f.angular ≡ overflows)

abbrev OverflowsOnly : Type 0 → Parsed → Type 0
OverflowsOnly why overflow = why
OverflowsOnly why type_error = ⊥
OverflowsOnly why _ = Unit

check_finite-OverflowsOnly :
    (why : Type 0) (c : Contract) (v : Velocity) (a b : Finite)
    → ((a ≡ overflows) ⊎ (b ≡ overflows) → why)
    → a ≢ no_number
    → b ≢ no_number
    → OverflowsOnly why (check_finite c v a b)
unfolding check_finite check_range
check_finite-OverflowsOnly why c v is is k p q =
    if-holds (OverflowsOnly why)
      (in_range c.linear_min v.linear c.linear_max
        && in_range c.angular_min v.angular c.angular_max
        && (v.deadman || (eq v.linear zero && eq v.angular zero)))
      (good v) bad tt tt
check_finite-OverflowsOnly why c v is is_not k p q = tt
check_finite-OverflowsOnly why c v is overflows k p q = k (inr refl)
check_finite-OverflowsOnly why c v is no_number k p q = q refl
check_finite-OverflowsOnly why c v is_not _ k p q = tt
check_finite-OverflowsOnly why c v overflows _ k p q = k (inl refl)
check_finite-OverflowsOnly why c v no_number _ k p q = p refl

-- `math.isfinite` has no type to complain of in a number.
isfinite-number : (v : Value) → is_number v ≡ true → isfinite v ≢ no_number
unfolding isfinite
isfinite-number v h = ground arith

parse_types-OverflowsOnly :
    (c : Contract) (seq deadman linear angular : Value)
    → OverflowsOnly
        ((isfinite linear ≡ overflows) ⊎ (isfinite angular ≡ overflows))
        (parse_types c seq deadman linear angular)
unfolding parse_types
parse_types-OverflowsOnly c (int (pos k)) (bool d) linear angular =
    let why = (isfinite linear ≡ overflows) ⊎ (isfinite angular ≡ overflows) in
    if-split (OverflowsOnly why) (is_number linear && is_number angular) _ bad
      (λ numbers.
        let (first, second) = and_true (is_number linear) (is_number angular) numbers in
        check_finite-OverflowsOnly why c _ (isfinite linear) (isfinite angular) (λ h. h)
          (isfinite-number linear first) (isfinite-number angular second))
      (λ _. tt)
parse_types-OverflowsOnly c (int (pos k)) _ linear angular = tt
parse_types-OverflowsOnly c _ _ linear angular = tt

module _ (why : Type 0) (s : TeleopSession) (env : Env) where
  after_publish-RaisesOnly : (x : TeleopSession × Bool) → RaisesOnly why s (after_publish x)
  unfolding after_publish
  after_publish-RaisesOnly (u, true) = tt
  after_publish-RaisesOnly (u, false) = tt

  frame_policy-RaisesOnly :
      (u : TeleopSession) (v : Velocity) (r : Resolution)
      → RaisesOnly why s (frame_policy u env v r)
  unfolding frame_policy move
  frame_policy-RaisesOnly u v (refused r) = tt
  frame_policy-RaisesOnly u v (resolved p) =
      if-holds (RaisesOnly why s) (not (same_policy p u.policy_signature)) _ _ tt (
        if-holds (RaisesOnly why s) (over p v.linear v.angular) _ _ tt
          (maybe-holds (RaisesOnly why s) _ _ env.safety (after_publish-RaisesOnly _) (λ r. tt)))

  frame_parsed-RaisesOnly :
      (received_at : Float) (r : Parsed)
      → OverflowsOnly why r
      → RaisesOnly why s (frame_parsed s env received_at r)
  unfolding frame_parsed frame_in_time
  frame_parsed-RaisesOnly received_at overflow k = (refl, k)
  frame_parsed-RaisesOnly received_at type_error k = absurd k
  frame_parsed-RaisesOnly received_at bad k = tt
  frame_parsed-RaisesOnly received_at (good v) k =
      let G = RaisesOnly why s in
      let counted = record s { sequence = pos v.seq } in
      if-holds G (leb_ℤ (pos v.seq) s.sequence) (done s false) _ tt (
        if-holds G (not (within s.contract.timeout_s (sub env.now received_at))) _ _ tt (
          if-holds G (not (last_fresh s env s.last_received)) _ _ tt (
            if-holds G (not v.deadman) _ _ tt
              (frame_policy-RaisesOnly counted v (resolve counted env)))))

-- A frame whose fields are of any type raises an error for one reason only, that one of its speeds
-- is an integer too large for a float, and then it leaves the session as it was: no field of another
-- type reaches `math.isfinite`, which would raise a TypeError on it.
pub frame-RaisesOnly :
    (s : TeleopSession) (env : Env) (m : List (String × Value)) (context : ℕ) (received_at : Float)
    → RaisesOnly (TooLarge (fields_of m)) s (frame s env (dict m) context received_at)
unfolding frame parse
frame-RaisesOnly s env m context received_at =
    let G = RaisesOnly (TooLarge (fields_of m)) s in
    let foreign = is_none s.command_id || not (names (field "command_id" m) s.command_id) in
    let r =
      parse_types-OverflowsOnly s.contract (field "seq" m) (field "deadman" m) (field "linear" m)
        (field "angular" m) in
    if-holds G foreign (done s false) _ tt (
      if-holds G (not s.acknowledged) (done s false) _ tt (
        if-holds G (not (same_context context s.context)) _ _ tt (
          if-holds G (not (has_frame_keys m)) _ _ tt
            (frame_parsed-RaisesOnly (TooLarge (fields_of m)) s env received_at _ r))))

-- A frame of an accepted session whose speed is an integer that no float holds raises an error: it
-- is not rejected and the session does not end.
pub frame_overflow :
    (s : TeleopSession) (env : Env) (m : List (String × Value)) (context k : ℕ)
    (received_at : Float) (n : ℤ) (d : Bool)
    → (is_none s.command_id || not (names (field "command_id" m) s.command_id)) ≡ false
    → s.acknowledged ≡ true
    → same_context context s.context ≡ true
    → has_frame_keys m ≡ true
    → field "seq" m ≡ int (pos k)
    → field "deadman" m ≡ bool d
    → field "linear" m ≡ int n
    → is_number (field "angular" m) ≡ true
    → finite_number (int n) ≡ none
    → frame s env (dict m) context received_at ≡ raised s
unfolding frame parse parse_types isfinite check_finite frame_parsed
frame_overflow s env m context k received_at n d own a c keys seq dm lin ang big =
    rw own (rw a (rw c (rw keys (rw seq (rw dm (rw lin (rw ang (rw big refl))))))))
