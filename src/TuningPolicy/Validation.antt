-- ===== src/TuningPolicy/Validation.antt =====
-- The validation of a dynamic policy, stage by stage.
use patrolbot_dashboard.Base.{
  ℕ, ℤ, pos, negsuc, ◌≡◌, refl, inl, inr, true, false, not, false≢true, ◌||◌, Option, none, some,
  arith, Bool-cases, any,
}
use patrolbot_dashboard.Base.Float.{
  Float, fin, nano, nan, pos_inf, neg_inf, lt, add, sub, is_finite, Between,
}
use patrolbot_dashboard.Base.Text.{contains}
use patrolbot_dashboard.TuningPolicy.{
  dynamic, Value, int, float, TeleopPolicy, finite_number, valid_generation, Outcome, resolved,
  refused, Fields, validate_policy_fields, bind_policy, check_receipt, check_angular, check_linear,
  binding, from_policy, from_attributes, keys, required_fields, bound_to, same_session, Raw, policy,
  mapping, object, parse_policy,
}

-- What a dynamic policy has passed: its caps are real numbers in the commissioned envelope, its
-- receipt lies between 5 s ago and half a second ahead, and it names a session.
pub record InEnvelope (now : Float) (p : TeleopPolicy) : Type 0 where
  pub is_dynamic : p.mode ≡ dynamic
  pub linear : Between 0 p.max_linear_m_s 300_000_000
  pub angular : Between 0 p.max_angular_rad_s 700_000_000
  pub receipt : Float
  pub received : p.received_mono ≡ some receipt
  pub not_old : lt (nano 5_000_000_000) (sub now receipt) ≡ false
  pub not_ahead : lt (add now (nano 500_000_000)) receipt ≡ false

abbrev pub Passes : Float → Outcome → Type 0
Passes now (resolved p) = InEnvelope now p
Passes now (refused r) = Unit {0}

finite_number-finite : (v : Value) (x : Float) → finite_number v ≡ some x → is_finite x ≡ true
unfolding finite_number is_finite
finite_number-finite (int (pos n)) x e = ground arith
finite_number-finite (int (negsuc n)) x e = ground arith
finite_number-finite (float y) x e = ground arith
finite_number-finite _ x e = ground arith

cap-Between :
    (x : Float) (hi : ℕ)
    → is_finite x ≡ true
    → (lt x (nano 0) || lt (nano hi) x) ≡ false
    → Between 0 x hi
unfolding is_finite lt
cap-Between (fin (pos n)) hi f h = ground arith
cap-Between (fin (negsuc n)) hi f h = ground arith
cap-Between nan hi f h = absurd (false≢true f)
cap-Between pos_inf hi f h = absurd (false≢true f)
cap-Between neg_inf hi f h = absurd (false≢true f)

-- The three stages of the validation, from the last to the first.
bind-Passes :
    (now linear angular : Float) (generation : Value) (receipt : Float) (robot : Option ℤ)
    → Between 0 linear 300_000_000
    → Between 0 angular 700_000_000
    → lt (nano 5_000_000_000) (sub now receipt) ≡ false
    → lt (add now (nano 500_000_000)) receipt ≡ false
    → Passes now (bind_policy linear angular generation receipt robot)
unfolding bind_policy
bind-Passes now linear angular g receipt none l a old ahead = tt
bind-Passes now linear angular g receipt (some n) l a old ahead = record {
  is_dynamic = refl;
  linear = l;
  angular = a;
  receipt = receipt;
  received = refl;
  not_old = old;
  not_ahead = ahead;
}

receipt-Passes :
    (now linear angular : Float) (generation : Value) (receipt : Option Float) (robot : Value)
    → Between 0 linear 300_000_000
    → Between 0 angular 700_000_000
    → Passes now (check_receipt linear angular generation receipt robot now)
unfolding check_receipt
receipt-Passes now linear angular g none robot l a = tt
receipt-Passes now linear angular g (some receipt) robot l a =
    elim (Bool-cases (lt (add now (nano 500_000_000)) receipt)) [
      | inl ahead ↦ rw ahead tt
      | inr on_time ↦ elim (Bool-cases (lt (nano 5_000_000_000) (sub now receipt))) [
        | inl old ↦ rw (on_time, old) tt
        | inr recent ↦
            rw (on_time, recent)
              (bind-Passes now linear angular g receipt (binding robot) l a recent on_time)
      ]
    ]

angular-Passes :
    (now linear : Float) (angular : Option Float) (generation receipt robot : Value)
    → ((x : Float) → angular ≡ some x → is_finite x ≡ true)
    → Between 0 linear 300_000_000
    → Passes now (check_angular linear angular generation receipt robot now)
unfolding check_angular
angular-Passes now linear none g receipt robot f l = tt
angular-Passes now linear (some x) g receipt robot f l =
    elim (Bool-cases (lt x (nano 0) || lt (nano 700_000_000) x)) [
      | inl outside ↦ rw outside tt
      | inr inside ↦ elim (Bool-cases (valid_generation g)) [
        | inr bad ↦ rw (inside, bad) tt
        | inl good ↦
            rw (inside, good)
              (receipt-Passes now linear x g (finite_number receipt) robot l
                (cap-Between x 700_000_000 (f x refl) inside))
      ]
    ]

linear-Passes :
    (now : Float) (linear : Option Float) (angular generation receipt robot : Value)
    → ((x : Float) → linear ≡ some x → is_finite x ≡ true)
    → Passes now (check_linear linear angular generation receipt robot now)
unfolding check_linear
linear-Passes now none angular g receipt robot f = tt
linear-Passes now (some x) angular g receipt robot f =
    elim (Bool-cases (lt x (nano 0) || lt (nano 300_000_000) x)) [
      | inl outside ↦ rw outside tt
      | inr inside ↦ rw inside (
          angular-Passes now x (finite_number angular) g receipt robot
            (finite_number-finite angular) (cap-Between x 300_000_000 (f x refl) inside))
    ]

fields-Passes : (now : Float) (f : Fields) → Passes now (validate_policy_fields f now)
unfolding validate_policy_fields
fields-Passes now f =
    linear-Passes now (finite_number f.linear) f.angular f.generation f.received f.robot
      (finite_number-finite f.linear)

pub parse-Passes : (now : Float) (raw : Raw) → Passes now (parse_policy raw now)
unfolding parse_policy
parse-Passes now (policy p) = fields-Passes now (from_policy p)
parse-Passes now (object m) = fields-Passes now (from_attributes m)
parse-Passes now (mapping m) =
    elim (Bool-cases (any (λ k. not (contains k required_fields)) (keys m))) [
      | inl extra ↦ rw extra tt
      | inr known ↦ elim (Bool-cases (any (λ k. not (contains k (keys m))) required_fields)) [
        | inl lacking ↦ rw (known, lacking) tt
        | inr whole ↦ rw (known, whole) (fields-Passes now (from_attributes m))
      ]
    ]

pub bound_to-Passes :
    (now : Float) (robot : Option ℤ) (o : Outcome)
    → Passes now o
    → Passes now (bound_to robot o)
      × ((p : TeleopPolicy)
          → bound_to robot o ≡ resolved p
          → same_session p.robot_generation robot ≡ true)
unfolding bound_to
bound_to-Passes now robot (refused r) h = (tt, λ p e. cc)
bound_to-Passes now robot (resolved q) h =
    elim (Bool-cases (same_session q.robot_generation robot)) [
      | inl same ↦ rw same (h, λ p e. ground arith)
      | inr other ↦ rw other (tt, λ p e. cc)
    ]
