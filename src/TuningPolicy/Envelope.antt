-- ===== src/TuningPolicy/Envelope.antt =====
-- The commissioned speed envelope: no policy that is resolved leaves it.
use patrolbot_dashboard.Base.{
  ℕ, ◌+◌, ◌≤◌, ℤ, pos, negsuc, String, ◌≡◌, refl, ap, subst, ◌⊎◌, inl, inr, true, false, false≢true,
  Option, none, some, List, arith, Bool-cases, eqb_ℤ_iff, pos_part, neg_part, ◌+ℤ◌,
}
use patrolbot_dashboard.Base.Float.{Float, fin, nano, nan, pos_inf, neg_inf, lt, add, fabs, Between}
use patrolbot_dashboard.Base.Int
use patrolbot_dashboard.TuningPolicy.{
  TeleopPolicy, legacy_policy, over_policy, capability_requires_policy, PolicyReason, unavailable,
  unreadable, resolved, refused, same_session, from_source, parse_policy, Source, nothing, raises,
  gives, resolve_policy,
}
use patrolbot_dashboard.TuningPolicy.Validation.{InEnvelope, Passes, parse-Passes, bound_to-Passes}

same_session-eq : (a b : Option ℤ) → same_session a b ≡ true → a ≡ b
unfolding same_session
same_session-eq none none h = refl
same_session-eq (some a) (some b) h = ap some ((eqb_ℤ_iff a b).0 h)
same_session-eq none (some b) h = absurd (false≢true h)
same_session-eq (some a) none h = absurd (false≢true h)

-- What a resolved policy is, by the capabilities of the robot.
pub data Trusted (capabilities : List String) (now : Float) (robot : Option ℤ) (p : TeleopPolicy)
    : Type 0 where
  fixed :
      capability_requires_policy capabilities ≡ false
      → p ≡ legacy_policy
      → Trusted capabilities now robot p
  tuned :
      capability_requires_policy capabilities ≡ true
      → InEnvelope now p
      → p.robot_generation ≡ robot
      → Trusted capabilities now robot p

source-Trusted :
    (now : Float) (source : Source) (robot : Option ℤ) (p : TeleopPolicy)
    → from_source source now robot ≡ resolved p
    → InEnvelope now p × (p.robot_generation ≡ robot)
unfolding from_source
source-Trusted now nothing robot p e = cc
source-Trusted now raises robot p e = cc
source-Trusted now (gives raw) robot p e =
    let (passes, bound) = bound_to-Passes now robot (parse_policy raw now) (parse-Passes now raw) in
    (subst (Passes now) e passes, same_session-eq p.robot_generation robot (bound p e))

-- Whatever the source hands over, a policy is resolved only if the robot promises no tuning and
-- the policy is the fixed one, or if its caps lie in the commissioned envelope, its receipt is
-- recent and it names the robot's present session.
pub resolve_policy-Trusted :
    (capabilities : List String) (source : Source) (now : Float) (robot : Option ℤ)
    (p : TeleopPolicy)
    → resolve_policy capabilities source now robot ≡ resolved p
    → Trusted capabilities now robot p
unfolding resolve_policy
resolve_policy-Trusted capabilities source now robot p e =
    elim (Bool-cases (capability_requires_policy capabilities)) [
      | inl asks ↦
          let (inside, session) = source-Trusted now source robot p (ground arith) in
          tuned asks inside session
      | inr free ↦ fixed free (ground arith)
    ]

-- A robot that promises tuning gets no policy from a source that is silent or fails.
pub no_source_refused :
    (capabilities : List String) (source : Source) (now : Float) (robot : Option ℤ)
    → capability_requires_policy capabilities ≡ true
    → (source ≡ nothing) ⊎ (source ≡ raises)
    → (r : PolicyReason) × (resolve_policy capabilities source now robot ≡ refused r)
unfolding resolve_policy from_source
no_source_refused capabilities source now robot asks (inl e) = (unavailable, rw (e, asks) refl)
no_source_refused capabilities source now robot asks (inr e) = (unreadable, rw (e, asks) refl)

cap_binds :
    (cap : Float) (hi : ℕ) (a : ℤ)
    → Between 0 cap hi
    → lt (add cap (nano 1)) (fabs (fin a)) ≡ false
    → pos_part a + neg_part a ≤ hi + 1
unfolding lt add fabs Int.abs ◌+ℤ◌
cap_binds (fin (pos c)) hi a b h = ground arith
cap_binds (fin (negsuc c)) hi a b h = absurd b
cap_binds nan hi a b h = absurd b
cap_binds pos_inf hi a b h = absurd b
cap_binds neg_inf hi a b h = absurd b

Trusted-caps :
    (capabilities : List String) (now : Float) (robot : Option ℤ) (p : TeleopPolicy)
    → Trusted capabilities now robot p
    → Between 0 p.max_linear_m_s 300_000_000 × Between 0 p.max_angular_rad_s 700_000_000
Trusted-caps capabilities now robot p (fixed free e) = rw e (omega arith, omega arith)
Trusted-caps capabilities now robot p (tuned asks inside session) = (inside.linear, inside.angular)

-- A frame with real speeds that a resolved policy does not refuse keeps to the commissioned
-- envelope, up to a billionth: 0.3 m/s and 0.7 rad/s, in either direction.
pub frame_in_envelope :
    (capabilities : List String) (source : Source) (now : Float) (robot : Option ℤ)
    (p : TeleopPolicy) (linear angular : ℤ)
    → resolve_policy capabilities source now robot ≡ resolved p
    → over_policy p (fin linear) (fin angular) ≡ false
    → (pos_part linear + neg_part linear ≤ 300_000_001)
      × (pos_part angular + neg_part angular ≤ 700_000_001)
unfolding over_policy
frame_in_envelope capabilities source now robot p linear angular e h =
    let (caps, turns) =
      Trusted-caps capabilities now robot p
        (resolve_policy-Trusted capabilities source now robot p e) in
    (
      cap_binds p.max_linear_m_s 300_000_000 linear caps (ground arith),
      cap_binds p.max_angular_rad_s 700_000_000 angular turns (ground arith),
    )
