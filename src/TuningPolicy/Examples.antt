-- ===== src/TuningPolicy/Examples.antt =====
-- The speed policy at concrete sources.
use patrolbot_dashboard.Base.{
  ◌+◌, ◌≤◌, pos, negsuc, pos_part, neg_part, String, ◌≡◌, refl, some, List, [], ◌∷◌, inl, ◌-ℤ◌,
  ◌+ℤ◌,
}
use patrolbot_dashboard.Base.Int
use patrolbot_dashboard.Base.Float.{Float, nano, lt, add, sub, fabs, is_finite}
use patrolbot_dashboard.Base.Text.{contains}
use patrolbot_dashboard.TuningPolicy.{
  int, float, str, TeleopPolicy, dynamic, over_policy, capability_requires_policy, finite_number,
  valid_generation, PolicyReason, stale, resolved, refused, mapping, parse_policy, Source, nothing,
  gives, resolve_policy,
}
use patrolbot_dashboard.TuningPolicy.Envelope.{
  Trusted, resolve_policy-Trusted, no_source_refused, frame_in_envelope,
}

abbrev tunable : List String
tunable = "web_teleop_v1" ∷ "robot_tuning_v1" ∷ []

abbrev slow : TeleopPolicy
slow = record {
  mode = dynamic;
  max_linear_m_s = nano 100_000_000;
  max_angular_rad_s = nano 200_000_000;
  generation = some "rev-7";
  received_mono = some (nano 1_000_000_000);
  robot_generation = some (pos 4);
}

abbrev published : Source
published = gives (
    mapping (
      ("max_linear_m_s", float (nano 100_000_000))
      ∷ ("max_angular_rad_s", float (nano 200_000_000))
      ∷ ("generation", str "rev-7")
      ∷ ("received_mono", float (nano 1_000_000_000))
      ∷ ("robot_generation", int (pos 4))
      ∷ []))

abbrev later : Float
later = nano 3_000_000_000

slow_resolved : resolve_policy tunable published later (some (pos 4)) ≡ resolved slow
unfolding resolve_policy capability_requires_policy parse_policy finite_number valid_generation
    is_finite lt add sub contains ◌-ℤ◌ ◌+ℤ◌
slow_resolved = refl

old_refused : resolve_policy tunable published (nano 6_000_000_001) (some (pos 4)) ≡ refused stale
unfolding resolve_policy capability_requires_policy parse_policy finite_number valid_generation
    is_finite lt add sub contains ◌-ℤ◌ ◌+ℤ◌
old_refused = refl

resolve_policy-Trusted_example : Trusted tunable later (some (pos 4)) slow
resolve_policy-Trusted_example =
    resolve_policy-Trusted tunable published later (some (pos 4)) slow slow_resolved

no_source_refused_example :
    (r : PolicyReason) × (resolve_policy tunable nothing later (some (pos 4)) ≡ refused r)
unfolding capability_requires_policy contains
no_source_refused_example = no_source_refused tunable nothing later (some (pos 4)) refl (inl refl)

frame_in_envelope_example :
    (pos_part (pos 100_000_000) + neg_part (pos 100_000_000) ≤ 300_000_001)
    × (pos_part (negsuc 5) + neg_part (negsuc 5) ≤ 700_000_001)
unfolding over_policy lt add fabs Int.abs ◌+ℤ◌
frame_in_envelope_example =
    frame_in_envelope tunable published later (some (pos 4)) slow (pos 100_000_000) (negsuc 5)
      slow_resolved refl
