-- ===== src/Status/Agreement.antt =====
-- The status line and the health card against each other and against the age of the telemetry.
use patrolbot_dashboard.Base.{
  ℕ, ℤ, pos, ◌≡◌, ◌≢◌, refl, sym, ◌⊎◌, ◌↔◌, inl, inr, Bool, true, false, false≢true, Option, none,
  some, arith, eqb_ℤ_iff,
}
use patrolbot_dashboard.Base.Float.{Float, fin, nano, nan, pos_inf, neg_inf, le, is_finite, Between}
use patrolbot_dashboard.Protocol.Telemetry.{Connection, BaseStateData}
use patrolbot_dashboard.Status.Line.{
  RobotStatus, needs_attention, ready, navigating, recording, docked, charging, paused, stuck,
  StatusInputs, stale_age, is_offline, hazard, calm_status, fresh_error, under_way, derive_status,
}
use patrolbot_dashboard.Status.Line

-- The age is there, and a real number from 0 to a limit.
abbrev pub Fresh : Option Float → ℕ → Type 0
Fresh none limit = ⊥
Fresh (some age) limit = Between 0 age limit

pub stale_age_iff : (age : Option Float) (n : ℕ) → (stale_age age (nano n) ≡ false) ↔ Fresh age n
unfolding stale_age is_finite le
stale_age_iff none n = (λ h. absurd (false≢true (sym h)), λ h. absurd h)
stale_age_iff (some (fin (pos a))) n = (λ h. ground arith, λ h. ground arith)
stale_age_iff (some (fin (ℤ.negsuc a))) n = (λ h. ground arith, λ h. absurd h)
stale_age_iff (some nan) n = (λ h. ground arith, λ h. absurd h)
stale_age_iff (some pos_inf) n = (λ h. ground arith, λ h. absurd h)
stale_age_iff (some neg_inf) n = (λ h. ground arith, λ h. absurd h)

-- What a status other than "offline" and "needs attention" vouches for.
pub record Vouched (s : StatusInputs) (b : BaseStateData) : Type 0 where
  pub reachable : s.connection ≢ Connection.offline
  pub present : s.base_state ≡ some b
  pub recent : Fresh s.base_state_age_s 15_000_000_000
  pub released : b.estop_pressed ≡ false
  pub no_fault : b.fault_flags ≡ pos 0
  pub valid : b.hardware_state_valid ≡ true
  pub linked : b.link_connected ≡ true

abbrev pub calm : RobotStatus → Bool
calm needs_attention = false
calm RobotStatus.offline = false
calm _ = true

pub calm_inputs :
    (s : StatusInputs) (base : Option BaseStateData)
    → s.base_state ≡ base
    → calm (derive_status s).status ≡ true
    → (b : BaseStateData) × (base ≡ some b)
      × (is_offline s.connection ≡ false)
      × (stale_age s.base_state_age_s Line.max_base_state_age_s ≡ false)
      × (hazard b ≡ false)
unfolding derive_status
calm_inputs s none e h = absurd (ground arith)
calm_inputs s (some b) e h = (b, refl, ground arith, ground arith, ground arith)

hazard-Vouched :
    (b : BaseStateData)
    → hazard b ≡ false
    → (b.estop_pressed ≡ false)
      × (b.fault_flags ≡ pos 0)
      × (b.hardware_state_valid ≡ true)
      × (b.link_connected ≡ true)
unfolding hazard
hazard-Vouched b h = ground (arith, eqb_ℤ_iff b.fault_flags (pos 0))

pub reachable : (c : Connection) → is_offline c ≡ false → c ≢ Connection.offline
reachable Connection.offline h e = false≢true (sym h)
reachable Connection.online h e = cc
reachable Connection.stale h e = cc

-- A status other than "offline" and "needs attention" is shown only while the robot is reachable
-- and its base state arrived within 15 s, with no emergency stop, no fault, valid hardware and a
-- working link.
pub calm-Vouched :
    (s : StatusInputs) → calm (derive_status s).status ≡ true → (b : BaseStateData) × Vouched s b
calm-Vouched s h =
    let (b, e, on, fresh, safe) = calm_inputs s s.base_state refl h in
    let (released, no_fault, valid, linked) = hazard-Vouched b safe in
    (
      b,
      record {
        reachable = reachable s.connection on;
        present = e;
        recent = (stale_age_iff s.base_state_age_s 15_000_000_000).0 fresh;
        released = released;
        no_fault = no_fault;
        valid = valid;
        linked = linked;
      },
    )

navigating_inputs :
    (s : StatusInputs) (base : Option BaseStateData)
    → s.base_state ≡ base
    → (derive_status s).status ≡ navigating
    → (b : BaseStateData) × (base ≡ some b) × ((b.undock_active ≡ true) ⊎ (under_way s ≡ true))
unfolding derive_status calm_status
navigating_inputs s none e h = absurd (ground arith)
navigating_inputs s (some b) e h = (b, refl, ground arith)

under_way-pose : (s : StatusInputs) → under_way s ≡ true → Fresh s.pose_age_s 15_000_000_000
unfolding under_way
under_way-pose s h = (stale_age_iff s.pose_age_s 15_000_000_000).0 (ground arith)

-- The robot is shown as driving only if it undocks, or its pose arrived within 15 s.
pub navigating-Fresh :
    (s : StatusInputs)
    → (derive_status s).status ≡ navigating
    → (b : BaseStateData) × (s.base_state ≡ some b)
      × ((b.undock_active ≡ true) ⊎ Fresh s.pose_age_s 15_000_000_000)
navigating-Fresh s h =
    let (b, e, why) = navigating_inputs s s.base_state refl h in
    (b, e, elim why [ inl undocking ↦ inl undocking | inr moving ↦ inr (under_way-pose s moving) ])
