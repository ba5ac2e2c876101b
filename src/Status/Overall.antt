-- ===== src/Status/Overall.antt =====
-- The overall level of the health card, and the card against the status line.
use patrolbot_dashboard.Base.{
  ◌≤◌, ◌≡◌, ◌≢◌, refl, sym, ap, subst, ◌∙◌, ◌⊎◌, inl, inr, true, false, Option, none, some, List,
  [], ◌∷◌, All, arith, if◌then◌else◌, ltb,
}
use patrolbot_dashboard.Protocol.Telemetry.{Connection, BaseStateData}
use patrolbot_dashboard.Status.Line.{
  StatusInputs, stale_age, is_offline, hazard, max_base_state_age_s, derive_status,
}
use patrolbot_dashboard.Status.Agreement.{Fresh, stale_age_iff, calm, calm_inputs}
use patrolbot_dashboard.Status.Card.{
  HealthLevel, healthy, warning, HealthInputs, Subsystem, level_rank, counted, roll_up, subsystems,
  derive_health, drive_base_line, battery_line, localization_line, systems_line, computer_line,
}

-- A level is at least as grave as a line.
abbrev pub Covers : HealthLevel → Subsystem → Type 0
Covers overall sub = level_rank (counted sub.level) ≤ level_rank overall

abbrev next : HealthLevel → Subsystem → HealthLevel
next overall sub =
    if ltb (level_rank overall) (level_rank (counted sub.level)) then counted sub.level else overall

next_grows :
    (overall : HealthLevel) (sub : Subsystem)
    → (level_rank overall ≤ level_rank (next overall sub)) × Covers (next overall sub) sub
next_grows overall sub = ground arith

next_either :
    (overall : HealthLevel) (sub : Subsystem)
    → (next overall sub ≡ overall) ⊎ (next overall sub ≡ counted sub.level)
next_either overall sub = ground arith

roll_up_grows :
    (overall : HealthLevel) (subs : List Subsystem)
    → level_rank overall ≤ level_rank (roll_up overall subs)
unfolding roll_up
roll_up_grows overall [] = omega arith
roll_up_grows overall (sub ∷ rest) =
    omega (arith, (next_grows overall sub).0, roll_up_grows (next overall sub) rest)

roll_up-Covers :
    (overall : HealthLevel) (subs : List Subsystem) → All (Covers (roll_up overall subs)) subs
unfolding roll_up
roll_up-Covers overall [] = tt
roll_up-Covers overall (sub ∷ rest) = (
  omega (arith, (next_grows overall sub).1, roll_up_grows (next overall sub) rest),
  roll_up-Covers (next overall sub) rest,
)

abbrev pub Shows : HealthLevel → List Subsystem → Type 0
Shows level [] = ⊥
Shows level (sub ∷ rest) = (counted sub.level ≡ level) ⊎ Shows level rest

roll_up_attained :
    (overall : HealthLevel) (subs : List Subsystem)
    → (roll_up overall subs ≡ overall) ⊎ Shows (roll_up overall subs) subs
unfolding roll_up
roll_up_attained overall [] = inl refl
roll_up_attained overall (sub ∷ rest) = elim (roll_up_attained (next overall sub) rest) [
  | inl e ↦ elim (next_either overall sub) [
    | inl kept ↦ inl (e ∙ kept)
    | inr raised ↦ inr (inl (sym (e ∙ raised)))
  ]
  | inr shown ↦ inr (inr shown)
]

not_offline : (c : Connection) → c ≢ Connection.offline → is_offline c ≡ false
not_offline Connection.offline r = absurd (r refl)
not_offline Connection.online r = refl
not_offline Connection.stale r = refl

health_reachable :
    (h : HealthInputs)
    → h.connection ≢ Connection.offline
    → derive_health h ≡ record { overall = roll_up healthy (subsystems h); lines = subsystems h }
unfolding derive_health
health_reachable h r = rw (not_offline h.connection r)

-- While the robot is reachable, the overall level is at least as grave as every line, and is
-- "healthy" or the level of one of the lines, where a line with no data counts as a warning.
pub overall_is_worst :
    (h : HealthInputs)
    → h.connection ≢ Connection.offline
    → All (Covers (derive_health h).overall) (derive_health h).lines
      × (((derive_health h).overall ≡ healthy)
          ⊎ Shows (derive_health h).overall (derive_health h).lines)
overall_is_worst h r =
    rw (health_reachable h r)
      (roll_up-Covers healthy (subsystems h), roll_up_attained healthy (subsystems h))

covered_healthy : (sub : Subsystem) → Covers healthy sub → sub.level ≡ healthy
unfolding level_rank
covered_healthy sub c = ground arith

-- What a healthy card vouches for: how recent each part of the telemetry is, in seconds.
pub record Current (h : HealthInputs) : Type 0 where
  pub base : Fresh h.base_state_age_s 15_000_000_000
  pub battery : Fresh h.battery_age_s 30_000_000_000
  pub pose : Fresh h.pose_age_s 15_000_000_000
  pub diagnostics : Fresh h.diagnostics_age_s 30_000_000_000
  pub resources : Fresh h.resources_age_s 60_000_000_000

base-Fresh :
    (h : HealthInputs)
    → (drive_base_line h).level ≡ healthy
    → Fresh h.base_state_age_s 15_000_000_000
unfolding drive_base_line
base-Fresh h e = (stale_age_iff h.base_state_age_s 15_000_000_000).0 (ground arith)

battery-Fresh :
    (h : HealthInputs) → (battery_line h).level ≡ healthy → Fresh h.battery_age_s 30_000_000_000
unfolding battery_line
battery-Fresh h e = (stale_age_iff h.battery_age_s 30_000_000_000).0 (ground arith)

pose-Fresh :
    (h : HealthInputs) → (localization_line h).level ≡ healthy → Fresh h.pose_age_s 15_000_000_000
unfolding localization_line
pose-Fresh h e = (stale_age_iff h.pose_age_s 15_000_000_000).0 (ground arith)

diagnostics-Fresh :
    (h : HealthInputs) → (systems_line h).level ≡ healthy → Fresh h.diagnostics_age_s 30_000_000_000
unfolding systems_line
diagnostics-Fresh h e = (stale_age_iff h.diagnostics_age_s 30_000_000_000).0 (ground arith)

resources-Fresh :
    (h : HealthInputs) → (computer_line h).level ≡ healthy → Fresh h.resources_age_s 60_000_000_000
unfolding computer_line
resources-Fresh h e = (stale_age_iff h.resources_age_s 60_000_000_000).0 (ground arith)

lines-Current : (h : HealthInputs) → All (Covers healthy) (subsystems h) → Current h
unfolding subsystems
lines-Current h (_, (base, (battery, (_, (pose, (systems, (computer, _))))))) = record {
  base = base-Fresh h (covered_healthy (drive_base_line h) base);
  battery = battery-Fresh h (covered_healthy (battery_line h) battery);
  pose = pose-Fresh h (covered_healthy (localization_line h) pose);
  diagnostics = diagnostics-Fresh h (covered_healthy (systems_line h) systems);
  resources = resources-Fresh h (covered_healthy (computer_line h) computer);
}

-- While the robot is reachable, a card that is healthy overall rests on a base state and a pose at
-- most 15 s old, a battery reading and diagnostics at most 30 s old, and a report of the onboard
-- computer at most 60 s old.
pub healthy-Current :
    (h : HealthInputs)
    → h.connection ≢ Connection.offline
    → (derive_health h).overall ≡ healthy
    → Current h
healthy-Current h r e = lines-Current h (
    subst (λ level. All (Covers level) (subsystems h))
      (sym (ap (λ d. d.overall) (health_reachable h r)) ∙ e)
      (roll_up-Covers healthy (subsystems h)))

card_level :
    (h : HealthInputs) (base : Option BaseStateData)
    → h.base_state ≡ base
    → (b : BaseStateData) → base ≡ some b
    → is_offline h.connection ≡ false
    → stale_age h.base_state_age_s max_base_state_age_s ≡ false
    → hazard b ≡ false
    → ((drive_base_line h).level ≡ healthy) ⊎ ((drive_base_line h).level ≡ warning)
unfolding drive_base_line hazard
card_level h none e b p o f z = absurd (ground arith)
card_level h (some c) e b p o f z = ground arith

-- The status line and the card agree on hazards: computed from the same connection, base state
-- and age, a status other than "offline" and "needs attention" comes with a drive-base line that
-- is healthy or a warning, never a fault and never without data.
pub calm_agrees :
    (s : StatusInputs) (h : HealthInputs)
    → h.connection ≡ s.connection
    → h.base_state ≡ s.base_state
    → h.base_state_age_s ≡ s.base_state_age_s
    → calm (derive_status s).status ≡ true
    → ((drive_base_line h).level ≡ healthy) ⊎ ((drive_base_line h).level ≡ warning)
calm_agrees s h c b a k =
    let (base, e, on, fresh, safe) = calm_inputs s s.base_state refl k in
    card_level h s.base_state b base e (ap is_offline c ∙ on)
      (ap (λ age. stale_age age max_base_state_age_s) a ∙ fresh) safe
