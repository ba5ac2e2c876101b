-- ===== src/Gates/Exclusive.antt =====
-- Manual drive against the other motion gates.
use patrolbot_dashboard.Base.{
  ◌≡◌, ◌≢◌, refl, sym, ◌∙◌, true, false, false≢true, Option, none, some, arith,
}
use patrolbot_dashboard.Base.Float.{Float}
use patrolbot_dashboard.Base.Text.{one_of, upper, strip}
use patrolbot_dashboard.Protocol.Telemetry.{BaseStateData}
use patrolbot_dashboard.Protocol.Commands.{undock}
use patrolbot_dashboard.Gates.Facts.{StateFacts, Snapshot, facts_from_state, on_dock}
use patrolbot_dashboard.Gates.Rules.{rejection_reason}
use patrolbot_dashboard.Gates.Admission.{undock_iff}
use patrolbot_dashboard.Gates.Manual.{ManualView, teleop_reason}
use patrolbot_dashboard.Gates.ManualReady.{PresentReady, teleop_iff}

-- The part of a snapshot that the gate of manual drive reads.
abbrev pub manual_view : Snapshot → ManualView
manual_view s = record {
  connection = s.connection;
  capabilities = s.capabilities;
  base = s.base_state;
  age = s.base_state_age;
}

clear-on_dock :
    (f : StateFacts)
    → f.dock_state_valid ≡ some true
    → f.dock_state ≡ some "CLEAR_CONFIRMED"
    → on_dock f ≡ false
unfolding on_dock one_of upper strip
clear-on_dock f v d = rw (v, d) refl

facts-dock :
    (s : Snapshot) (b : BaseStateData)
    → s.base_state ≡ some b
    → ((facts_from_state s).dock_state ≡ b.dock_state)
      × ((facts_from_state s).dock_state_valid ≡ b.dock_state_valid)
unfolding facts_from_state
facts-dock s b e = ground arith

present-on_dock :
    (s : Snapshot) (base : Option BaseStateData) (age : Option Float)
    → s.base_state ≡ base
    → PresentReady base age
    → on_dock (facts_from_state s) ≡ false
present-on_dock s none age e p = absurd p
present-on_dock s (some b) none e p = absurd p
present-on_dock s (some b) (some age) e p =
    let (state, valid) = facts-dock s b e in
    clear-on_dock (facts_from_state s) (valid ∙ p.dock_known) (state ∙ p.dock_clear)

-- Where manual drive is admitted, the gates count the robot as off its dock, so that undocking is
-- refused from the same snapshot.
pub manual_undock_exclusive :
    (s : Snapshot)
    → teleop_reason (manual_view s) ≡ none
    → (on_dock (facts_from_state s) ≡ false) × (rejection_reason undock (facts_from_state s) ≢ none)
manual_undock_exclusive s h =
    let away =
      present-on_dock s s.base_state s.base_state_age refl
        ((teleop_iff (manual_view s)).0 h).present in
    (away, λ u. false≢true (sym away ∙ ((undock_iff (facts_from_state s)).0 u).docked))
