-- ===== src/Gates/FailClosed.antt =====
-- Missing and stale telemetry at the gates of server/app/commands/gates.py, and the commands that
-- no telemetry can block.
use patrolbot_dashboard.Base.{
  ◌≡◌, ◌≢◌, refl, Bool, true, false, false≢true, none, arith, sym, ◌∙◌, subst, ◌⊎◌, inl, inr,
}
use patrolbot_dashboard.Protocol.Commands.{
  Command, motor_enable, motor_disable, software_reset, stop,
}
use patrolbot_dashboard.Gates.Facts.{Snapshot, facts_from_state}
use patrolbot_dashboard.Gates.Rules.{
  rejection_reason, motor_enable_reason, motor_disable_reason, software_reset_reason,
}
use patrolbot_dashboard.Gates.Ready.{Received}
use patrolbot_dashboard.Gates.Admission.{asks_hardware, admitted-HardwareReady}

facts-unlinked : (s : Snapshot) → s.base_state ≡ none → (facts_from_state s).link_connected ≡ false
unfolding facts_from_state
facts-unlinked s e = ground arith

facts-age : (s : Snapshot) → (facts_from_state s).base_state_age ≡ s.base_state_age
unfolding facts_from_state
facts-age s = ground arith

facts-online :
    (s t : Snapshot)
    → s.connection ≡ t.connection
    → (facts_from_state s).online ≡ (facts_from_state t).online
unfolding facts_from_state
facts-online s t e = ground arith

facts-capabilities :
    (s t : Snapshot)
    → s.capabilities ≡ t.capabilities
    → (facts_from_state s).capabilities ≡ (facts_from_state t).capabilities
unfolding facts_from_state
facts-capabilities s t e = ground arith

-- Where the server never received a drive-base report, or received the last one more than 3 s
-- ago, every command that asks for the hardware is refused, whatever the rest of the snapshot
-- says and whatever age the robot reports of itself.
pub silent_base_refused :
    (c : Command) (s : Snapshot)
    → asks_hardware c ≡ true
    → (s.base_state ≡ none) ⊎ (¬ Received s.base_state_age 3_000_000_000)
    → rejection_reason c (facts_from_state s) ≢ none
silent_base_refused c s a (inl e) h =
    false≢true
      (sym (facts-unlinked s e) ∙ (admitted-HardwareReady c (facts_from_state s) a h).linked)
silent_base_refused c s a (inr old) h = old (
    subst (λ age. Received age 3_000_000_000) (facts-age s)
      (admitted-HardwareReady c (facts_from_state s) a h).received)

-- The commands that an operator must always be able to send.
abbrev pub emergency : Command → Bool
emergency stop = true
emergency motor_enable = true
emergency motor_disable = true
emergency software_reset = true
emergency _ = false

-- Stopping, switching the motors and the software reset are decided by the connection and the
-- declared capabilities alone: two snapshots that agree on those get the same answer.
pub emergency_ignores_telemetry :
    (c : Command) (s t : Snapshot)
    → emergency c ≡ true
    → s.connection ≡ t.connection
    → s.capabilities ≡ t.capabilities
    → rejection_reason c (facts_from_state s) ≡ rejection_reason c (facts_from_state t)
unfolding rejection_reason motor_enable_reason motor_disable_reason software_reset_reason
emergency_ignores_telemetry stop s t e p q = refl
emergency_ignores_telemetry motor_enable s t e p q =
    rw (facts-online s t p, facts-capabilities s t q) refl
emergency_ignores_telemetry motor_disable s t e p q =
    rw (facts-online s t p, facts-capabilities s t q) refl
emergency_ignores_telemetry software_reset s t e p q =
    rw (facts-online s t p, facts-capabilities s t q) refl
emergency_ignores_telemetry _ s t e p q = absurd (false≢true e)
