-- ===== src/Tuning/Drive.antt =====
-- The policies that server/app/tuning/broker.py hands to manual drive, beside the connections of
-- server/app/telemetry/hub.py.
use patrolbot_dashboard.Base.{
  ℕ, suc, ◌≤◌, false, Option, none, some, maybe, ◌==◌, ◌≡◌, refl, ap, ◌∙◌, arith,
}
use patrolbot_dashboard.Base.Dict.{get}
use patrolbot_dashboard.Hub.{RobotSession}
use patrolbot_dashboard.Hub.Fleet.{TelemetryHub, connect}
use patrolbot_dashboard.Hub.Presence.{connect_found}
use patrolbot_dashboard.Tuning.{Policy, TuningBroker}
use patrolbot_dashboard.Tuning.Replies.{Reply, policy_of, teleop_policy}
use patrolbot_dashboard.Tuning.Machine.{Step, step}

-- The policy of a robot is of a session object of the hub.
abbrev pub Earlier : ℕ → Option Policy → Type 0
Earlier n none = Unit
Earlier n (some p) = p.session ≤ n

superseded-policy_of :
    (p : Policy) (s : RobotSession) (n : ℕ) → p.session ≤ n → s.ident ≡ suc n → policy_of p s ≡ none
superseded-policy_of p s n old new =
    let other : (s.ident == p.session) ≡ false = ground arith in rw other refl

none_given :
    (n : ℕ) (o : Option Policy)
    → Earlier n o
    → (s : RobotSession) → s.ident ≡ suc n
    → maybe none (λ p. policy_of p s) o ≡ none
none_given n none old s new = refl
none_given n (some p) old s new = superseded-policy_of p s n old new

-- A reply from a session object that is not the robot's present one changes nothing.
foreign_reply :
    (robot old : ℕ) (reply : Reply) (b : TuningBroker) (s : RobotSession)
    → get robot b.robots ≡ some s
    → (s.ident == old) ≡ false
    → step (Step.responds robot old reply) b ≡ b
unfolding step
foreign_reply robot old reply b s found other = rw found (rw other refl)

-- As soon as a robot's connection is replaced, manual drive gets no policy for the robot, whatever the
-- connection before it had reported; and a reply that still comes from a session object before the
-- new one gives it none.
pub connect-teleop_policy :
    (robot websocket : ℕ) (h : TelemetryHub) (b : TuningBroker) (old : ℕ) (reply : Reply)
    → Earlier h.next_ident (get robot b.policies)
    → old ≤ h.next_ident
    → let new = record b { robots = (connect robot websocket h).robots } in
      (teleop_policy robot new ≡ none)
      × (teleop_policy robot (step (Step.responds robot old reply) new) ≡ none)
connect-teleop_policy robot websocket h b old reply earlier before =
    let new : TuningBroker = record b { robots = (connect robot websocket h).robots } in
    let (s, found, ident) = connect_found robot websocket h in
    let other : (s.ident == old) ≡ false = ground arith in
    let nothing : teleop_policy robot new ≡ none =
      unfold teleop_policy in
      rw found (none_given h.next_ident (get robot b.policies) earlier s ident) in
    (nothing, ap (teleop_policy robot) (foreign_reply robot old reply new s found other) ∙ nothing)
