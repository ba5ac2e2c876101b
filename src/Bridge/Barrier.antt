-- ===== src/Bridge/Barrier.antt =====
-- What a start of manual drive waits for, ros2_ws/src/patrolbot_web_bridge/patrolbot_web_bridge/
-- teleop.py.
use patrolbot_dashboard.Base.{
  ℕ, ◌≡◌, sym, ◌∙◌, Bool, true, false, false≢true, not, ◌&&◌, and_true, Option, none, some, refl,
  if-holds, if-split, maybe-holds, ◌⊎◌, inl, inr,
}
use patrolbot_dashboard.Base.Float.{Float, nano, le, sub}
use patrolbot_dashboard.Protocol.Commands.{CommandOutcome, failed, timeout}
use patrolbot_dashboard.Bridge.Policy.{Resolution, resolved, refused}
use patrolbot_dashboard.Bridge.Session.{
  Cause, Env, TeleopSession, publish, say, zero, resolve, active, finish, same_context, same_policy,
  watch, tick_policy, tick, next_outcome,
}
use patrolbot_dashboard.Bridge.Safety.{hardware_timeout_s}
use patrolbot_dashboard.Bridge.Node.{
  cmd_vel_out, cmd_vel, Drain, RosTeleop, zero_for, drained, prepare, tick_session,
}
use patrolbot_dashboard.Bridge.Watchdog.{finish-Stopped}

-- A session that is accepted now was accepted before.
abbrev Still : TeleopSession → TeleopSession → Type 0
Still s u = u.acknowledged ≡ true → s.acknowledged ≡ true

finish-Still : (s : TeleopSession) (r : Cause) (o : CommandOutcome) → Still s (finish s r o)
finish-Still s r o h = absurd (false≢true (sym (finish-Stopped s r o).unacknowledged ∙ h))

tick_policy-Still : (s : TeleopSession) (env : Env) (r : Resolution) → Still s (tick_policy s env r)
unfolding tick_policy watch
tick_policy-Still s env (refused r) = finish-Still s _ failed
tick_policy-Still s env (resolved p) =
    if-holds (Still s) (not (same_policy p s.policy_signature)) _ _ (finish-Still s _ failed) (
      if-holds (Still s) (not s.acknowledged) _ _
        (maybe-holds (Still s) s _ s.preparing_at (λ h. h)
          (λ t. if-holds (Still s) _ _ s (finish-Still s _ timeout) (λ h. h)))
        (maybe-holds (Still s) s _ s.last_received (λ h. h)
          (λ t. if-holds (Still s) _ s _ (λ h. h) (finish-Still s _ timeout))))

tick-Still : (s : TeleopSession) (env : Env) (context : ℕ) → Still s (tick s env context)
unfolding tick
tick-Still s env context =
    if-holds (Still s) (not (active s)) s _ (λ h. h)
      (if-holds (Still s) (not (same_context context s.context)) _ _ (finish-Still s _ failed) (
        maybe-holds (Still s) _ _ env.safety (tick_policy-Still s env (resolve s env))
          (λ r. finish-Still s _ failed)))

publish-Still : (s : TeleopSession) → Still s (publish s zero zero false).0
unfolding publish say
publish-Still s = if-holds (Still s) (next_outcome s.outcomes).0 _ _ (λ h. h) (λ h. h)

-- A topic has been zero for half a second, and was heard of within the last half second.
abbrev pub Quiet : Option Drain → Float → Type 0
Quiet o now =
    (d : Drain) × (t : Float) × (o ≡ some d)
    × (d.since ≡ some t)
    × (le (nano 500_000_000) (sub now t) ≡ true)
    × (le (nano 0) (sub now d.heard) ≡ true)
    × (le (sub now d.heard) (nano 500_000_000) ≡ true)

zero_for-Quiet : (o : Option Drain) (now : Float) → zero_for o now ≡ true → Quiet o now
zero_for-Quiet none now h = absurd (false≢true h)
zero_for-Quiet (some d) now h = from d.since refl h
  where
    from :
        (since : Option Float)
        → d.since ≡ since
        → (elim since [
          | none ↦ false
          | some t ↦
              le hardware_timeout_s (sub now t)
              && le (nano 0) (sub now d.heard)
              && le (sub now d.heard) hardware_timeout_s
        ])
          ≡ true
        → Quiet (some d) now
    from none e k = absurd (false≢true k)
    from (some t) e k =
        let (both, soon) =
          and_true (le hardware_timeout_s (sub now t) && le (nano 0) (sub now d.heard)) _ k in
        let (long, past) = and_true (le hardware_timeout_s (sub now t)) _ both in
        (d, t, refl, e, long, past, soon)

abbrev pub BothQuiet : RosTeleop → Float → Type 0
BothQuiet n now = Quiet (n.drain cmd_vel_out) now × Quiet (n.drain cmd_vel) now

drained-BothQuiet : (n : RosTeleop) (now : Float) → drained n now ≡ true → BothQuiet n now
unfolding drained
drained-BothQuiet n now h =
    let (one, two) = and_true (zero_for (n.drain cmd_vel_out) now) _ h in
    (zero_for-Quiet _ now one, zero_for-Quiet _ now two)

-- Accepted before, or allowed by the drain.
abbrev Waited : RosTeleop → Env → TeleopSession → Type 0
Waited n env u = u.acknowledged ≡ true → (n.session.acknowledged ≡ true) ⊎ BothQuiet n env.now

prepare-Waited :
    (n : RosTeleop) (env : Env) (context : ℕ) (x : TeleopSession × Bool)
    → Still n.session x.0
    → Waited n env (prepare n env context x)
unfolding prepare
prepare-Waited n env context (s, false) k h = inl (k h)
prepare-Waited n env context (s, true) k h =
    if-split (Waited n env) (drained n env.now) _ s (λ d _. inr (drained-BothQuiet n env.now d))
      (λ _ g. inl (k g)) h

-- A tick of the node accepts a session only when, for each of the two downstream topics, the node
-- has on record that it is zero since half a second or more and that it was heard of at most half a
-- second ago; a session that is accepted after a tick without that was accepted before.
pub tick_session-Waited :
    (n : RosTeleop) (env : Env) (context : ℕ)
    → (tick_session n env context).session.acknowledged ≡ true
    → (n.session.acknowledged ≡ true) ⊎ BothQuiet n env.now
unfolding tick_session
tick_session-Waited n env context =
    let s = tick n.session env context in
    let k = tick-Still n.session env context in
    if-holds (Waited n env) (active s && not s.acknowledged) _ s
      (prepare-Waited n env context (publish s zero zero false) (λ h. k (publish-Still s h)))
      (λ h. inl (k h))
