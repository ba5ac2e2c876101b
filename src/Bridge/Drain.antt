-- ===== src/Bridge/Drain.antt =====
-- The record of the downstream velocities in `RosTeleop`, ros2_ws/src/patrolbot_web_bridge/
-- patrolbot_web_bridge/teleop.py, told from the samples that a node hears.
use patrolbot_dashboard.Base.{
  ℕ, Bool, true, false, not, ◌&&◌, ◌||◌, Option, none, some, List, [], ◌∷◌, all, maybe, if-holds,
  if◌then◌else◌, ◌≡◌, refl, sym, subst, ◌⊎◌, inl, inr, arith,
}
use patrolbot_dashboard.Base.Float.{Float, nano, le, sub, eq, is_finite}
use patrolbot_dashboard.Bridge.Session.{TeleopSession, Env, zero, active}
use patrolbot_dashboard.Bridge.Node.{
  Topic, cmd_vel_out, cmd_vel, Drain, RosTeleop, Sample, same_topic, valid, since_of, since_or_now,
  observe, on_buffer, tick_session,
}
use patrolbot_dashboard.Bridge.Barrier.{Quiet, tick_session-Waited}

-- A sample comes on a topic, or another call changes the session.
pub data Step : Type 0 where
  hears : Topic → Option Sample → Float → Step
  changes : TeleopSession → Step

unfoldable pub step : Step → RosTeleop → RosTeleop
unfolding on_buffer
step (hears topic x now) n = on_buffer n topic x now
step (changes s) n = record n { session = s }

unfoldable pub run : List Step → RosTeleop → RosTeleop
unfolding step
run [] n = n
run (s ∷ earlier) n = step s (run earlier n)

-- When a sample was heard, and whether it was zero.
abbrev pub Heard : Type 0
Heard = Float × Bool

abbrev pub is_zero : Sample → Bool
is_zero x = all (λ v. eq v zero) x.values

-- A sample on a topic that an active session takes: valid and finite, and, once the session is
-- accepted and may itself move the robot, only a zero.
abbrev pub takes : Topic → RosTeleop → Topic → Sample → Bool
takes k n topic x =
    same_topic topic k
    && active n.session
    && valid n topic x
    && all is_finite x.values
    && (is_zero x || not n.session.acknowledged)

abbrev pub note : Topic → RosTeleop → Step → List Heard → List Heard
note k n (hears topic (some x) now) log = if takes k n topic x then (now, is_zero x) ∷ log else log
note k n (hears topic none now) log = log
note k n (changes s) log = log

-- What was taken on a topic, the latest first; the steps stand in that order too.
abbrev pub heard_on : Topic → List Step → RosTeleop → List Heard
heard_on k [] n = []
heard_on k (s ∷ earlier) n = note k (run earlier n) s (heard_on k earlier n)

-- The latest samples, back to one at a time, are zero.
abbrev pub ZeroSince : Float → List Heard → Type 0
ZeroSince t [] = ⊥
ZeroSince t ((at, z) ∷ log) = (z ≡ true) × ((t ≡ at) ⊎ ZeroSince t log)

abbrev pub LastAt : Float → List Heard → Type 0
LastAt t [] = ⊥
LastAt t ((at, z) ∷ log) = t ≡ at

-- A record of a topic says what was heard.
abbrev Told : List Heard → Option Drain → Type 0
Told log none = Unit
Told log (some d) = maybe Unit (λ t. ZeroSince t log × LastAt d.heard log) d.since

longer :
    (now : Float) (log : List Heard) (old : Option Drain)
    → Told log old
    → Told
        ((now, true) ∷ log)
        (some (record { since = since_or_now (since_of old) now; heard = now }))
longer now log none h = ((refl, inl refl), refl)
longer now log (some d) h = from d.since h
  where
    from :
        (since : Option Float)
        → maybe Unit (λ t. ZeroSince t log × LastAt d.heard log) since
        → maybe Unit
            (λ t. ZeroSince t ((now, true) ∷ log) × LastAt now ((now, true) ∷ log))
            (since_or_now since now)
    from none k = ((refl, inl refl), refl)
    from (some t) (zeros, last) = ((refl, inr zeros), refl)

-- What a node's record of a topic becomes by a sample, by the tests in their order.
abbrev next_drain : Bool → Bool → Bool → Bool → Bool → Bool → Option Drain → Float → Option Drain
next_drain same a v f z k old now =
    if not (a && v && f)
    then old
    else if z
    then (if same
        then some (record { since = since_or_now (since_of old) now; heard = now })
        else old)
    else if not k
    then (if same then some (record { since = none; heard = now }) else old)
    else old

next-Told :
    (same a v f z k : Bool) (log : List Heard) (old : Option Drain) (now : Float)
    → Told log old
    → Told
        (if same && a && v && f && (z || not k) then (now, z) ∷ log else log)
        (next_drain same a v f z k old now)
next-Told true true true true true k log old now h = longer now log old h
next-Told true true true true false true log old now h = h
next-Told true true true true false false log old now h = tt
next-Told true true true false z k log old now h = h
next-Told true true false f z k log old now h = h
next-Told true false v f z k log old now h = h
next-Told false true true true true k log old now h = h
next-Told false true true true false true log old now h = h
next-Told false true true true false false log old now h = h
next-Told false true true false z k log old now h = h
next-Told false true false f z k log old now h = h
next-Told false false v f z k log old now h = h

on_buffer-drain :
    (k topic : Topic) (n : RosTeleop) (x : Sample) (now : Float)
    → (on_buffer n topic (some x) now).drain k
      ≡ next_drain
          (same_topic topic k)
          (active n.session)
          (valid n topic x)
          (all is_finite x.values)
          (is_zero x)
          n.session.acknowledged
          (n.drain k)
          now
unfolding on_buffer observe
on_buffer-drain cmd_vel_out cmd_vel_out n x now = ground arith
on_buffer-drain cmd_vel_out cmd_vel n x now = ground arith
on_buffer-drain cmd_vel cmd_vel_out n x now = ground arith
on_buffer-drain cmd_vel cmd_vel n x now = ground arith

step-Told :
    (k : Topic) (s : Step) (n : RosTeleop) (log : List Heard)
    → Told log (n.drain k)
    → Told (note k n s log) ((step s n).drain k)
unfolding step on_buffer
step-Told k (changes s) n log h = h
step-Told k (hears topic none now) n log h =
    if-holds (λ (u : RosTeleop). Told log (u.drain k)) (not (active n.session)) _ _ h h
step-Told k (hears topic (some x) now) n log h =
    subst (Told (note k n (hears topic (some x) now) log)) (sym (on_buffer-drain k topic n x now)) (
      next-Told (same_topic topic k) (active n.session) (valid n topic x) (all is_finite x.values)
        (is_zero x) n.session.acknowledged log (n.drain k) now h)

run-Told :
    (k : Topic) (steps : List Step) (n : RosTeleop)
    → n.drain k ≡ none
    → Told (heard_on k steps n) ((run steps n).drain k)
unfolding run
run-Told k [] n e = subst (Told []) (sym e) tt
run-Told k (s ∷ earlier) n e =
    step-Told k s (run earlier n) (heard_on k earlier n) (run-Told k earlier n e)

-- The samples of a topic are zero since half a second, and the last came at most half a second ago.
abbrev pub Drained : Float → List Heard → Type 0
Drained now log =
    (t : Float) × (last : Float) × ZeroSince t log
    × LastAt last log
    × (le (nano 500_000_000) (sub now t) ≡ true)
    × (le (nano 0) (sub now last) ≡ true)
    × (le (sub now last) (nano 500_000_000) ≡ true)

Quiet-Drained :
    (now : Float) (log : List Heard) (o : Option Drain) → Told log o → Quiet o now → Drained now log
Quiet-Drained now log o h (d, t, e, s, long, past, soon) =
    let told : maybe Unit (λ u. ZeroSince u log × LastAt d.heard log) (some t) =
      subst (maybe Unit (λ u. ZeroSince u log × LastAt d.heard log)) s (subst (Told log) e h) in
    (t, d.heard, told.0, told.1, long, past, soon)

-- Whatever a node without a record hears on its two downstream topics, and however other calls change
-- its session between: a tick then accepts a session that was not accepted only when, on each of the
-- two topics, the samples that it took are all zero from one at least half a second ago on, and the
-- last of them came at most half a second ago.
pub tick_session-Drained :
    (steps : List Step) (n : RosTeleop) (env : Env) (context : ℕ)
    → n.drain cmd_vel_out ≡ none
    → n.drain cmd_vel ≡ none
    → (tick_session (run steps n) env context).session.acknowledged ≡ true
    → ((run steps n).session.acknowledged ≡ true)
      ⊎ (Drained env.now (heard_on cmd_vel_out steps n)
          × Drained env.now (heard_on cmd_vel steps n))
tick_session-Drained steps n env context first second h =
    elim (tick_session-Waited (run steps n) env context h) [
      | inl before ↦ inl before
      | inr (one, two) ↦ inr (
        Quiet-Drained env.now _ _ (run-Told cmd_vel_out steps n first) one,
        Quiet-Drained env.now _ _ (run-Told cmd_vel steps n second) two,
      )
    ]
