-- ===== src/Broker/Drive.antt =====
-- `velocity`, `changed`, `_monitor` and `shutdown` of `TeleopController`, server/app/commands/teleop.py. The age
-- of a frame's timestamp is a parameter: none where the text is no time with a zone.
-- A send in flight while another frame comes is left out, as is every step across an await. Only a
-- bound owner is asked for its session's hazards and policy, and a bound owner has a session.
use text.Mathlib.Text.{◌==◌ as str_eq}
use patrolbot_dashboard.Base.{
  ℕ, ◌+◌, ◌-◌, min, max, ℤ, Bool, true, false, not, ◌&&◌, ◌||◌, Option, none, some, List, [], ◌∷◌,
  ◌++◌, String, length, leb, ◌==◌, leb_ℤ, is_some, if◌then◌else◌,
}
use patrolbot_dashboard.Base.Float.{Float, nano, negate, le, eq}
use patrolbot_dashboard.Base.Dict.{get}
use patrolbot_dashboard.Gates.Manual.{teleop_reason}
use patrolbot_dashboard.TuningPolicy.{
  Mode, legacy, dynamic, TeleopPolicy, Outcome, resolved, refused, over_policy,
}
use patrolbot_dashboard.Broker.State.{RobotSession, Client, Phase, pending, ManualOwner, World}
use patrolbot_dashboard.Broker.Manual.{
  manual_view, resolve_for, bound, owns_lease, is_active, is_open, send, bump, set_owner,
  close_owner,
}
use patrolbot_dashboard.Broker.Checks.{may_command}
use patrolbot_dashboard.Broker.Requests.{issue_stop, revoke}

-- `hub.settings` and the broker's acknowledgement timeout; times are in nanoseconds.
pub record Settings : Type 0 where
  pub teleop_frames_per_s : ℕ
  pub teleop_session_ttl : ℕ
  pub ack_timeout_ns : ℕ

pub record VelocityFrame : Type 0 where
  pub command_id : ℕ
  pub seq : ℤ
  pub linear : Float
  pub angular : Float
  pub deadman : Bool
  pub age : Option Float

abbrev second : ℕ
second = 1_000_000_000

abbrev same_mode : Mode → Mode → Bool
same_mode legacy legacy = true
same_mode dynamic dynamic = true
same_mode _ _ = false

abbrev same_generation : Option String → Option String → Bool
same_generation none none = true
same_generation (some a) (some b) = str_eq a b
same_generation _ _ = false

-- Equality of `signature`s.
unfoldable pub same_signature : TeleopPolicy → TeleopPolicy → Bool
same_signature p q =
    same_mode p.mode q.mode
    && eq p.max_linear_m_s q.max_linear_m_s
    && eq p.max_angular_rad_s q.max_angular_rad_s
    && same_generation p.generation q.generation

abbrev pub still_authorizes : Outcome → TeleopPolicy → Bool
still_authorizes (refused _) q = false
still_authorizes (resolved p) q = same_signature p q

-- `_policy_problem`, for the session that the owner is bound to.
abbrev pub policy_problem : World → Option RobotSession → ManualOwner → Bool
policy_problem w none o = true
policy_problem w (some s) o = not (still_authorizes (resolve_for w s) o.policy)

abbrev pub hazard : World → Option RobotSession → Bool
hazard w none = true
hazard w (some s) = is_some (teleop_reason (manual_view w s))

-- `revoke` with `zero_sent`.
unfoldable pub revoke_sent_owner : World → ℕ → Option ManualOwner → World
revoke_sent_owner w robot none = w
revoke_sent_owner w robot (some o) =
    let (w', o') = close_owner w robot o true in issue_stop w' robot o'

unfoldable pub revoke_sent : World → ℕ → World
unfolding revoke_sent_owner
revoke_sent w robot = revoke_sent_owner (bump w robot) robot (get robot w.owners)

unfoldable pub identified : World → ℕ → Client → VelocityFrame → ManualOwner → Bool
identified w robot client f o =
    o.client.ident == client.ident
    && may_command client.user
    && o.command_id == f.command_id
    && not (leb_ℤ f.seq o.seq)
    && bound w robot o
    && owns_lease w robot o

abbrev pub in_time : Option Float → Bool
in_time none = false
in_time (some age) = le (negate (nano 50_000_000)) age && le age (nano 300_000_000)

-- The times of the last second.
abbrev pub recent_times : ℕ → List ℕ → List ℕ
recent_times now [] = []
recent_times now (t ∷ ts) =
    let rest = recent_times now ts in if leb (t + second) now then rest else t ∷ ts

unfoldable pub after_frame : ℕ → Bool → World × Bool → World × Bool
after_frame robot deadman (w, false) = (revoke w robot, false)
after_frame robot true (w, true) = (w, true)
after_frame robot false (w, true) = (revoke_sent w robot, true)

unfoldable pub forward_frame : World → ℕ → VelocityFrame → ManualOwner → World × Bool
unfolding after_frame
forward_frame w robot f o =
    let o' = record o { seq = f.seq; last_frame = w.now } in
    after_frame robot f.deadman (send (set_owner w robot o') robot o' f.deadman)

-- A frame that moves the robot: `frame_times` is pruned even where the rate is exceeded.
unfoldable pub drive : World → Settings → ℕ → VelocityFrame → ManualOwner → World × Bool
unfolding forward_frame
drive w settings robot f o =
    if not (is_active o.phase)
    then (w, false)
    else if hazard w (get robot w.robots)
    then (revoke w robot, false)
    else if policy_problem w (get robot w.robots) o
    then (revoke w robot, false)
    else if over_policy o.policy f.linear f.angular
    then (revoke w robot, false)
    else (let times = recent_times w.now o.frame_times in
        if leb (max 1 settings.teleop_frames_per_s) (length times)
        then (set_owner w robot (record o { frame_times = times }), false)
        else forward_frame w robot f (record o { frame_times = times ++ (w.now ∷ []) }))

unfoldable pub velocity_from :
    World → Settings → Client → ℕ → VelocityFrame → Option ManualOwner → World × Bool
unfolding identified drive forward_frame
velocity_from w settings client robot f none = (w, false)
velocity_from w settings client robot f (some o) =
    if not (identified w robot client f o) || not (in_time f.age)
    then (w, false)
    else if f.deadman
    then drive w settings robot f o
    else forward_frame w robot f o

unfoldable pub velocity : World → Settings → Client → ℕ → VelocityFrame → World × Bool
unfolding velocity_from
velocity w settings client robot f = velocity_from w settings client robot f (get robot w.owners)

-- `changed`, for the owner of the session's robot.
unfoldable pub changed_owner : World → RobotSession → Option ManualOwner → World
changed_owner w s none = w
changed_owner w s (some o) =
    if not (is_open o.phase)
    then w
    else if not (bound w s.robot_id o) || not (owns_lease w s.robot_id o) || hazard w (some s)
    then revoke w s.robot_id
    else if policy_problem w (get s.robot_id w.robots) o
    then revoke w s.robot_id
    else w

unfoldable pub changed : World → RobotSession → World
unfolding changed_owner
changed w s = changed_owner w s (get s.robot_id w.owners)

-- How long an owner of this phase may be stream_ended.
abbrev deadline : Settings → Phase → ℕ
deadline settings pending = settings.ack_timeout_ns
deadline settings _ = 300_000_000

abbrev pub stream_ended : World → Settings → ManualOwner → Bool
stream_ended w settings o =
    leb (min (deadline settings o.phase) (max 1_000_000 settings.teleop_session_ttl))
      (w.now - o.last_frame)

-- `changed` on the owner's session, which is the robot's where the owner is bound and else ends.
unfoldable pub session_changed : World → ℕ → ManualOwner → Option RobotSession → World
unfolding changed
session_changed w robot o none = revoke w robot
session_changed w robot o (some s) = if bound w robot o then changed w s else revoke w robot

-- One turn of `_monitor` for one robot.
unfoldable pub monitor_owner : World → Settings → ℕ → Option ManualOwner → World
unfolding session_changed
monitor_owner w settings robot none = w
monitor_owner w settings robot (some o) =
    if not (is_open o.phase)
    then w
    else if stream_ended w settings o
    then revoke w robot
    else session_changed w robot o (get robot w.robots)

-- One turn of `_monitor` for all of them.
unfoldable pub monitor : World → Settings → List (ℕ × ManualOwner) → World
unfolding monitor_owner
monitor w settings [] = w
monitor w settings ((robot, _) ∷ rest) =
    monitor (monitor_owner w settings robot (get robot w.owners)) settings rest

-- `shutdown`, after the watchdog is gone.
unfoldable pub shutdown : World → List (ℕ × ManualOwner) → World
shutdown w [] = w
shutdown w ((robot, _) ∷ rest) = shutdown (revoke w robot) rest
