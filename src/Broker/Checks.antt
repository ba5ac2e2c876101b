-- ===== src/Broker/Checks.antt =====
-- The checks of `_handle_browser_request` of server/app/commands/broker.py, in the order in which
-- they stand. The revision of `handle_browser_request` is read when the request arrives.
use patrolbot_dashboard.Base.{
  ℕ, zero, suc, ◌-◌, Bool, true, false, not, ◌&&◌, ◌||◌, Option, none, some, List, [], ◌∷◌, ◌++◌,
  length, ◌==◌, is_some, if◌then◌else◌,
}
use patrolbot_dashboard.Base.Float.{nano}
use patrolbot_dashboard.Base.Dict.{get}
use patrolbot_dashboard.Protocol.Telemetry.{Connection, online}
use patrolbot_dashboard.Protocol.Commands.{
  Command, stop, teleop_start, teleop_stop, software_reset, motor_disable, motor_enable,
  CommandRequestData,
}
use patrolbot_dashboard.Lease.{can_command as lease_allows, acquire}
use patrolbot_dashboard.RateLimit.{allow}
use patrolbot_dashboard.Broker.State.{
  RobotSession, User, Client, ActiveCommand, Refusal, read_only, lidar_power_pending, reset_pending,
  rate_limited, in_control, duplicate, manual_canceled, ack, rejection, World, emit, member,
  revision,
}
use patrolbot_dashboard.Broker.Manual.{prepare}
use patrolbot_dashboard.Broker.Lifecycle.{is_reset}
use patrolbot_dashboard.Broker.Admission.{check_goal, check_map, validate_robot_state}

pub record Request : Type 0 where
  pub client : Client
  pub robot_id : ℕ
  pub payload : CommandRequestData
  pub revision : ℕ

-- A check passes the world on, or refuses the request.
abbrev pub Checked : Type 0
Checked = World × Option Refusal

abbrev pub and_then : Checked → (World → Checked) → Checked
and_then (w, some r) next = (w, some r)
and_then (w, none) next = next w

-- The checks in turn, up to the first refusal.
unfoldable pub run_checks : List (World → Checked) → World → Checked
run_checks [] w = (w, none)
run_checks (c ∷ cs) w = and_then (c w) (run_checks cs)

abbrev pub refuse_if : Bool → Refusal → World → Checked
refuse_if b r w = (w, if b then some r else none)

abbrev pub may_command : Option User → Bool
may_command none = false
may_command (some u) = u.can_command

abbrev pub is_start : Command → Bool
is_start teleop_start = true
is_start _ = false

abbrev pub is_teleop_stop : Command → Bool
is_teleop_stop teleop_stop = true
is_teleop_stop _ = false

-- Neither rate-limited nor bound to the lease.
abbrev pub is_emergency : Command → Bool
is_emergency stop = true
is_emergency teleop_stop = true
is_emergency software_reset = true
is_emergency motor_disable = true
is_emergency _ = false

-- Passes while laser power is pending.
abbrev pub passes_lidar : Command → Bool
passes_lidar stop = true
passes_lidar teleop_stop = true
passes_lidar software_reset = true
passes_lidar motor_disable = true
passes_lidar motor_enable = true
passes_lidar _ = false

-- Passes while a reset is pending.
abbrev pub passes_reset : Command → Bool
passes_reset stop = true
passes_reset teleop_stop = true
passes_reset motor_disable = true
passes_reset _ = false

abbrev pub is_uncertain : Option ActiveCommand → Bool
is_uncertain none = false
is_uncertain (some e) = e.uncertain

abbrev pub uncertain_reset : World → Option ℕ → Bool
uncertain_reset w none = false
uncertain_reset w (some previous) = is_uncertain (get previous w.active)

-- The sweep of an operator's command over the manual session of the robot.
abbrev pub ends_manual : Command → Bool
ends_manual stop = true
ends_manual motor_disable = true
ends_manual software_reset = true
ends_manual _ = false

unfoldable pub check_user : Request → World → Checked
check_user q w = refuse_if (not (may_command q.client.user)) read_only w

unfoldable pub check_lidar : Request → World → Checked
check_lidar q w =
    refuse_if (is_some (get q.robot_id w.lidar_pending) && not (passes_lidar q.payload.command))
      lidar_power_pending w

-- A command id is the text of a UUID, which the protocol validates, and so is never empty: the truth
-- of the pending id is its presence.
unfoldable pub check_reset : Request → World → Checked
check_reset q w =
    let previous = get q.robot_id w.reset_pending in
    refuse_if
      (is_some previous
        && not (passes_reset q.payload.command)
        && not (is_reset q.payload.command && uncertain_reset w previous))
      reset_pending w

unfoldable pub charge_rate : World → Option User → Checked
charge_rate w none = (w, none)
charge_rate w (some u) =
    let (l, allowed) = allow w.rate u.id w.now in
    refuse_if (not allowed) rate_limited (record w { rate = l })

unfoldable pub check_rate : Request → World → Checked
unfolding charge_rate
check_rate q w = if is_emergency q.payload.command then (w, none) else charge_rate w q.client.user

unfoldable pub take_lease : Request → World → Option User → Checked
take_lease q w none = (w, none)
take_lease q w (some u) =
    if not (lease_allows w.lease q.robot_id u.id) && not q.payload.takeover
    then (w, some in_control)
    else (
      record w { lease = acquire w.lease q.robot_id u.id u.username q.client.ident (nano w.now) },
      none,
    )

unfoldable pub check_lease : Request → World → Checked
unfolding take_lease
check_lease q w = if is_emergency q.payload.command then (w, none) else take_lease q w q.client.user

-- The oldest of more than 512 ids is dropped, and a new id comes last.
abbrev pub drop_first : ℕ → List ℕ → List ℕ
drop_first zero xs = xs
drop_first (suc n) [] = []
drop_first (suc n) (x ∷ xs) = drop_first n xs

abbrev pub seen_limit : ℕ
seen_limit = 512

unfoldable pub remember : ℕ → List ℕ → List ℕ
remember command_id seen =
    let longer = seen ++ (command_id ∷ []) in drop_first (length longer - seen_limit) longer

-- The database answers at once: a request that comes during the lookup is not in the model.
unfoldable pub check_duplicate : Request → World → Checked
unfolding remember
check_duplicate q w =
    let command_id = q.payload.command_id in
    if member command_id w.seen || w.recorded command_id
    then (w, some duplicate)
    else (record w { seen = remember command_id w.seen }, none)

unfoldable pub check_destination : Request → World → Checked
check_destination q w = (w, (check_goal w q.payload.command q.payload.goal).1)

-- The robot's session, where it is online with a socket.
abbrev pub is_online : Connection → Bool
is_online online = true
is_online _ = false

unfoldable pub on_socket : RobotSession → Option ℕ → Option (RobotSession × ℕ)
on_socket s none = none
on_socket s (some ws) = if is_online s.state.connection then some (s, ws) else none

unfoldable pub connected : Option RobotSession → Option (RobotSession × ℕ)
connected none = none
connected (some s) = on_socket s s.websocket

unfoldable pub online_session : World → ℕ → Option (RobotSession × ℕ)
unfolding connected on_socket
online_session w robot = connected (get robot w.robots)

-- A manual session is prepared only where no revoke came after the request.
unfoldable pub start_manual : Request → RobotSession → World → Checked
start_manual q s w =
    if not (is_start q.payload.command)
    then (w, none)
    else if not (q.revision == revision w q.robot_id)
    then (w, some manual_canceled)
    else prepare w q.client s q.payload.command_id

unfoldable pub check_active_map : Request → RobotSession → World → Checked
check_active_map q s w =
    let c = q.payload.command in (w, check_map c s.state (check_goal w c q.payload.goal).0)

unfoldable pub check_state : Request → RobotSession → World → Checked
check_state q s w = (w, validate_robot_state w s q.payload.command q.payload.allow_unlocalized)

-- The checks on a connected robot.
abbrev pub robot_checks : Request → RobotSession → List (World → Checked)
robot_checks q s = check_active_map q s ∷ check_state q s ∷ start_manual q s ∷ []

unfoldable pub check_robot : Request → RobotSession → World → Checked
check_robot q s w = run_checks (robot_checks q s) w

unfoldable pub reject : World → Request → Refusal → World
unfolding emit
reject w q r =
    let command_id = q.payload.command_id in
    emit (emit w (rejection q.robot_id command_id r)) (ack q.robot_id command_id false)
