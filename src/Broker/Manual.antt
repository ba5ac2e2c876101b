-- ===== src/Broker/Manual.antt =====
-- `TeleopController` of server/app/commands/teleop.py, up to the calls that it makes of the broker.
use patrolbot_dashboard.Base.{
  ℕ, ◌+◌, ℤ, pos, negsuc, Bool, true, false, not, ◌&&◌, ◌||◌, Option, none, some, List, [], ◌∷◌,
  ◌==◌, ltb, eqb_ℤ, is_some, if◌then◌else◌,
}
use patrolbot_dashboard.Base.Float.{nano}
use patrolbot_dashboard.Base.Dict.{get, insert, pop}
use patrolbot_dashboard.Protocol.Telemetry.{BaseStateData}
use patrolbot_dashboard.Protocol.Commands.{navigate_to_pose, set_initial_pose}
use patrolbot_dashboard.Gates.Manual.{ManualView, teleop_reason}
use patrolbot_dashboard.TuningPolicy.{TeleopPolicy, Outcome, resolved, refused, resolve_policy}
use patrolbot_dashboard.Lease.{LeaseHolder, holder}
use patrolbot_dashboard.Broker.State.{
  age, RobotSession, Client, Phase, pending, active, closing, unknown, ManualOwner, ActiveCommand,
  Refusal, manual_busy, manual_gate, policy_gate, stop_navigation, stop_operation, old_readings,
  velocity, World, send_text, member, discard,
}

abbrev pub manual_view : World → RobotSession → ManualView
manual_view w s = record {
  connection = s.state.connection;
  capabilities = s.state.capabilities;
  base = s.state.base_state.value;
  age = age s.state.base_state w.now;
}

abbrev pub base_generation_of : Option BaseStateData → Option ℤ
base_generation_of none = none
base_generation_of (some b) = some b.session_generation

-- `_resolve_policy`.
unfoldable pub resolve_for : World → RobotSession → Outcome
resolve_for w s =
    resolve_policy s.state.capabilities (w.policy_source s.robot_id) (nano w.now)
      (base_generation_of s.state.base_state.value)

abbrev same_generation : ℤ → Option ℤ → Bool
same_generation g none = false
same_generation g (some h) = eqb_ℤ h g

abbrev is_socket : ℕ → Option ℕ → Bool
is_socket ws none = false
is_socket ws (some v) = v == ws

abbrev bound_session : ManualOwner → Option RobotSession → Bool
bound_session o none = false
bound_session o (some s) =
    s.ident == o.session
    && is_socket o.websocket s.websocket
    && s.generation == o.generation
    && same_generation o.base_generation (base_generation_of s.state.base_state.value)

-- The owner's session is still the robot's connected session, with the drive base it started on.
unfoldable pub bound : World → ℕ → ManualOwner → Bool
bound w robot o = bound_session o (get robot w.robots)

abbrev holds : World → ManualOwner → Option LeaseHolder → Bool
holds w o none = false
holds w o (some h) = h.client == o.client.ident && not (member o.client.ident w.disconnected)

unfoldable pub owns_lease : World → ℕ → ManualOwner → Bool
owns_lease w robot o = holds w o (holder w.lease robot)

-- The first active command of a robot decides the refusal.
unfoldable pub busy_reason : ℕ → List (ℕ × ActiveCommand) → Option Refusal
busy_reason robot [] = none
busy_reason robot ((_, e) ∷ rest) =
    let later = busy_reason robot rest in
    if not (e.robot_id == robot) then later else elim e.command [
      | navigate_to_pose ↦ some stop_navigation
      | set_initial_pose ↦ some stop_navigation
      | _ ↦ some stop_operation
    ]

-- A base state received before the connection came up, or never.
abbrev from_before : Option ℕ → ℕ → Bool
from_before none connected = true
from_before (some t) connected = ltb t connected

abbrev socket_of : Option ℕ → ℕ
socket_of none = 0
socket_of (some ws) = ws

abbrev generation_or_zero : Option ℤ → ℤ
generation_or_zero none = pos 0
generation_or_zero (some g) = g

unfoldable pub claim : World → Client → RobotSession → ℕ → TeleopPolicy → World
claim w client s command_id policy = record w {
  owners =
      insert s.robot_id
        (record {
          command_id = command_id;
          client = client;
          session = s.ident;
          websocket = socket_of s.websocket;
          generation = s.generation;
          base_generation = generation_or_zero (base_generation_of s.state.base_state.value);
          phase = pending;
          seq = negsuc 0;
          last_frame = w.now;
          frame_times = [];
          start_terminal = false;
          stop_ids = [];
          stop_issued = false;
          policy = policy;
        })
        w.owners;
}

-- `prepare`: the world with a pending owner, or the reason for which there is none.
unfoldable pub prepare : World → Client → RobotSession → ℕ → World × Option Refusal
unfolding claim
prepare w client s command_id =
    if is_some (get s.robot_id w.owners)
    then (w, some manual_busy)
    else elim (busy_reason s.robot_id w.active) [
      | some r ↦ (w, some r)
      | none ↦ elim (teleop_reason (manual_view w s)) [
        | some r ↦ (w, some (manual_gate r))
        | none ↦
            if from_before s.state.base_state.received_mono s.connected_mono
            then (w, some old_readings)
            else elim (resolve_for w s) [
              | refused r ↦ (w, some (policy_gate r))
              | resolved p ↦ (claim w client s command_id p, none)
            ]
      ]
    ]

abbrev pub is_active : Phase → Bool
is_active active = true
is_active _ = false

abbrev pub is_open : Phase → Bool
is_open pending = true
is_open active = true
is_open _ = false

-- `send`: a frame goes out only on the bound socket, and a moving one only in an active session
-- that holds the lease.
unfoldable pub send : World → ℕ → ManualOwner → Bool → World × Bool
send w robot o deadman =
    if not (bound w robot o) || (deadman && (not (is_active o.phase) || not (owns_lease w robot o)))
    then (w, false)
    else send_text w (velocity robot o.websocket deadman)

unfoldable pub bump : World → ℕ → World
bump w robot = record w {
  revisions = insert robot (elim (get robot w.revisions) [ none ↦ 1 | some n ↦ n + 1 ]) w.revisions;
}

unfoldable pub set_owner : World → ℕ → ManualOwner → World
set_owner w robot o = record w { owners = insert robot o w.owners }

abbrev closed_phase : Phase → Phase
closed_phase unknown = unknown
closed_phase _ = closing

-- `revoke` on an owner, before it asks the broker for a stop: the phase closes, and a session that
-- was open sends one zero frame, whose failure leaves the outcome unknown.
unfoldable pub close_owner : World → ℕ → ManualOwner → Bool → World × ManualOwner
close_owner w robot o zero_sent =
    let o' = record o { phase = closed_phase o.phase } in
    if is_open o.phase && not zero_sent
    then (let (w', sent) = send w robot o' false in
        (w', if sent then o' else record o' { phase = unknown }))
    else (w, o')

-- `revoke` with `issue_stop` false.
unfoldable pub revoke_owner : World → ℕ → Option ManualOwner → World
revoke_owner w robot none = w
revoke_owner w robot (some o) = let (w', o') = close_owner w robot o false in set_owner w' robot o'

unfoldable pub revoke_quiet : World → ℕ → World
unfolding revoke_owner close_owner set_owner bump
revoke_quiet w robot = revoke_owner (bump w robot) robot (get robot w.owners)

unfoldable pub stop_owner : World → ℕ → Option ManualOwner → ℕ → World
stop_owner w robot none command_id = w
stop_owner w robot (some o) command_id =
    set_owner w robot (record o { stop_ids = command_id ∷ o.stop_ids; stop_issued = true })

unfoldable pub stop_pending : World → ℕ → ℕ → World
unfolding stop_owner set_owner
stop_pending w robot command_id = stop_owner w robot (get robot w.owners) command_id

abbrev is_nil : List ℕ → Bool
is_nil [] = true
is_nil (_ ∷ _) = false

-- An owner is removed once its start and every stop have ended.
unfoldable pub keep_owner : World → ℕ → ManualOwner → World
unfolding set_owner
keep_owner w robot o =
    if o.start_terminal && is_nil o.stop_ids
    then record w { owners = pop robot w.owners }
    else set_owner w robot o

-- `terminal` on an owner: its own command's end closes it.
unfoldable pub settle_owner : World → ActiveCommand → ManualOwner → World
settle_owner w e o =
    let own = e.command_id == o.command_id in
    keep_owner (if own then bump w e.robot_id else w) e.robot_id (record o {
      start_terminal = own || o.start_terminal;
      phase = if own then closing else o.phase;
      stop_ids = discard e.command_id o.stop_ids;
    })

unfoldable pub terminal_owner : World → ActiveCommand → Option ManualOwner → World
unfolding settle_owner
terminal_owner w e none = w
terminal_owner w e (some o) = settle_owner w e o

unfoldable pub terminal : World → ActiveCommand → World
unfolding terminal_owner
terminal w e = terminal_owner w e (get e.robot_id w.owners)
