-- ===== src/Store/Effects.antt =====
-- What a call of server/app/telemetry/store.py does to a store: it updates the state and adds events.
-- `Emits` keeps track of which events a call may add, and of what of the state it leaves alone.
use patrolbot_dashboard.Base.{
  ℕ, Bool, true, false, not, ◌&&◌, ◌||◌, Option, none, some, List, [], ◌∷◌, or_default, if-holds,
  ◌≡◌, refl,
}
use patrolbot_dashboard.Base.TextDict.{look}
use patrolbot_dashboard.Protocol.Telemetry.{
  Connection, DiagnosticItem, DiagnosticsData, PoseData, BatteryData, BaseStateData, MotionData,
  MapData,
}
use patrolbot_dashboard.Broker.State.{Slice}
use patrolbot_dashboard.Store.State.{
  Settings, Severity, Alert, EventData, RobotState, Store, set, on_state, add_event, add_if,
}
use patrolbot_dashboard.Store.Diagnostics.{
  refresh_diagnostics, is_fault, changed_level, was_fault, record_item, record_items,
  record_diagnostics,
}
use patrolbot_dashboard.Store.Records.{
  unexplained_stop, update_stall, record_pose, is_low, record_battery, was_charging, charging_edge,
  connection_event, record_map, comes_online, same_connection, forget_diagnostics, set_connection,
}

pub data Emits {A : Type 0} (ok : Alert → Bool) (obs : RobotState → A) (s : Store)
    : Store → Type 0 where
  idle : Emits ok obs s s
  update :
      (t : Store) (r : RobotState)
      → obs r ≡ obs t.state
      → Emits ok obs s t
      → Emits ok obs s (record t { state = r })
  emit :
      (t : Store) (severity : Severity) (alert : Alert)
      → ok alert ≡ true
      → Emits ok obs s t
      → Emits ok obs s (add_event severity alert t)

-- What the calls that touch neither the base state nor the motion leave alone.
pub record Kept : Type 0 where
  pub prev_estop : Bool
  pub base_state : Slice BaseStateData
  pub motion : Slice MotionData
  pub events : List EventData

abbrev pub kept : RobotState → Kept
kept r = record {
  prev_estop = r.prev_estop;
  base_state = r.base_state;
  motion = r.motion;
  events = r.events;
}

abbrev pub is_estop : Alert → Bool
is_estop Alert.estop_pressed = true
is_estop Alert.estop_released = true
is_estop _ = false

abbrev pub other_alert : Alert → Bool
other_alert a = not (is_estop a)

abbrev pub Quiet : Store → Store → Type 0
Quiet = Emits other_alert kept

module _ {A : Type 0} (ok : Alert → Bool) (obs : RobotState → A) (u : Store) where
  pub emit_if :
      (b : Bool) (severity : Severity) (alert : Alert) (s : Store)
      → ok alert ≡ true
      → Emits ok obs u s
      → Emits ok obs u (add_if b severity alert s)
  emit_if b severity alert s h e =
      if-holds (Emits ok obs u) b _ s (Emits.emit s severity alert h e) e

module _ (u : Store) where
  Quiet-if :
      (b : Bool) (severity : Severity) (alert : Alert) (s : Store)
      → other_alert alert ≡ true
      → Quiet u s
      → Quiet u (add_if b severity alert s)
  Quiet-if = emit_if other_alert kept u

  pub update_stall-Quiet :
      (settings : Settings) (now : ℕ) (sample : PoseData) (s : Store)
      → Quiet u s
      → Quiet u (update_stall settings now sample s)
  unfolding update_stall
  update_stall-Quiet settings now sample s q =
      let waits : Quiet u (
          on_state
            (λ r. record r {
              stopped_since_mono = some (or_default now s.state.stopped_since_mono);
            })
            s) =
        Emits.update s _ refl q in
      if-holds (Quiet u) (not (unexplained_stop s.state sample)) _ _ (Emits.update s _ refl q) (
        if-holds (Quiet u) (s.state.stalled || _) _ _ waits
          (Emits.emit _ _ _ refl (Emits.update _ _ refl waits)))

  pub record_pose-Quiet :
      (settings : Settings) (now : ℕ) (sample : PoseData) (s : Store)
      → Quiet u s
      → Quiet u (record_pose settings now sample s)
  unfolding record_pose
  record_pose-Quiet settings now sample s q =
      update_stall-Quiet settings now sample (on_state (λ r. record r { pose = set now sample }) s)
        (Emits.update s _ refl q)

  pub record_battery-Quiet :
      (settings : Settings) (now : ℕ) (sample : BatteryData) (s : Store)
      → Quiet u s
      → Quiet u (record_battery settings now sample s)
  unfolding record_battery
  record_battery-Quiet settings now sample s q =
      charging_edge-Quiet (was_charging s.state.battery) sample.charging _ (
        Emits.update _ _ refl (
          Quiet-if (is_low settings sample && not s.state.prev_battery_low) _ _ _ refl
            (Emits.update s _ refl q)))
    where
      charging_edge-Quiet :
          (before : Option Bool) (after : Bool) (t : Store)
          → Quiet u t
          → Quiet u (charging_edge before after t)
      charging_edge-Quiet (some false) true t e = Emits.emit t _ _ refl e
      charging_edge-Quiet (some true) false t e = Emits.emit t _ _ refl e
      charging_edge-Quiet (some false) false t e = e
      charging_edge-Quiet (some true) true t e = e
      charging_edge-Quiet none after t e = e

  record_item-Quiet :
      (now : ℕ) (item : DiagnosticItem) (s : Store) → Quiet u s → Quiet u (record_item now item s)
  unfolding record_item
  record_item-Quiet now item s q =
      let previous = look item.name s.state.diag_levels in
      Emits.update _ _ refl (
        if-holds (Quiet u) (is_fault item.level && changed_level previous item.level) _ _
          (Emits.emit s _ _ refl q)
          (Quiet-if (not (is_fault item.level) && was_fault previous) _ _ s refl q))

  record_items-Quiet :
      (now : ℕ) (items : List DiagnosticItem) (s : Store)
      → Quiet u s
      → Quiet u (record_items now items s)
  unfolding record_items
  record_items-Quiet now [] s q = q
  record_items-Quiet now (item ∷ items) s q =
      record_items-Quiet now items _ (record_item-Quiet now item s q)

  pub refresh-Quiet :
      (settings : Settings) (now : ℕ) (s : Store)
      → Quiet u s
      → Quiet u (on_state (refresh_diagnostics settings now) s)
  unfolding refresh_diagnostics
  refresh-Quiet settings now s q = Emits.update s (refresh_diagnostics settings now s.state) refl q

  pub record_diagnostics-Quiet :
      (settings : Settings) (now : ℕ) (sample : DiagnosticsData) (s : Store)
      → Quiet u s
      → Quiet u (record_diagnostics settings now sample s)
  unfolding record_diagnostics
  record_diagnostics-Quiet settings now sample s q = Emits.update _ _ refl (
      refresh-Quiet settings now _
        (record_items-Quiet now sample.items _ (refresh-Quiet settings now s q)))

  pub record_map-Quiet :
      (now : ℕ) (sample : MapData) (s : Store) → Quiet u s → Quiet u (record_map now sample s)
  unfolding record_map
  record_map-Quiet now sample s q = Emits.emit _ _ _ refl (Emits.update s _ refl q)

  pub set_connection-Quiet :
      (state : Connection) (s : Store) → Quiet u s → Quiet u (set_connection state s)
  unfolding set_connection
  set_connection-Quiet state s q =
      if-holds (Quiet u) (same_connection state s.state.connection) s _ q (
        Emits.update _ _ refl (
          connection_event-Quiet state (comes_online state s.state.connection) _ (
            if-holds (Quiet u) (comes_online state s.state.connection) _ s
              (Emits.update s _ (unfold forget_diagnostics in refl) q) q)))
    where
      connection_event-Quiet :
          (c : Connection) (online : Bool) (t : Store)
          → Quiet u t
          → Quiet u (connection_event c online t)
      connection_event-Quiet Connection.online b t e = Quiet-if b _ _ t refl e
      connection_event-Quiet Connection.stale b t e = Quiet-if b _ _ t refl e
      connection_event-Quiet Connection.offline b t e = Emits.emit t _ _ refl e
