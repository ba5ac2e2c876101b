-- ===== src/Store/Diagnostics.antt =====
-- `_refresh_diagnostics` and `record_diagnostics` of server/app/telemetry/store.py: each named source
-- is kept until it recovers or ages out, and one that has been silent for too long shows as stale.
use Prim.Native.String.{◌++◌}
use patrolbot_dashboard.Base.{
  ℕ, ◌-◌, String, Bool, true, false, not, ◌&&◌, ◌||◌, Option, none, some, List, [], ◌∷◌, ltb, ◌==◌,
  if◌then◌else◌,
}
use patrolbot_dashboard.Base.Float.{Float, nano, lt}
use patrolbot_dashboard.Base.Text.{codes, codes_eq}
use patrolbot_dashboard.Base.TextDict.{look, write, remove}
use patrolbot_dashboard.Protocol.Telemetry.{DiagLevel, DiagnosticItem, DiagnosticsData}
use patrolbot_dashboard.Status.Line.{max_diagnostics_age_s}
use patrolbot_dashboard.Store.State.{
  Settings, Severity, Alert, Report, RobotState, Store, on_state, add_if,
}

abbrev pub retention_s : Float
retention_s = nano 150_000_000_000

-- `max(0.0, now - received)`.
abbrev pub source_age : ℕ → ℕ → Float
source_age now received = nano (now - received)

-- The message that replaces a silent source's own.
abbrev pub silent_message : String → String
silent_message name = "No recent report from " ++ name ++ "."

unfoldable pub same_level : DiagLevel → DiagLevel → Bool
same_level DiagLevel.ok DiagLevel.ok = true
same_level DiagLevel.warn DiagLevel.warn = true
same_level DiagLevel.error DiagLevel.error = true
same_level DiagLevel.stale DiagLevel.stale = true
same_level _ _ = false

-- The item as it shows at an age.
unfoldable pub shown : ℕ → Report → DiagnosticItem
unfolding same_level
shown now report =
    if lt max_diagnostics_age_s (source_age now report.received)
      && not (same_level report.item.level DiagLevel.stale)
    then record report.item { level = DiagLevel.stale; message = silent_message report.item.name }
    else report.item

-- Python's order of texts, by code points.
unfoldable pub codes_le : List ℕ → List ℕ → Bool
codes_le [] _ = true
codes_le (_ ∷ _) [] = false
codes_le (a ∷ s) (b ∷ t) = ltb a b || a == b && codes_le s t

-- The order by `(name.casefold(), name)`.
unfoldable pub name_le : (String → List ℕ) → DiagnosticItem → DiagnosticItem → Bool
unfolding codes_le codes_eq
name_le fold a b =
    if codes_eq (fold a.name) (fold b.name)
    then codes_le (codes a.name) (codes b.name)
    else codes_le (fold a.name) (fold b.name)

unfoldable pub insert_item :
    (String → List ℕ) → DiagnosticItem → List DiagnosticItem → List DiagnosticItem
unfolding name_le
insert_item fold x [] = x ∷ []
insert_item fold x (y ∷ ys) = if name_le fold x y then x ∷ (y ∷ ys) else y ∷ insert_item fold x ys

unfoldable pub sort_items : (String → List ℕ) → List DiagnosticItem → List DiagnosticItem
unfolding insert_item
sort_items fold [] = []
sort_items fold (x ∷ xs) = insert_item fold x (sort_items fold xs)

abbrev pub expired : ℕ → ℕ → Bool
expired now received = lt retention_s (source_age now received)

-- The sources that are kept, and the levels of the others.
unfoldable pub kept_sources : ℕ → List (String × Report) → List (String × Report)
kept_sources now [] = []
kept_sources now ((name, report) ∷ rest) =
    let kept = kept_sources now rest in
    if expired now report.received then kept else (name, report) ∷ kept

unfoldable pub kept_levels :
    ℕ → List (String × Report) → List (String × DiagLevel) → List (String × DiagLevel)
unfolding remove
kept_levels now [] levels = levels
kept_levels now ((name, report) ∷ rest) levels =
    kept_levels now rest (if expired now report.received then remove name levels else levels)

unfoldable pub shown_items : ℕ → List (String × Report) → List DiagnosticItem
unfolding shown
shown_items now [] = []
shown_items now ((name, report) ∷ rest) =
    let items = shown_items now rest in
    if expired now report.received then items else shown now report ∷ items

-- `DiagnosticsData(items=items) if items else None`.
abbrev pub report_of : List DiagnosticItem → Option DiagnosticsData
report_of [] = none
report_of (x ∷ xs) = some (record { items = x ∷ xs })

unfoldable pub refresh_diagnostics : Settings → ℕ → RobotState → RobotState
unfolding kept_sources kept_levels shown_items sort_items
refresh_diagnostics settings now r = record r {
  diagnostic_sources = kept_sources now r.diagnostic_sources;
  diag_levels = kept_levels now r.diagnostic_sources r.diag_levels;
  diagnostics = record r.diagnostics {
    value = report_of (sort_items settings.casefold (shown_items now r.diagnostic_sources));
  };
}

-- WARN, ERROR and STALE.
abbrev pub is_fault : DiagLevel → Bool
is_fault DiagLevel.ok = false
is_fault _ = true

unfoldable pub changed_level : Option DiagLevel → DiagLevel → Bool
unfolding same_level
changed_level none level = true
changed_level (some previous) level = not (same_level previous level)

abbrev pub was_fault : Option DiagLevel → Bool
was_fault none = false
was_fault (some level) = is_fault level

abbrev pub fault_severity : DiagLevel → Severity
fault_severity DiagLevel.error = Severity.critical
fault_severity _ = Severity.warning

-- The alert that one item raises, and its note in the two dictionaries.
unfoldable pub record_item : ℕ → DiagnosticItem → Store → Store
unfolding look write changed_level
record_item now item s =
    let previous = look item.name s.state.diag_levels in
    on_state
      (λ r. record r {
        diag_levels = write item.name item.level r.diag_levels;
        diagnostic_sources =
            write item.name (record { item = item; received = now }) r.diagnostic_sources;
      })
      (if is_fault item.level && changed_level previous item.level
        then add_if true (fault_severity item.level) (Alert.needs_attention item.name item.message)
            s
        else add_if (not (is_fault item.level) && was_fault previous) Severity.info
            (Alert.recovered item.name) s)

unfoldable pub record_items : ℕ → List DiagnosticItem → Store → Store
unfolding record_item
record_items now [] s = s
record_items now (item ∷ items) s = record_items now items (record_item now item s)

unfoldable pub record_diagnostics : Settings → ℕ → DiagnosticsData → Store → Store
unfolding refresh_diagnostics record_items
record_diagnostics settings now sample s =
    on_state (λ r. record r { diagnostics = record r.diagnostics { received_mono = some now } })
      (on_state (refresh_diagnostics settings now)
        (record_items now sample.items (on_state (refresh_diagnostics settings now) s)))
