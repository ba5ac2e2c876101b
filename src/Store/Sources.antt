-- ===== src/Store/Sources.antt =====
-- What the diagnostics of server/app/telemetry/store.py show of the named sources.
use patrolbot_dashboard.Base.{
  ◌-◌, ℕ, String, Bool, true, false, not, ◌&&◌, Option, none, some, List, [], ◌∷◌, All, In,
  if-holds, if-split, not-true, not-false, and_true, and_false, ◌≡◌, refl, ap, ◌∙◌, sym, subst, ◌⊎◌,
  inl, inr, arith,
}
use patrolbot_dashboard.Base.Float.{nano, lt}
use patrolbot_dashboard.Base.TextDict.{look, look-write_other}
use text.Mathlib.Text.{◌==◌ as str_eq}
use patrolbot_dashboard.Protocol.Telemetry.{DiagLevel, stale, DiagnosticItem, DiagnosticsData}
use patrolbot_dashboard.Status.Line.{max_diagnostics_age_s}
use patrolbot_dashboard.Store.State.{
  Settings, Severity, Alert, Report, RobotState, Store, on_state, add_event,
}
use patrolbot_dashboard.Store.Diagnostics.{
  source_age, same_level, shown, name_le, insert_item, sort_items, expired, kept_sources,
  shown_items, report_of, refresh_diagnostics, is_fault, changed_level, was_fault, record_item,
  record_items, record_diagnostics,
}

-- The items of a report, none if there is no report.
abbrev pub items_of : Option DiagnosticsData → List DiagnosticItem
items_of none = []
items_of (some d) = d.items

items-report_of : (xs : List DiagnosticItem) → items_of (report_of xs) ≡ xs
items-report_of [] = refl
items-report_of (x ∷ xs) = refl

-- ------------------------------------------------------------------ sorting

insert-In :
    (fold : String → List ℕ) (x y : DiagnosticItem) (ys : List DiagnosticItem)
    → In x (y ∷ ys)
    → In x (insert_item fold y ys)
unfolding insert_item
insert-In fold x y [] h = h
insert-In fold x y (z ∷ zs) (inl e) =
    if-holds (In x) (name_le fold y z) _ _ (inl e) (inr (insert-In fold x y zs (inl e)))
insert-In fold x y (z ∷ zs) (inr (inl e)) =
    if-holds (In x) (name_le fold y z) _ _ (inr (inl e)) (inl e)
insert-In fold x y (z ∷ zs) (inr (inr h)) =
    if-holds (In x) (name_le fold y z) _ _ (inr (inr h)) (inr (insert-In fold x y zs (inr h)))

sort-In :
    (fold : String → List ℕ) (x : DiagnosticItem) (xs : List DiagnosticItem)
    → In x xs
    → In x (sort_items fold xs)
unfolding sort_items
sort-In fold x [] h = absurd h
sort-In fold x (y ∷ ys) (inl e) = insert-In fold x y _ (inl e)
sort-In fold x (y ∷ ys) (inr h) = insert-In fold x y _ (inr (sort-In fold x ys h))

module _ (P : DiagnosticItem → Type 0) where
  insert-All :
      (fold : String → List ℕ) (y : DiagnosticItem) (ys : List DiagnosticItem)
      → P y
      → All P ys
      → All P (insert_item fold y ys)
  unfolding insert_item
  insert-All fold y [] p a = (p, tt)
  insert-All fold y (z ∷ zs) p (q, a) =
      if-holds (All P) (name_le fold y z) _ _ (p, (q, a)) (q, insert-All fold y zs p a)

  sort-All :
      (fold : String → List ℕ) (xs : List DiagnosticItem) → All P xs → All P (sort_items fold xs)
  unfolding sort_items
  sort-All fold [] a = tt
  sort-All fold (x ∷ xs) (p, a) = insert-All fold x _ p (sort-All fold xs a)

-- ------------------------------------------------------------------ sources that are kept

kept-look :
    (now : ℕ) (name : String) (report : Report) (sources : List (String × Report))
    → look name sources ≡ some report
    → expired now report.received ≡ false
    → look name (kept_sources now sources) ≡ some report
unfolding kept_sources look
kept-look now name report [] h fresh = h
kept-look now name report ((j, other) ∷ rest) h fresh =
    ground (arith, kept-look now name report rest)

shown-look :
    (now : ℕ) (name : String) (report : Report) (sources : List (String × Report))
    → look name sources ≡ some report
    → expired now report.received ≡ false
    → In (shown now report) (shown_items now sources)
unfolding shown_items look
shown-look now name report [] h fresh = ground arith
shown-look now name report ((j, other) ∷ rest) h fresh =
    ground (arith, shown-look now name report rest)

-- ------------------------------------------------------------------ what a report changes

-- No item of a report is of a name.
abbrev pub unnamed : String → List DiagnosticItem → Bool
unnamed name [] = true
unnamed name (item ∷ items) = not (str_eq item.name name) && unnamed name items

add_event-sources :
    (severity : Severity) (alert : Alert) (s : Store)
    → (add_event severity alert s).state.diagnostic_sources ≡ s.state.diagnostic_sources
unfolding add_event
add_event-sources severity alert s = refl

record_item-look :
    (now : ℕ) (name : String) (item : DiagnosticItem) (s : Store)
    → str_eq item.name name ≡ false
    → look name (record_item now item s).state.diagnostic_sources
      ≡ look name s.state.diagnostic_sources
unfolding record_item
record_item-look now name item s other =
    let previous = look item.name s.state.diag_levels in
    look-write_other item.name name _ _ other
    ∙ ap (look name) (
        if-holds (λ (t : Store). t.state.diagnostic_sources ≡ s.state.diagnostic_sources)
          (is_fault item.level && changed_level previous item.level) _ _ (add_event-sources _ _ s)
          (if-holds (λ (t : Store). t.state.diagnostic_sources ≡ s.state.diagnostic_sources)
            (not (is_fault item.level) && was_fault previous) _ s (add_event-sources _ _ s) refl))

record_items-look :
    (now : ℕ) (name : String) (items : List DiagnosticItem) (s : Store)
    → unnamed name items ≡ true
    → look name (record_items now items s).state.diagnostic_sources
      ≡ look name s.state.diagnostic_sources
unfolding record_items
record_items-look now name [] s h = refl
record_items-look now name (item ∷ items) s h =
    let (p, q) = and_true (not (str_eq item.name name)) (unnamed name items) h in
    record_items-look now name items (record_item now item s) q
    ∙ record_item-look now name item s (not-true _ p)

refresh-look :
    (settings : Settings) (now : ℕ) (name : String) (report : Report) (r : RobotState)
    → look name r.diagnostic_sources ≡ some report
    → expired now report.received ≡ false
    → look name (refresh_diagnostics settings now r).diagnostic_sources ≡ some report
unfolding refresh_diagnostics
refresh-look settings now name report r = kept-look now name report r.diagnostic_sources

refresh-In :
    (settings : Settings) (now : ℕ) (name : String) (report : Report) (r : RobotState)
    → look name r.diagnostic_sources ≡ some report
    → expired now report.received ≡ false
    → In (shown now report) (items_of (refresh_diagnostics settings now r).diagnostics.value)
unfolding refresh_diagnostics
refresh-In settings now name report r h fresh =
    let items = shown_items now r.diagnostic_sources in
    subst (In (shown now report)) (sym (items-report_of (sort_items settings.casefold items))) (
      sort-In settings.casefold (shown now report) items
        (shown-look now name report r.diagnostic_sources h fresh))

-- A diagnostic report leaves every source alone that it does not name: if the source was known and
-- was heard of within the retention time, it is still known with its report, and the diagnostics
-- that follow show its item, marked as stale if it is silent for too long. So a healthy publisher
-- never clears the fault of another.
pub record_diagnostics_others :
    (settings : Settings) (now : ℕ) (sample : DiagnosticsData) (name : String) (report : Report)
    (s : Store)
    → look name s.state.diagnostic_sources ≡ some report
    → lt (nano 150_000_000_000) (nano (now - report.received)) ≡ false
    → unnamed name sample.items ≡ true
    → let r = (record_diagnostics settings now sample s).state in
      (look name r.diagnostic_sources ≡ some report)
      × In (shown now report) (items_of r.diagnostics.value)
unfolding record_diagnostics
record_diagnostics_others settings now sample name report s h fresh other =
    let first = on_state (refresh_diagnostics settings now) s in
    let noted = record_items now sample.items first in
    let still : look name noted.state.diagnostic_sources ≡ some report =
      record_items-look now name sample.items first other
      ∙ refresh-look settings now name report s.state h fresh in
    (
      refresh-look settings now name report noted.state still fresh,
      refresh-In settings now name report noted.state still fresh,
    )

-- A shown item is stale, or it is the item of a source that was heard of in time.
abbrev pub Vouched : ℕ → List (String × Report) → DiagnosticItem → Type 0
Vouched now sources item =
    (item.level ≡ stale)
    ⊎ ((entry : String × Report) × In entry sources
        × (item ≡ entry.1.item)
        × (lt max_diagnostics_age_s (source_age now entry.1.received) ≡ false))

same_level_stale : (level : DiagLevel) → same_level level stale ≡ true → level ≡ stale
unfolding same_level
same_level_stale level h = ground arith

shown-Vouched :
    (now : ℕ) (sources : List (String × Report)) (entry : String × Report)
    → In entry sources
    → Vouched now sources (shown now entry.1)
unfolding shown
shown-Vouched now sources entry here =
    let silent = lt max_diagnostics_age_s (source_age now entry.1.received) in
    let marked = same_level entry.1.item.level stale in
    if-split (Vouched now sources) (silent && not marked) _ entry.1.item (λ h. inl refl)
      (λ h. elim (and_false silent (not marked) h) [
        | inl heard ↦ inr (entry, here, refl, heard)
        | inr already ↦ inl (same_level_stale entry.1.item.level (not-false marked already))
      ])

shown_items-Vouched :
    (now : ℕ) (all rest : List (String × Report))
    → ((entry : String × Report) → In entry rest → In entry all)
    → All (Vouched now all) (shown_items now rest)
unfolding shown_items
shown_items-Vouched now all [] sub = tt
shown_items-Vouched now all (entry ∷ rest) sub =
    if-holds (All (Vouched now all)) (expired now entry.1.received) _ _
      (shown_items-Vouched now all rest (λ e h. sub e (inr h)))
      (
        shown-Vouched now all entry (sub entry (inl refl)),
        shown_items-Vouched now all rest (λ e h. sub e (inr h)),
      )

-- After every refresh, an item that the diagnostics show is stale, or it is the unchanged item of a
-- source whose last report is at most 30 seconds old: no silent publisher shows as healthy.
pub refresh-Vouched :
    (settings : Settings) (now : ℕ) (r : RobotState)
    → All
        (Vouched now r.diagnostic_sources)
        (items_of (refresh_diagnostics settings now r).diagnostics.value)
unfolding refresh_diagnostics
refresh-Vouched settings now r =
    let items = shown_items now r.diagnostic_sources in
    subst (All (Vouched now r.diagnostic_sources))
      (sym (items-report_of (sort_items settings.casefold items)))
      (sort-All (Vouched now r.diagnostic_sources) settings.casefold items
        (shown_items-Vouched now r.diagnostic_sources r.diagnostic_sources (λ e h. h)))
