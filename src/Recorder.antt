-- ===== src/Recorder.antt =====
-- `Recorder` of server/app/recordings/recorder.py: samples of the chosen channels go to the background
-- writer while a recording is active. The database's answer to `start_recording` is a parameter, the
-- id of the row if there is one; a write stands for the sample that it stores.
pub mod Limits
mod Examples
use patrolbot_dashboard.Base.{
  ℕ, ◌+◌, Bool, true, false, not, ◌&&◌, ◌||◌, Option, none, some, List, [], ◌∷◌, String, leb,
  is_none, is_some, if◌then◌else◌, ◌≡◌, refl,
}
use patrolbot_dashboard.Base.Float.{Float, nano, lt, sub}
use patrolbot_dashboard.Base.Text.{contains}
use text.Mathlib.Text.{◌==◌ as str_eq}
use patrolbot_dashboard.Writer.{BackgroundWriter, submit, stop_begin}
use patrolbot_dashboard.Writer

pub record Recorder : Type 0 where
  pub has_db : Bool
  pub active : Option ℕ
  pub channels : List String
  pub last_mono : List (String × Float)
  pub samples : ℕ
  pub writer : BackgroundWriter

-- The value under the latest entry of a key.
abbrev pub lookup : {A : Type 0} → A → String → List (String × A) → A
lookup d k [] = d
lookup d k ((j, v) ∷ m) = let rest = lookup d k m in if str_eq k j then v else rest

abbrev pub channel_intervals : List (String × Float)
channel_intervals =
    ("pose", nano 500_000_000)
    ∷ ("lidar", nano 1_000_000_000)
    ∷ ("path", nano 1_000_000_000)
    ∷ ("base_state", nano 1_000_000_000)
    ∷ ("diagnostics", nano 5_000_000_000)
    ∷ ("battery", nano 5_000_000_000)
    ∷ ("event", nano 0)
    ∷ []

abbrev names_in : {A : Type 0} → List (String × A) → List String
names_in [] = []
names_in ((k, _) ∷ m) = k ∷ names_in m

abbrev pub default_channels : List String
default_channels = "pose" ∷ "battery" ∷ "event" ∷ []

abbrev pub max_samples : ℕ
max_samples = 100_000

abbrev known : List String → List String
known [] = []
known (c ∷ cs) =
    let rest = known cs in if contains c (names_in channel_intervals) then c ∷ rest else rest

abbrev or_default_channels : List String → List String
or_default_channels [] = default_channels
or_default_channels (c ∷ cs) = c ∷ cs

-- The channels that `start` records; `None` and an empty list ask for the default.
unfoldable pub wanted : Option (List String) → List String
wanted none = or_default_channels (known default_channels)
wanted (some cs) = or_default_channels (known (or_default_channels cs))

unfoldable pub start_row : Recorder → List String → Option ℕ → Recorder × Option ℕ
start_row r cs none = (r, none)
start_row r cs (some row) =
    (record r { active = some row; channels = cs; last_mono = []; samples = 0 }, some row)

unfoldable pub start : Recorder → Option (List String) → Option ℕ → Recorder × Option ℕ
unfolding start_row wanted
start r channels row =
    if not r.has_db || is_some r.active then (r, none) else start_row r (wanted channels) row

-- `stop` up to the flush, which waits for the writer.
unfoldable pub stop : Recorder → Recorder
stop r = if not r.has_db || is_none r.active then r else record r { active = none }

unfoldable pub shutdown : Recorder → Recorder
unfolding stop_begin
shutdown r = record r { writer = stop_begin r.writer }

abbrev count : Recorder → BackgroundWriter × Bool → Recorder
count r (w, stored) = record r { writer = w; samples = if stored then r.samples + 1 else r.samples }

unfoldable pub store : Recorder → ℕ → Recorder
store r write =
    let answer = submit r.writer write in if leb max_samples r.samples then r else count r answer

unfoldable pub offer_at : Recorder → String → Float → ℕ → Float → Recorder
unfolding store
offer_at r kind now write interval =
    if lt (nano 0) interval && lt (sub now (lookup (nano 0) kind r.last_mono)) interval
    then r
    else store (record r { last_mono = (kind, now) ∷ r.last_mono }) write

unfoldable pub offer : Recorder → String → Float → ℕ → Recorder
unfolding offer_at
offer r kind now write =
    if not r.has_db || is_none r.active || not (contains kind r.channels)
    then r
    else offer_at r kind now write (lookup (nano 1_000_000_000) kind channel_intervals)

pub data Event : Type 0 where
  starts : Option (List String) → Option ℕ → Event
  stops shuts_down : Event
  offers : String → Float → ℕ → Event
  runs : Writer.Event → Event

unfoldable pub step : Event → Recorder → Recorder
unfolding start stop shutdown offer
step (starts channels row) r = (start r channels row).0
step stops r = stop r
step shuts_down r = shutdown r
step (offers kind now write) r = offer r kind now write
step (runs e) r = record r { writer = Writer.step e r.writer }
