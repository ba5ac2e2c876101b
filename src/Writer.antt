-- ===== src/Writer.antt =====
-- `BackgroundWriter` of server/app/database/writer.py: a bounded queue of writes and the worker
-- tasks that drain it. Writes are numbered. A worker is a task of the event loop, named by its place
-- in `workers`; it waits in `get`, awaits a write, or has ended. The tallies at the end of the record
-- are the model's own, for what the code only counts or leaves to the database.
pub mod Accepted
pub mod Order
pub mod Ledger
pub mod Health
mod Examples
use patrolbot_dashboard.Base.{
  ℕ, zero, suc, ◌+◌, ◌-◌, Bool, true, false, not, ◌&&◌, Option, none, some, List, [], ◌∷◌, ◌++◌,
  length, leb, ◌==◌, if◌then◌else◌, maybe, is_none, ◌≡◌, refl,
}

pub data Worker : Type 0 where
  waiting ended : Worker
  writing : ℕ → Worker

pub record BackgroundWriter : Type 0 where
  pub maxsize : ℕ
  pub queue : List ℕ
  pub unfinished : ℕ
  pub workers : List Worker
  pub task : Option ℕ
  pub dropped : ℕ
  pub failed : ℕ
  pub accepted : List ℕ
  pub taken : List ℕ
  pub written : ℕ
  pub abandoned : ℕ

abbrev pub default_maxsize : ℕ
default_maxsize = 256

-- `__init__`.
unfoldable pub new_writer : ℕ → BackgroundWriter
new_writer maxsize = record {
  maxsize = maxsize;
  queue = [];
  unfinished = 0;
  workers = [];
  task = none;
  dropped = 0;
  failed = 0;
  accepted = [];
  taken = [];
  written = 0;
  abandoned = 0;
}

abbrev pub worker_at : ℕ → List Worker → Worker
worker_at k [] = ended
worker_at zero (w ∷ ws) = w
worker_at (suc k) (w ∷ ws) = worker_at k ws

abbrev pub set_worker : ℕ → Worker → List Worker → List Worker
set_worker k v [] = []
set_worker zero v (w ∷ ws) = v ∷ ws
set_worker (suc k) v (w ∷ ws) = w ∷ set_worker k v ws

-- A task that ended is done.
abbrev pub is_ended : Worker → Bool
is_ended ended = true
is_ended _ = false

abbrev pub running : BackgroundWriter → Bool
running s = maybe false (λ k. not (is_ended (worker_at k s.workers))) s.task

abbrev pub pending : BackgroundWriter → ℕ
pending s = length s.queue

unfoldable pub healthy : BackgroundWriter → Bool
healthy s = s.dropped == 0 && s.failed == 0

unfoldable pub start : BackgroundWriter → BackgroundWriter
start s =
    if running s
    then s
    else record s { workers = s.workers ++ (waiting ∷ []); task = some (length s.workers) }

-- `put_nowait` of `submit`, which fails on a full queue; a maximum of 0 is no maximum.
unfoldable pub put : BackgroundWriter → ℕ → BackgroundWriter × Bool
put s w =
    if not (s.maxsize == 0) && leb s.maxsize (length s.queue)
    then (record s { dropped = s.dropped + 1 }, false)
    else (
      record s {
        queue = s.queue ++ (w ∷ []);
        unfinished = s.unfinished + 1;
        accepted = s.accepted ++ (w ∷ []);
      },
      true,
    )

unfoldable pub submit : BackgroundWriter → ℕ → BackgroundWriter × Bool
unfolding put start
submit s w = put (if is_none s.task then start s else s) w

-- A worker that waits takes the oldest write.
unfoldable pub take_next : BackgroundWriter → ℕ → List ℕ → BackgroundWriter
take_next s k [] = s
take_next s k (w ∷ queue) = record s {
  queue = queue;
  workers = set_worker k (writing w) s.workers;
  taken = s.taken ++ (w ∷ []);
}

unfoldable pub get_next : BackgroundWriter → ℕ → Worker → BackgroundWriter
unfolding take_next
get_next s k waiting = take_next s k s.queue
get_next s k _ = s

-- A write comes to its end: `true` when it succeeded.
unfoldable pub end_write : BackgroundWriter → ℕ → Bool → Worker → BackgroundWriter
end_write s k true (writing w) = record s {
  unfinished = s.unfinished - 1;
  workers = set_worker k waiting s.workers;
  written = s.written + 1;
}
end_write s k false (writing w) = record s {
  unfinished = s.unfinished - 1;
  workers = set_worker k waiting s.workers;
  failed = s.failed + 1;
}
end_write s k ok _ = s

-- `task.cancel()`: the write that was awaited is taken off the queue's books.
unfoldable pub cancel : BackgroundWriter → ℕ → Worker → BackgroundWriter
cancel s k waiting = record s { workers = set_worker k ended s.workers }
cancel s k (writing w) = record s {
  unfinished = s.unfinished - 1;
  workers = set_worker k ended s.workers;
  abandoned = s.abandoned + 1;
}
cancel s k ended = s

-- `stop` lets go of the task at once and cancels it after the drain or its timeout; in between the
-- event loop runs other steps. `join` returns when nothing is unfinished.
unfoldable pub stop_begin : BackgroundWriter → BackgroundWriter
stop_begin s = record s { task = none }

abbrev pub drained : BackgroundWriter → Bool
drained s = s.unfinished == 0

-- What the event loop may run next.
pub data Event : Type 0 where
  starts stops : Event
  submits : ℕ → Event
  gets cancels : ℕ → Event
  ends : ℕ → Bool → Event

unfoldable pub step : Event → BackgroundWriter → BackgroundWriter
unfolding start submit get_next end_write cancel stop_begin
step starts s = start s
step stops s = stop_begin s
step (submits w) s = (submit s w).0
step (gets k) s = get_next s k (worker_at k s.workers)
step (cancels k) s = cancel s k (worker_at k s.workers)
step (ends k ok) s = end_write s k ok (worker_at k s.workers)

abbrev pub run : List Event → BackgroundWriter → BackgroundWriter
run [] s = s
run (e ∷ events) s = run events (step e s)
