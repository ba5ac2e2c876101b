-- ===== src/Fanout.antt =====
-- `BrowserClient` of server/app/telemetry/hub.py: the outbound queue of one browser. A frame is
-- a text with a flag that says whether it must never be dropped. `_wakeup` only schedules the
-- sender, which is the function `send_next` here, one round of its loop.
pub mod Delivery
pub mod History
mod Examples
use patrolbot_dashboard.Base.{
  ℕ, suc, ◌+◌, String, Bool, true, false, not, ◌&&◌, Option, none, some, List, [], ◌∷◌, ◌++◌, leb,
  length, if◌then◌else◌,
}

abbrev pub Frame : Type 0
Frame = String × Bool

abbrev pub queue_limit : ℕ
queue_limit = 64

pub record BrowserClient : Type 0 where
  pub queue : List Frame
  pub overloaded : Bool
  pub dropped : ℕ

unfoldable pub init : BrowserClient
init = record { queue = []; overloaded = false; dropped = 0 }

-- The queue without its oldest unprotected frame, if it has one.
unfoldable pub evict : List Frame → Option (List Frame)
evict [] = none
evict ((frame, false) ∷ rest) = some rest
evict ((frame, true) ∷ rest) = elim (evict rest) [
  | none ↦ none
  | some kept ↦ some ((frame, true) ∷ kept)
]

unfoldable pub append : BrowserClient → Frame → BrowserClient
append c f = record c { queue = c.queue ++ f ∷ [] }

-- `offer` on a client that is not overloaded and whose queue is full.
unfoldable pub offer_full : BrowserClient → Frame → BrowserClient
unfolding append evict
offer_full c f = elim (evict c.queue) [
  | none ↦ record c { overloaded = true }
  | some kept ↦ append (record c { queue = kept; dropped = c.dropped + 1 }) f
]

unfoldable pub offer : BrowserClient → Frame → BrowserClient
unfolding append offer_full
offer c f =
    if c.overloaded
    then c
    else if leb queue_limit (length c.queue)
    then offer_full c f
    else append c f

-- One round of the sender: an overloaded client is closed and sends nothing more.
unfoldable pub send_from : BrowserClient → List Frame → BrowserClient × Option Frame
send_from c [] = (c, none)
send_from c (f ∷ rest) = if c.overloaded then (c, none) else (record c { queue = rest }, some f)

unfoldable pub send_next : BrowserClient → BrowserClient × Option Frame
unfolding send_from
send_next c = send_from c c.queue
