-- ===== src/Fanout/Examples.antt =====
-- The browser queue at concrete frames.
use patrolbot_dashboard.Base.{
  ◌≤◌, ◌≡◌, ◌↔◌, refl, true, false, List, [], ◌∷◌, ◌++◌, length, all, arith, some,
}
use patrolbot_dashboard.Fanout.{queue_limit, init, offer, evict, send_next}
use patrolbot_dashboard.Fanout.Delivery.{offer_bounded, protected_part}
use patrolbot_dashboard.Fanout.History.{Action, offers, sends, run, protected_delivered}

evicts_oldest :
    evict (("event", true) ∷ ("pose", false) ∷ ("lidar", false) ∷ [])
    ≡ some (("event", true) ∷ ("lidar", false) ∷ [])
unfolding evict
evicts_oldest = refl

abbrev busy : List Action
busy = offers ("pose", false) ∷ offers ("ack", true) ∷ sends ∷ offers ("result", true) ∷ []

busy_alive : (run init busy).0.overloaded ≡ false
unfolding run init offer send_next
busy_alive = refl

offer_bounded_example :
    (length (offer init ("ack", true)).queue ≤ queue_limit)
    × (((offer init ("ack", true)).overloaded ≡ true)
        ↔ ((length init.queue ≡ queue_limit) × (all (λ f. f.1) init.queue ≡ true)))
unfolding init
offer_bounded_example = offer_bounded init ("ack", true) refl (omega arith)

protected_delivered_example :
    protected_part (run init busy).1 ++ protected_part (run init busy).0.queue
    ≡ ("ack", true) ∷ ("result", true) ∷ []
unfolding init protected_part
protected_delivered_example = protected_delivered init busy (omega arith) busy_alive
