-- ===== src/Fanout/History.antt =====
-- Histories of a browser client: what its browser receives over any offers and sends.
use mathlib.Core.List.{append-nil, append_assoc}
use native.Mathlib.Nat.{le_trans}
use patrolbot_dashboard.Base.{
  ◌≤◌, ◌≡◌, sym, ap, ◌∙◌, inl, inr, true, false, false≢true, List, [], ◌∷◌, ◌++◌, length, arith,
  Bool-cases,
}
use patrolbot_dashboard.Fanout.Delivery.{
  protected_part, protected_part-append, offer_bounded, live_offer, send_next-protected, sent_frame,
  protected_part-sent,
}
use patrolbot_dashboard.Fanout.{Frame, queue_limit, BrowserClient, offer, send_next}

pub data Action : Type 0 where
  offers : Frame → Action
  sends : Action

-- A history of a client: the client at its end, and what its browser was sent, in order.
unfoldable pub run : BrowserClient → List Action → BrowserClient × List Frame
run c [] = (c, [])
run c (offers f ∷ rest) = run (offer c f) rest
run c (sends ∷ rest) =
    let (c', out) = send_next c in
    let (last, received) = run c' rest in (last, sent_frame out received)

abbrev pub offered : List Action → List Frame
offered [] = []
offered (offers f ∷ rest) = f ∷ offered rest
offered (sends ∷ rest) = offered rest

stays_overloaded :
    (c : BrowserClient) (actions : List Action)
    → c.overloaded ≡ true
    → (run c actions).0.overloaded ≡ true
unfolding run offer send_next
stays_overloaded c [] h = h
stays_overloaded c (offers f ∷ rest) h = stays_overloaded (offer c f) rest (ground arith)
stays_overloaded c (sends ∷ rest) h = stays_overloaded (send_next c).0 rest (ground arith)

alive_after :
    (c : BrowserClient) (actions : List Action)
    → (run c actions).0.overloaded ≡ false
    → c.overloaded ≡ false
alive_after c actions h = elim (Bool-cases c.overloaded) [
  | inl over ↦ absurd (false≢true (sym h ∙ stays_overloaded c actions over))
  | inr live ↦ live
]

-- For every history of offers and sends on a client within the queue's limit: if the client is not
-- condemned at the end, what its browser was sent and what still waits hold the protected frames
-- of the queue at the start and of the offers, each as often and in that order.
pub protected_delivered :
    (c : BrowserClient) (actions : List Action)
    → length c.queue ≤ queue_limit
    → (run c actions).0.overloaded ≡ false
    → protected_part (run c actions).1 ++ protected_part (run c actions).0.queue
      ≡ protected_part c.queue ++ protected_part (offered actions)
unfolding run
protected_delivered c [] room h = unfold protected_part in sym (append-nil (protected_part c.queue))
protected_delivered c (offers f ∷ rest) room h =
    let live = alive_after c (offers f ∷ rest) h in
    let ih = protected_delivered (offer c f) rest (offer_bounded c f live room).0 h in
    ih
    ∙ ap (λ q. q ++ protected_part (offered rest))
        (live_offer c f live room (alive_after (offer c f) rest h))
    ∙ append_assoc (protected_part c.queue) (protected_part (f ∷ []))
        (protected_part (offered rest))
    ∙ ap (λ q. protected_part c.queue ++ q) (sym (protected_part-append (f ∷ []) (offered rest)))
protected_delivered c (sends ∷ rest) room h =
    let live = alive_after c (sends ∷ rest) h in
    let (d, out) = send_next c in
    let (_, same, shorter) = send_next-protected c live in
    let ih = protected_delivered d rest (le_trans shorter room) h in
    let (last, received) = run d rest in
    ap (λ q. q ++ protected_part last.queue) (protected_part-sent out received)
    ∙ append_assoc (protected_part (sent_frame out [])) (protected_part received)
        (protected_part last.queue)
    ∙ ap (λ q. protected_part (sent_frame out []) ++ q) ih
    ∙ sym (
        append_assoc (protected_part (sent_frame out [])) (protected_part d.queue)
          (protected_part (offered rest)))
    ∙ ap (λ q. q ++ protected_part (offered rest)) same
