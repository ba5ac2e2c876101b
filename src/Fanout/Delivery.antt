-- ===== src/Fanout/Delivery.antt =====
-- What a browser receives: frames that must not be dropped arrive, each once and in order, unless
-- the client was condemned.
use patrolbot_dashboard.Base.{
  ℕ, suc, ◌≤◌, ◌<◌, ◌≡◌, ◌↔◌, refl, sym, ap, ◌∙◌, ◌⊎◌, inl, inr, String, Bool, true, false,
  false≢true, Option, none, some, List, [], ◌∷◌, ◌++◌, leb, length, length-append, all, arith,
  Bool-cases, leb→le,
}
use patrolbot_dashboard.Fanout.{
  Frame, queue_limit, BrowserClient, evict, offer_full, offer, send_next, send_from,
}

-- The protected frames among some frames, in order.
unfoldable pub protected_part : List Frame → List Frame
protected_part [] = []
protected_part ((frame, true) ∷ rest) = (frame, true) ∷ protected_part rest
protected_part ((frame, false) ∷ rest) = protected_part rest

pub protected_part-append :
    (xs ys : List Frame) → protected_part (xs ++ ys) ≡ protected_part xs ++ protected_part ys
unfolding protected_part
protected_part-append [] ys = refl
protected_part-append ((f, true) ∷ xs) ys = ap (◌∷◌ (f, true)) (protected_part-append xs ys)
protected_part-append ((f, false) ∷ xs) ys = protected_part-append xs ys

abbrev is_protected : Frame → Bool
is_protected f = f.1

-- What `evict` does to a queue: it takes one unprotected frame, or finds none.
abbrev Evicts : List Frame → Option (List Frame) → Type 0
Evicts xs none = all is_protected xs ≡ true
Evicts xs (some kept) =
    (protected_part kept ≡ protected_part xs)
    × (suc (length kept) ≡ length xs)
    × (all is_protected xs ≡ false)

kept_frame :
    (f : String) (xs : List Frame) (o : Option (List Frame))
    → Evicts xs o
    → Evicts ((f, true) ∷ xs) (elim o [ none ↦ none | some kept ↦ some ((f, true) ∷ kept) ])
unfolding protected_part
kept_frame f xs none e = e
kept_frame f xs (some kept) (p, l, a) = (ap (◌∷◌ (f, true)) p, ap suc l, a)

evict-Evicts : (xs : List Frame) → Evicts xs (evict xs)
unfolding evict protected_part
evict-Evicts [] = refl
evict-Evicts ((f, false) ∷ xs) = (refl, refl, refl)
evict-Evicts ((f, true) ∷ xs) = kept_frame f xs (evict xs) (evict-Evicts xs)

leb-false : (a b : ℕ) → leb a b ≡ false → b < a
leb-false a b h = ground arith

-- One offer on a live client: what becomes of the queue, by the room that it has.
abbrev Offered : BrowserClient → Frame → BrowserClient → Type 0
Offered c f d =
    ((d.overloaded ≡ false)
      × (protected_part d.queue ≡ protected_part (c.queue ++ f ∷ []))
      × (length d.queue ≤ queue_limit)
      × ((length c.queue < queue_limit) ⊎ (all is_protected c.queue ≡ false)))
    ⊎ ((d.overloaded ≡ true)
        × (d.queue ≡ c.queue)
        × (queue_limit ≤ length c.queue)
        × (all is_protected c.queue ≡ true))

offer_full-Offered :
    (c : BrowserClient) (f : Frame) (o : Option (List Frame))
    → evict c.queue ≡ o
    → Evicts c.queue o
    → c.overloaded ≡ false
    → queue_limit ≤ length c.queue
    → length c.queue ≤ queue_limit
    → Offered c f (offer_full c f)
unfolding offer_full
offer_full-Offered c f none e v live full room = rw (e, offer_full) (inr (refl, refl, full, v))
offer_full-Offered c f (some kept) e (p, l, a) live full room =
    rw (e, offer_full)
      (inl (
        live,
        protected_part-append kept (f ∷ [])
            ∙ ap (λ q. q ++ protected_part (f ∷ [])) p
            ∙ sym (protected_part-append c.queue (f ∷ [])),
        omega (arith, l, length-append kept (f ∷ [])),
        inr a,
      ))

offer-Offered :
    (c : BrowserClient) (f : Frame)
    → c.overloaded ≡ false
    → length c.queue ≤ queue_limit
    → Offered c f (offer c f)
unfolding offer
offer-Offered c f live room = elim (Bool-cases (leb queue_limit (length c.queue))) [
  | inl full ↦
      simp (live, full)
        (offer_full-Offered c f (evict c.queue) refl (evict-Evicts c.queue) live (leb→le _ _ full)
          room)
  | inr free ↦
      simp (live, free)
        (inl (
          refl,
          refl,
          omega (arith, length-append c.queue (f ∷ []), leb-false _ _ free),
          inl (leb-false _ _ free),
        ))
]

no_space :
    (c : BrowserClient)
    → (length c.queue ≡ queue_limit) × (all is_protected c.queue ≡ true)
    → ((length c.queue < queue_limit) ⊎ (all is_protected c.queue ≡ false))
    → ⊥
no_space c (full, p) (inl space) = omega arith
no_space c (full, p) (inr n) = false≢true (sym n ∙ p)

-- Offers never let a live queue grow beyond the limit, and a client is condemned exactly when its
-- queue is full of protected frames: then the queue is left as it was.
pub offer_bounded :
    (c : BrowserClient) (f : Frame)
    → c.overloaded ≡ false
    → length c.queue ≤ queue_limit
    → (length (offer c f).queue ≤ queue_limit)
      × (((offer c f).overloaded ≡ true)
          ↔ ((length c.queue ≡ queue_limit) × (all is_protected c.queue ≡ true)))
offer_bounded c f live room = elim (offer-Offered c f live room) [
  | inl (on, _, short, space) ↦
      (short, (λ over. absurd (false≢true (sym on ∙ over)), λ full. absurd (no_space c full space)))
  | inr (over, same, full, all_protected) ↦
      (rw same room, (λ _. (omega arith, all_protected), λ _. over))
]

abbrev pub sent_frame : Option Frame → List Frame → List Frame
sent_frame none rest = rest
sent_frame (some f) rest = f ∷ rest

send_from-protected :
    (c : BrowserClient) (q : List Frame)
    → c.queue ≡ q
    → c.overloaded ≡ false
    → let (d, out) = send_from c q in
      (d.overloaded ≡ false)
      × (protected_part (sent_frame out []) ++ protected_part d.queue ≡ protected_part q)
      × (length d.queue ≤ length q)
unfolding send_next protected_part
send_from-protected c [] e live = (live, ap protected_part e, omega (arith, ap length e))
send_from-protected c ((f, true) ∷ rest) e live = simp live (refl, refl, omega arith)
send_from-protected c ((f, false) ∷ rest) e live = simp live (refl, refl, omega arith)

pub send_next-protected :
    (c : BrowserClient)
    → c.overloaded ≡ false
    → let (d, out) = send_next c in
      (d.overloaded ≡ false)
      × (protected_part (sent_frame out []) ++ protected_part d.queue ≡ protected_part c.queue)
      × (length d.queue ≤ length c.queue)
unfolding send_next
send_next-protected c live = send_from-protected c c.queue refl live

pub live_offer :
    (c : BrowserClient) (f : Frame)
    → c.overloaded ≡ false
    → length c.queue ≤ queue_limit
    → (offer c f).overloaded ≡ false
    → protected_part (offer c f).queue ≡ protected_part c.queue ++ protected_part (f ∷ [])
live_offer c f live room on = elim (offer-Offered c f live room) [
  | inl (_, same, _, _) ↦ same ∙ protected_part-append c.queue (f ∷ [])
  | inr (over, _, _, _) ↦ absurd (false≢true (sym on ∙ over))
]

pub protected_part-sent :
    (out : Option Frame) (received : List Frame)
    → protected_part (sent_frame out received)
      ≡ protected_part (sent_frame out []) ++ protected_part received
unfolding protected_part
protected_part-sent none received = refl
protected_part-sent (some (f, true)) received = refl
protected_part-sent (some (f, false)) received = refl
