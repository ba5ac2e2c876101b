-- ===== src/Tuning/Recent.antt =====
-- The ids that server/app/tuning/broker.py remembers, under its three changes of them.
use patrolbot_dashboard.Base.{
  ℕ, zero, suc, ◌+◌, ◌-◌, ◌≤◌, ◌≢◌, true, ◌==◌, ==_iff, List, [], ◌∷◌, ltb, take, if-holds,
  if-split, if◌then◌else◌, ◌≡◌, sym, ◌⊎◌, inl, inr, arith, ◌∙◌,
}
use patrolbot_dashboard.Base.Dict.{pop}
use patrolbot_dashboard.Tuning.{drop_old, has}

-- Among its first entries, a list of ids has one that is of no earlier time.
abbrev pub Within : ℕ → ℕ → ℕ → List (ℕ × ℕ) → Type 0
Within zero j u seen = ⊥
Within (suc n) j u [] = ⊥
Within (suc n) j u ((k, v) ∷ seen) = ((k ≡ j) × (u ≤ v)) ⊎ Within n j u seen

module _ (j u : ℕ) where
  pub Within-more : (n : ℕ) (seen : List (ℕ × ℕ)) → Within n j u seen → Within (suc n) j u seen
  Within-more zero seen w = absurd w
  Within-more (suc n) [] w = absurd w
  Within-more (suc n) ((k, v) ∷ seen) (inl h) = inl h
  Within-more (suc n) ((k, v) ∷ seen) (inr h) = inr (Within-more n seen h)

  pub Within-pop :
      (n i : ℕ) (seen : List (ℕ × ℕ)) → j ≢ i → Within n j u seen → Within n j u (pop i seen)
  unfolding pop
  Within-pop zero i seen d w = absurd w
  Within-pop (suc n) i [] d w = absurd w
  Within-pop (suc n) i ((k, v) ∷ seen) d (inl (e, h)) =
      if-split (Within (suc n) j u) (k == i) _ _ (λ same. absurd (d (sym e ∙ (==_iff k i).0 same)))
        (λ other. inl (e, h))
  Within-pop (suc n) i ((k, v) ∷ seen) d (inr h) =
      if-holds (Within (suc n) j u) (k == i) _ _
        (Within-more n (pop i seen) (Within-pop n i seen d h)) (inr (Within-pop n i seen d h))

  pub Within-drop :
      (n now ttl : ℕ) (seen : List (ℕ × ℕ))
      → now ≤ u + ttl
      → Within n j u seen
      → Within n j u (drop_old now ttl seen)
  unfolding drop_old
  Within-drop zero now ttl seen fresh w = absurd w
  Within-drop (suc n) now ttl [] fresh w = absurd w
  Within-drop (suc n) now ttl ((k, v) ∷ seen) fresh (inl (e, h)) = found (drop_old now ttl seen)
    where
      found :
          (rest : List (ℕ × ℕ))
          → Within (suc n) j u (elim rest [
            | [] ↦ if ltb v (now - ttl) then [] else (k, v) ∷ []
            | x ∷ xs ↦ (k, v) ∷ (x ∷ xs)
          ])
      found [] =
          if-split (Within (suc n) j u) (ltb v (now - ttl)) [] _ (λ old. ground arith)
            (λ recent. inl (e, h))
      found (x ∷ xs) = inl (e, h)
  Within-drop (suc n) now ttl ((k, v) ∷ seen) fresh (inr h) =
      behind n (drop_old now ttl seen) (Within-drop n now ttl seen fresh h)
    where
      behind :
          (m : ℕ) (rest : List (ℕ × ℕ))
          → Within m j u rest
          → Within (suc m) j u (elim rest [
            | [] ↦ if ltb v (now - ttl) then [] else (k, v) ∷ []
            | x ∷ xs ↦ (k, v) ∷ (x ∷ xs)
          ])
      behind zero rest w = absurd w
      behind (suc m) [] w = absurd w
      behind (suc m) (x ∷ xs) w = inr w

  pub Within-take :
      (n limit : ℕ) (seen : List (ℕ × ℕ))
      → n ≤ limit
      → Within n j u seen
      → Within n j u (take limit seen)
  Within-take zero limit seen h w = absurd w
  Within-take (suc n) zero [] h w = absurd w
  Within-take (suc n) (suc limit) [] h w = absurd w
  Within-take (suc n) zero ((k, v) ∷ seen) h w = ground arith
  Within-take (suc n) (suc limit) ((k, v) ∷ seen) h (inl w) = inl w
  Within-take (suc n) (suc limit) ((k, v) ∷ seen) h (inr w) =
      inr (Within-take n limit seen (omega (arith, h)) w)

  pub Within-has : (n : ℕ) (seen : List (ℕ × ℕ)) → Within n j u seen → has j seen ≡ true
  Within-has zero seen w = absurd w
  Within-has (suc n) [] w = absurd w
  Within-has (suc n) ((k, v) ∷ seen) (inl (e, h)) = ground arith
  Within-has (suc n) ((k, v) ∷ seen) (inr w) = ground (arith, Within-has n seen w)
