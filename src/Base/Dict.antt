-- ===== src/Base/Dict.antt =====
-- A Python dictionary over identifiers, as an association list in insertion order: a key that is
-- written again keeps its place, a new key goes to the end, and `pop` removes a key.
use Prim.Native.Nat.{ℕ}
use mathlib.Core.Path.{◌≡◌, refl}
use mathlib.Core.Logic.{◌≢◌, inl, inr}
use mathlib.Core.List.{List, [], ◌∷◌}
use mathlib.Core.Option.{Option, none, some}
use native.Mathlib.Omega.{arith}
use patrolbot_dashboard.Base.Tests.{◌==◌, ==_iff, Bool-cases, if-holds, if◌then◌else◌}

module _ {ℓ} {V : Type ℓ} where
  unfoldable pub get : ℕ → List (ℕ × V) → Option V
  get k [] = none
  get k ((j, v) ∷ m) = if j == k then some v else get k m

  unfoldable pub insert : ℕ → V → List (ℕ × V) → List (ℕ × V)
  insert k v [] = (k, v) ∷ []
  insert k v ((j, w) ∷ m) = if j == k then (k, v) ∷ m else (j, w) ∷ insert k v m

  unfoldable pub pop : ℕ → List (ℕ × V) → List (ℕ × V)
  pop k [] = []
  pop k ((j, w) ∷ m) = if j == k then pop k m else (j, w) ∷ pop k m

  pub get-insert :
      (k j : ℕ) (v : V) (m : List (ℕ × V))
      → get j (insert k v m) ≡ (if k == j then some v else get j m)
  unfolding get insert
  get-insert k j v [] = refl
  get-insert k j v ((i, w) ∷ m) = ground (arith, get-insert k j v m)

  pub get-pop : (k j : ℕ) (m : List (ℕ × V)) → get j (pop k m) ≡ (if k == j then none else get j m)
  unfolding get pop
  get-pop k j [] = ground arith
  get-pop k j ((i, w) ∷ m) = ground (arith, get-pop k j m)

  pub get-insert_self : (k : ℕ) (v : V) (m : List (ℕ × V)) → get k (insert k v m) ≡ some v
  get-insert_self k v m = ground (arith, get-insert k k v m)

  pub get-pop_self : (k : ℕ) (m : List (ℕ × V)) → get k (pop k m) ≡ none
  get-pop_self k m = ground (arith, get-pop k k m)

  pub get-insert_ne : (k j : ℕ) (v : V) (m : List (ℕ × V)) → k ≢ j → get j (insert k v m) ≡ get j m
  get-insert_ne k j v m h = ground (arith, get-insert k j v m)

  pub get-pop_ne : (k j : ℕ) (m : List (ℕ × V)) → k ≢ j → get j (pop k m) ≡ get j m
  get-pop_ne k j m h = ground (arith, get-pop k j m)

pub ruleset dict_laws = (get-insert, get-pop)

-- No key stands twice, which `insert` and `pop` keep.
module _ {ℓ} {V : Type ℓ} where
  abbrev pub Unique : List (ℕ × V) → Type ℓ
  Unique [] = Unit
  Unique ((k, v) ∷ m) = (get k m ≡ none) × Unique m

  pub insert-Unique : (k : ℕ) (v : V) (m : List (ℕ × V)) → Unique m → Unique (insert k v m)
  unfolding insert
  insert-Unique k v [] u = (unfold get in refl, tt)
  insert-Unique k v ((j, w) ∷ m) u = elim (Bool-cases (j == k)) [
    | inl same ↦ rw same (rw (← (==_iff j k).0 same) u.0, u.1)
    | inr other ↦ rw other (ground (arith, get-insert k j v m), insert-Unique k v m u.1)
  ]

  pub pop-Unique : (k : ℕ) (m : List (ℕ × V)) → Unique m → Unique (pop k m)
  unfolding pop
  pop-Unique k [] u = tt
  pop-Unique k ((j, w) ∷ m) u = elim (Bool-cases (j == k)) [
    | inl same ↦ rw same (pop-Unique k m u.1)
    | inr other ↦ rw other (ground (arith, get-pop k j m), pop-Unique k m u.1)
  ]

-- Every value satisfies a predicate.
module _ {ℓ κ} {V : Type ℓ} (P : V → Type κ) where
  abbrev pub AllValues : List (ℕ × V) → Type κ
  AllValues [] = Unit
  AllValues ((k, v) ∷ m) = P v × AllValues m

  pub get-AllValues : (k : ℕ) (m : List (ℕ × V)) (v : V) → AllValues m → get k m ≡ some v → P v
  unfolding get
  get-AllValues k [] v a h = ground arith
  get-AllValues k ((j, w) ∷ m) v (p, a) h = ground (arith, get-AllValues k m v a)

  pub insert-AllValues :
      (k : ℕ) (v : V) (m : List (ℕ × V)) → P v → AllValues m → AllValues (insert k v m)
  unfolding insert
  insert-AllValues k v [] p a = (p, tt)
  insert-AllValues k v ((j, w) ∷ m) p (q, a) =
      if-holds AllValues (j == k) _ _ (p, a) (q, insert-AllValues k v m p a)
