-- ===== src/Base/Lists.antt =====
-- Lists measured by native numbers, and Boolean searches over them.
use Prim.Native.Nat.{ℕ, zero, suc, ◌+◌}
use mathlib.Core.Path.{◌≡◌}
use mathlib.Core.Logic.{◌⊎◌}
use mathlib.Core.Bool.{Bool, true, false, ◌||◌, ◌&&◌}
use mathlib.Core.List.{List, [], ◌∷◌, ◌++◌}
use mathlib.Core.Option.{Option, none, some}
use native.Mathlib.Omega.{arith}

module _ {ℓ} {A : Type ℓ} where
  abbrev pub length : List A → ℕ
  length [] = 0
  length (x ∷ xs) = suc (length xs)

  pub length-append : (xs ys : List A) → length (xs ++ ys) ≡ length xs + length ys
  length-append [] ys = omega arith
  length-append (x ∷ xs) ys = omega (arith, length-append xs ys)

  abbrev pub any : (A → Bool) → List A → Bool
  any p [] = false
  any p (x ∷ xs) = p x || any p xs

  abbrev pub all : (A → Bool) → List A → Bool
  all p [] = true
  all p (x ∷ xs) = p x && all p xs

  -- The first element that passes, Python's `next(x for x in xs if p(x))`.
  abbrev pub find : (A → Bool) → List A → Option A
  find p [] = none
  find p (x ∷ xs) = let rest = find p xs in elim (p x) [ true ↦ some x | false ↦ rest ]

  -- Every element satisfies a predicate, by recursion.
  abbrev pub All {κ} : (A → Type κ) → List A → Type κ
  All P [] = Unit
  All P (x ∷ xs) = P x × All P xs

  -- The first elements, Python's `list(xs)[:n]`.
  abbrev pub take : ℕ → List A → List A
  take zero xs = []
  take (suc n) [] = []
  take (suc n) (x ∷ xs) = x ∷ take n xs

  pub find-All {κ} :
      (P : A → Type κ) (p : A → Bool) (xs : List A) (x : A) → All P xs → find p xs ≡ some x → P x
  find-All P p [] x a h = ground arith
  find-All P p (y ∷ ys) x (q, a) h = ground (arith, find-All P p ys x a)

abbrev pub In : {A : Type 0} → A → List A → Type 0
In x [] = ⊥
In x (y ∷ ys) = (x ≡ y) ⊎ In x ys
