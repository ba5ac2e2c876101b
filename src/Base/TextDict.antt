-- ===== src/Base/TextDict.antt =====
-- A Python dictionary over texts, as an association list in insertion order: a key that is written
-- again keeps its place and a new key goes to the end.
use mathlib.Core.Path.{◌≡◌, refl, ap}
use mathlib.Core.Logic.{inl, inr}
use mathlib.Core.Bool.{true, false}
use mathlib.Core.List.{List, [], ◌∷◌}
use mathlib.Core.Option.{Option, none, some}
use Prim.Native.String.{String}
use text.Mathlib.Text.{◌==◌ as str_eq}
use text.Mathlib.TextPositions.{eq_refl}
use text.Mathlib.TextEquality.{eq_iff}
use patrolbot_dashboard.Base.Tests.{Bool-cases, if◌then◌else◌}

pub str_eq_same : (k : String) → str_eq k k ≡ true
str_eq_same k = eq_refl k

pub str_eq_sound : (a b : String) → str_eq a b ≡ true → a ≡ b
str_eq_sound a b h = (eq_iff a b).0 h

module _ {ℓ} {V : Type ℓ} where
  unfoldable pub look : String → List (String × V) → Option V
  look k [] = none
  look k ((j, v) ∷ m) = if str_eq j k then some v else look k m

  unfoldable pub write : String → V → List (String × V) → List (String × V)
  write k v [] = (k, v) ∷ []
  write k v ((j, w) ∷ m) = if str_eq j k then (k, v) ∷ m else (j, w) ∷ write k v m

  unfoldable pub remove : String → List (String × V) → List (String × V)
  remove k [] = []
  remove k ((j, w) ∷ m) = if str_eq j k then remove k m else (j, w) ∷ remove k m

  pub look-write_self : (k : String) (v : V) (m : List (String × V)) → look k (write k v m) ≡ some v
  unfolding look write
  look-write_self k v [] = rw (eq_refl k) refl
  look-write_self k v ((j, w) ∷ m) = elim (Bool-cases (str_eq j k)) [
    | inl same ↦ rw same (rw (eq_refl k) refl)
    | inr other ↦ rw other (rw other (look-write_self k v m))
  ]

  pub look-write_other :
      (k j : String) (v : V) (m : List (String × V))
      → str_eq k j ≡ false
      → look j (write k v m) ≡ look j m
  unfolding look write
  look-write_other k j v [] h = rw h refl
  look-write_other k j v ((i, w) ∷ m) h = elim (Bool-cases (str_eq i k)) [
    | inl same ↦ rw same (rw (str_eq_sound i k same) (rw h refl))
    | inr other ↦ rw other (ap (λ r. if str_eq i j then some w else r) (look-write_other k j v m h))
  ]
