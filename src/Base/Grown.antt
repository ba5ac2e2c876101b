-- ===== src/Base/Grown.antt =====
-- Logs that are kept newest first, and what is put before the old entries.
use mathlib.Core.Path.{◌≡◌, refl, ap, ◌∙◌, sym}
use mathlib.Core.Bool.{Bool, true, false}
use mathlib.Core.List.{List, [], ◌∷◌, ◌++◌, append_assoc}
use patrolbot_dashboard.Base.Lists.{All}
use patrolbot_dashboard.Base.Tests.{if◌then◌else◌}

-- Entries that satisfy a predicate are put before the old ones.
abbrev pub Grown : {A : Type 0} → (A → Type 0) → List A → List A → Type 0
Grown {A} P old new = (news : List A) × All P news × (new ≡ news ++ old)

module _ {A : Type 0} (P : A → Type 0) where
  pub All-append : (xs ys : List A) → All P xs → All P ys → All P (xs ++ ys)
  All-append [] ys a b = b
  All-append (x ∷ xs) ys (p, a) b = (p, All-append xs ys a b)

  pub Grown-none : (xs : List A) → Grown P xs xs
  Grown-none xs = ([], tt, refl)

  pub Grown-one : (x : A) (xs : List A) → P x → Grown P xs (x ∷ xs)
  Grown-one x xs p = (x ∷ [], (p, tt), refl)

  pub Grown-trans : (xs ys zs : List A) → Grown P xs ys → Grown P ys zs → Grown P xs zs
  Grown-trans xs ys zs (a, p, e) (b, q, f) =
      (b ++ a, All-append b a q p, f ∙ ap (λ t. b ++ t) e ∙ sym (append_assoc b a xs))

  pub Grown-if :
      (xs ys zs : List A) (b : Bool)
      → Grown P xs ys
      → Grown P xs zs
      → Grown P xs (if b then ys else zs)
  Grown-if xs ys zs true g h = g
  Grown-if xs ys zs false g h = h

All-map :
    {A : Type 0} (P Q : A → Type 0) (xs : List A) → ((o : A) → P o → Q o) → All P xs → All Q xs
All-map P Q [] f a = tt
All-map P Q (x ∷ xs) f (p, a) = (f x p, All-map P Q xs f a)

pub Grown-map :
    {A : Type 0} (P Q : A → Type 0) (xs ys : List A)
    → ((o : A) → P o → Q o)
    → Grown P xs ys
    → Grown Q xs ys
Grown-map P Q xs ys f (a, p, e) = (a, All-map P Q a f p, e)
