-- ===== src/Base/Tests.antt =====
-- Boolean tests on the native numbers, the conditional, and splits that keep the equation.
use Prim.Native.Nat.{ℕ, ◌≤◌, ◌<◌, compare, Ordering}
use mathlib.Core.Path.{◌≡◌, refl, sym}
use mathlib.Core.Logic.{◌↔◌, ◌⊎◌, inl, inr}
use mathlib.Core.Bool.{Bool, true, false, not, ◌&&◌, ◌||◌}
use mathlib.Core.Option.{Option, none, some}
use native.Mathlib.Omega.{arith}

abbrev pub ltb : ℕ → ℕ → Bool
ltb a b = elim (compare a b) [ Ordering.lt ↦ true | _ ↦ false ]

abbrev pub leb : ℕ → ℕ → Bool
leb a b = elim (compare a b) [ Ordering.gt ↦ false | _ ↦ true ]

infix 50 ◌==◌
abbrev pub ◌==◌ : ℕ → ℕ → Bool
a == b = elim (compare a b) [ Ordering.eq ↦ true | _ ↦ false ]

infix 1 if◌then◌else◌
abbrev pub if◌then◌else◌ {ℓ} : {A : Type ℓ} → Bool → A → A → A
if true then x else y = x
if false then x else y = y

pub ltb→lt : (a b : ℕ) → ltb a b ≡ true → a < b
ltb→lt a b h = ground arith

pub lt→ltb : (a b : ℕ) → a < b → ltb a b ≡ true
lt→ltb a b h = ground arith

pub leb→le : (a b : ℕ) → leb a b ≡ true → a ≤ b
leb→le a b h = ground arith

pub le→leb : (a b : ℕ) → a ≤ b → leb a b ≡ true
le→leb a b h = ground arith

pub ==_iff : (a b : ℕ) → ((a == b) ≡ true) ↔ (a ≡ b)
==_iff a b = ground arith

pub ==_refl : (a : ℕ) → (a == a) ≡ true
==_refl a = ground arith

pub ruleset tests = (arith, ltb→lt, lt→ltb, leb→le, le→leb)

pub Bool-cases : (b : Bool) → (b ≡ true) ⊎ (b ≡ false)
Bool-cases true = inl refl
Bool-cases false = inr refl

pub Option-cases {ℓ} : {A : Type ℓ} (o : Option A) → (o ≡ none) ⊎ ((a : A) × (o ≡ some a))
Option-cases none = inl refl
Option-cases (some a) = inr (a, refl)

-- `value is True`, `value is False` and `value is None` on an optional value.
abbrev pub is_true : Option Bool → Bool
is_true (some true) = true
is_true _ = false

abbrev pub is_false : Option Bool → Bool
is_false (some false) = true
is_false _ = false

abbrev pub is_none {ℓ} : {A : Type ℓ} → Option A → Bool
is_none none = true
is_none (some _) = false

abbrev pub is_some {ℓ} : {A : Type ℓ} → Option A → Bool
is_some none = false
is_some (some _) = true

abbrev pub or_default {ℓ} : {A : Type ℓ} → A → Option A → A
or_default d none = d
or_default d (some a) = a

-- `first or second` on optional values of which every one that is there counts as true.
abbrev pub or_else {ℓ} : {A : Type ℓ} → Option A → Option A → Option A
or_else none b = b
or_else (some a) b = some a

abbrev pub maybe {ℓ κ} : {A : Type ℓ} {B : Type κ} → A → (B → A) → Option B → A
maybe d k none = d
maybe d k (some b) = k b

-- A property of both branches holds of a choice between them.
pub if-holds {ℓ κ} :
    {A : Type ℓ} (G : A → Type κ) (b : Bool) (x y : A) → G x → G y → G (if b then x else y)
if-holds G true x y p q = p
if-holds G false x y p q = q

pub maybe-holds {ℓ κ μ} :
    {A : Type ℓ} {B : Type κ} (G : A → Type μ) (d : A) (k : B → A) (o : Option B)
    → G d
    → ((b : B) → G (k b))
    → G (maybe d k o)
maybe-holds G d k none p q = p
maybe-holds G d k (some b) p q = q b

-- The same, where each branch may use the test.
pub if-split {ℓ κ} :
    {A : Type ℓ} (G : A → Type κ) (b : Bool) (x y : A)
    → (b ≡ true → G x)
    → (b ≡ false → G y)
    → G (if b then x else y)
if-split G true x y p q = p refl
if-split G false x y p q = q refl

pub maybe-split {ℓ κ μ} :
    {A : Type ℓ} {B : Type κ} (G : A → Type μ) (d : A) (k : B → A) (o : Option B)
    → (o ≡ none → G d)
    → ((b : B) → o ≡ some b → G (k b))
    → G (maybe d k o)
maybe-split G d k none p q = p refl
maybe-split G d k (some b) p q = q b refl

pub not-false : (b : Bool) → not b ≡ false → b ≡ true
not-false true h = refl
not-false false h = ground arith

pub or_false : (a b : Bool) → (a || b) ≡ false → (a ≡ false) × (b ≡ false)
or_false true b h = ground arith
or_false false b h = (refl, h)

pub not-true : (b : Bool) → not b ≡ true → b ≡ false
not-true true h = sym h
not-true false h = refl

pub and_true : (a b : Bool) → (a && b) ≡ true → (a ≡ true) × (b ≡ true)
and_true true b h = (refl, h)
and_true false b h = ground arith

pub and_false : (a b : Bool) → (a && b) ≡ false → (a ≡ false) ⊎ (b ≡ false)
and_false true b h = inr h
and_false false b h = inl refl

-- What follows a value that is there, for `do` blocks.
infixl 10 ◌>>=◌
abbrev pub ◌>>=◌ {ℓ} : {A B : Type ℓ} → Option A → (A → Option B) → Option B
none >>= f = none
some a >>= f = f a
