-- ===== src/Base/Float.antt =====
-- Python floats as far as the program looks at them: finite values, as whole numbers of
-- billionths, the two infinities and NaN. Comparisons with NaN are false, as in IEEE 754; sums of
-- finite values are exact, where the real ones round.
use Prim.Native.Nat.{ℕ, ◌≤◌, ◌*◌}
use mathlib.Core.Path.{◌≡◌, refl}
use mathlib.Core.Logic.{◌↔◌}
use mathlib.Core.Bool.{Bool, true, false}
use native.Mathlib.Omega.{arith}
use patrolbot_dashboard.Base.Int.{ℤ, pos, negsuc, ◌≤ℤ◌, leb_ℤ, ltb_ℤ, eqb_ℤ, ◌+ℤ◌, ◌-ℤ◌, +ℤ_parts}
use patrolbot_dashboard.Base.Int

pub data Float : Type 0 where
  fin : ℤ → Float
  nan pos_inf neg_inf : Float

-- A numeral of the source, in billionths.
abbrev pub nano : ℕ → Float
nano n = fin (pos n)

abbrev pub milli : ℕ → Float
milli n = fin (pos (n * 1_000_000))

unfoldable pub is_finite : Float → Bool
is_finite (fin _) = true
is_finite _ = false

unfoldable pub le : Float → Float → Bool
le (fin a) (fin b) = leb_ℤ a b
le (fin a) pos_inf = true
le (fin a) _ = false
le pos_inf pos_inf = true
le pos_inf _ = false
le neg_inf nan = false
le neg_inf _ = true
le nan _ = false

unfoldable pub lt : Float → Float → Bool
lt (fin a) (fin b) = ltb_ℤ a b
lt (fin a) pos_inf = true
lt (fin a) _ = false
lt neg_inf nan = false
lt neg_inf neg_inf = false
lt neg_inf _ = true
lt pos_inf _ = false
lt nan _ = false

unfoldable pub add : Float → Float → Float
add (fin a) (fin b) = fin (a +ℤ b)
add (fin a) x = x
add nan _ = nan
add pos_inf nan = nan
add pos_inf neg_inf = nan
add pos_inf _ = pos_inf
add neg_inf nan = nan
add neg_inf pos_inf = nan
add neg_inf _ = neg_inf

unfoldable pub negate : Float → Float
negate (fin a) = fin (pos 0 -ℤ a)
negate nan = nan
negate pos_inf = neg_inf
negate neg_inf = pos_inf

unfoldable pub sub : Float → Float → Float
unfolding add negate
sub a b = add a (negate b)

unfoldable pub fabs : Float → Float
fabs (fin a) = fin (Int.abs a)
fabs nan = nan
fabs _ = pos_inf

-- The value is a real number between two bounds.
abbrev pub Between : ℕ → Float → ℕ → Type 0
Between lo (fin (pos n)) hi = (lo ≤ n) × (n ≤ hi)
Between lo _ hi = ⊥

-- The value is at most a bound: a real number or minus infinity, never NaN.
abbrev pub AtMost : Float → ℕ → Type 0
AtMost (fin a) hi = a ≤ℤ pos hi
AtMost neg_inf hi = Unit {0}
AtMost _ hi = ⊥

pub le-nano_iff : (x : Float) (n : ℕ) → (le x (nano n) ≡ true) ↔ AtMost x n
unfolding le
le-nano_iff (fin (pos a)) n = (λ h. ground arith, λ h. ground arith)
le-nano_iff (fin (negsuc a)) n = (λ h. ground arith, λ h. ground arith)
le-nano_iff nan n = (λ h. ground arith, λ h. absurd h)
le-nano_iff pos_inf n = (λ h. ground arith, λ h. absurd h)
le-nano_iff neg_inf n = (λ h. tt, λ h. refl)

-- `==`, false on NaN.
unfoldable pub eq : Float → Float → Bool
eq (fin a) (fin b) = eqb_ℤ a b
eq pos_inf pos_inf = true
eq neg_inf neg_inf = true
eq _ _ = false
