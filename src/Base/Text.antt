-- ===== src/Base/Text.antt =====
-- Texts: `str.strip`, `str.lower` and `str.upper` on ASCII, over the code points of a text, and
-- membership of a text in a collection of literals.
use Prim.Native.Nat.{ℕ, ◌+◌, ◌-◌}
use Prim.Native.Char.{code}
use Prim.Native.String.{String}
use mathlib.Core.Path.{◌≡◌, refl}
use mathlib.Core.Bool.{Bool, true, false, ◌&&◌, ◌||◌}
use mathlib.Core.List.{List, [], ◌∷◌, map, reverse}
use text.Mathlib.Text.{◌==◌ as str_eq}
use patrolbot_dashboard.Base.Tests.{leb, ◌==◌, if◌then◌else◌}

abbrev pub codes : String → List ℕ
codes String.[] = []
codes (String.◌∷◌ c s) = code c ∷ codes s

unfoldable pub lower_code : ℕ → ℕ
lower_code c = if leb 65 c && leb c 90 then c + 32 else c

unfoldable pub upper_code : ℕ → ℕ
upper_code c = if leb 97 c && leb c 122 then c - 32 else c

unfoldable pub lower : List ℕ → List ℕ
unfolding lower_code
lower = map lower_code

unfoldable pub upper : List ℕ → List ℕ
unfolding upper_code
upper = map upper_code

-- The ASCII characters that `str.isspace` accepts.
abbrev pub is_space : ℕ → Bool
is_space c = (leb 9 c && leb c 13) || (leb 28 c && leb c 32)

unfoldable pub lstrip : List ℕ → List ℕ
lstrip [] = []
lstrip (c ∷ cs) = let rest = lstrip cs in if is_space c then rest else c ∷ cs

unfoldable pub strip : List ℕ → List ℕ
unfolding lstrip
strip cs = reverse (lstrip (reverse (lstrip cs)))

unfoldable pub codes_eq : List ℕ → List ℕ → Bool
codes_eq [] [] = true
codes_eq [] (_ ∷ _) = false
codes_eq (_ ∷ _) [] = false
codes_eq (a ∷ as') (b ∷ bs) = a == b && codes_eq as' bs

-- `text in {literal, ...}` for a text that was stripped or folded first.
unfoldable pub one_of : List ℕ → List String → Bool
unfolding codes_eq
one_of t [] = false
one_of t (s ∷ rest) = codes_eq t (codes s) || one_of t rest

-- `name in names`.
unfoldable pub contains : String → List String → Bool
contains name [] = false
contains name (s ∷ rest) = str_eq name s || contains name rest

strip_test : strip (codes "  Bulk ") ≡ codes "Bulk"
unfolding strip
strip_test = refl

one_of_test : one_of (lower (codes "BULK")) ("float" ∷ "bulk" ∷ []) ≡ true
unfolding one_of lower
one_of_test = refl
