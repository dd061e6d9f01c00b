-- ===== src/Prelude/Strings.antt =====
-- Go's strings as lists of bytes, with the functions of package strings that the code calls.
-- ToLower and TrimSpace are those of ASCII text.
use Prim.Native.Nat.{ℕ, ◌+◌}
use Prim.Native.Char.{code}
use Prim.Native.String.{String}
use mathlib.Core.Path.{◌≡◌, refl}
use mathlib.Core.Logic.{◌↔◌}
use mathlib.Core.Bool.{Bool, true, false, ◌&&◌, ◌||◌}
use mathlib.Core.List.{List, [], ◌∷◌, reverse}
use native.Mathlib.Omega.{arith}
use avairy.Prelude.Tests.{◌==◌, ltb, leb, if◌then◌else◌}
use avairy.Prelude.Lists.{length, drop}

abbrev pub Text : Type 0
Text = List ℕ

-- The bytes of an ASCII literal.
abbrev pub codes : String → Text
codes String.[] = []
codes (String.◌∷◌ c s) = code c ∷ codes s

unfoldable pub eq_text : Text → Text → Bool
eq_text [] [] = true
eq_text [] (y ∷ ys) = false
eq_text (x ∷ xs) [] = false
eq_text (x ∷ xs) (y ∷ ys) = x == y && eq_text xs ys

pub eq_text_iff : (s t : Text) → (eq_text s t ≡ true) ↔ (s ≡ t)
unfolding eq_text
eq_text_iff [] [] = ground arith
eq_text_iff [] (y ∷ ys) = ground arith
eq_text_iff (x ∷ xs) [] = ground arith
eq_text_iff (x ∷ xs) (y ∷ ys) = ground (arith, eq_text_iff xs ys)

pub eq_text_refl : (s : Text) → eq_text s s ≡ true
eq_text_refl s = (eq_text_iff s s).1 refl

-- strings.HasPrefix
unfoldable pub has_prefix : Text → Text → Bool
has_prefix s [] = true
has_prefix [] (p ∷ ps) = false
has_prefix (c ∷ s) (p ∷ ps) = c == p && has_prefix s ps

-- strings.Contains
unfoldable pub contains : Text → Text → Bool
unfolding has_prefix
contains [] sub = has_prefix [] sub
contains (c ∷ s) sub = has_prefix (c ∷ s) sub || contains s sub

lower : ℕ → ℕ
lower c = if leb b'A' c && leb c b'Z' then c + 32 else c

-- strings.ToLower
unfoldable pub to_lower : Text → Text
unfolding lower
to_lower [] = []
to_lower (c ∷ s) = lower c ∷ to_lower s

unfoldable pub is_space : ℕ → Bool
is_space c = c == 32 || (leb 9 c && leb c 13)

unfoldable pub trim_left : Text → Text
unfolding is_space
trim_left [] = []
trim_left (c ∷ s) = let rest = trim_left s in if is_space c then rest else c ∷ s

-- strings.TrimSpace
unfoldable pub trim_space : Text → Text
unfolding trim_left
trim_space s = reverse (trim_left (reverse (trim_left s)))

-- strings.TrimPrefix
unfoldable pub trim_prefix : Text → Text → Text
unfolding has_prefix
trim_prefix s p = if has_prefix s p then drop (length p) s else s

-- The order of Go's strings.
unfoldable pub lt_text : Text → Text → Bool
lt_text s [] = false
lt_text [] (y ∷ ys) = true
lt_text (x ∷ xs) (y ∷ ys) = ltb x y || (x == y && lt_text xs ys)
