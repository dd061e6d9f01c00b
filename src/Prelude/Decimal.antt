-- ===== src/Prelude/Decimal.antt =====
-- strconv.FormatUint(n, 10), the digits that ParseUint reads back, and that the two are inverse.
use Prim.Native.Nat.{◌^◌, ◌≤◌, ℕ, zero, suc, ◌+◌, ◌-◌, ◌*◌, ◌/◌, ◌%◌, ◌<◌}
use mathlib.Core.Path.{◌≡◌, refl, ap, ◌∙◌}
use mathlib.Core.Logic.{inl, inr}
use mathlib.Core.Bool.{◌&&◌}
use mathlib.Core.Option.{Option, none, some}
use mathlib.Core.List.{[], ◌∷◌}
use native.Mathlib.Omega.{arith}
use avairy.Prelude.Tests.{Bool-cases, ltb, leb, if◌then◌else◌}
use avairy.Prelude.Strings.{Text}

-- With fuel n + 1 every digit of n is written: each round divides by ten.
format_fuel : ℕ → ℕ → Text → Text
format_fuel zero n acc = acc
format_fuel (suc f) n acc =
    let rest = format_fuel f (n / 10) ((48 + n % 10) ∷ acc) in
    if ltb n 10 then (48 + n) ∷ acc else rest

unfoldable pub format_uint : ℕ → Text
unfolding format_fuel
format_uint n = format_fuel (suc n) n []

-- The digits of a numeral, or `none` at another byte.
unfoldable pub parse_digits : ℕ → Text → Option ℕ
parse_digits acc [] = some acc
parse_digits acc (c ∷ s) =
    let rest = parse_digits (acc * 10 + (c - 48)) s in if leb 48 c && leb c 57 then rest else none

parse_digit :
    (acc d : ℕ) (s : Text)
    → d < 10
    → parse_digits acc ((48 + d) ∷ s) ≡ parse_digits (acc * 10 + d) s
unfolding parse_digits
parse_digit acc d s h = ground arith

parse-format_fuel :
    (f n : ℕ) (acc : Text) → n < f → parse_digits 0 (format_fuel f n acc) ≡ parse_digits n acc
unfolding format_fuel
parse-format_fuel zero n acc h = elim h [ ]
parse-format_fuel (suc f) n acc h = elim (Bool-cases (ltb n 10)) [
  | inl small ↦
      rw small (parse_digit 0 n acc (ground arith) ∙ ap (λ k. parse_digits k acc) (omega arith))
  | inr large ↦ rw large (
      parse-format_fuel f (n / 10) ((48 + n % 10) ∷ acc) (ground arith)
      ∙ parse_digit (n / 10) (n % 10) acc (omega arith)
      ∙ ap (λ k. parse_digits k acc) (omega arith))
]

pub parse-format_uint : (n : ℕ) → parse_digits 0 (format_uint n) ≡ some n
unfolding format_uint parse_digits
parse-format_uint n = parse-format_fuel (suc n) n [] (omega arith)

-- strconv.ParseUint(s, 10, 64), whose error the callers drop: 0 at a byte that is no digit, and the
-- largest value at a number that does not fit.
parse_loop : ℕ → Text → ℕ
parse_loop acc [] = acc
parse_loop acc (c ∷ s) =
    let n = acc * 10 + (c - 48) in
    let rest = parse_loop n s in
    if leb 48 c && leb c 57 then (if ltb n (2 ^ 64) then rest else 2 ^ 64 - 1) else 0

unfoldable pub parse_uint : Text → ℕ
unfolding parse_loop
parse_uint [] = 0
parse_uint (c ∷ s) = parse_loop 0 (c ∷ s)

le-parse_digits : (acc n : ℕ) (s : Text) → parse_digits acc s ≡ some n → acc ≤ n
unfolding parse_digits
le-parse_digits acc n [] h = ground arith
le-parse_digits acc n (c ∷ s) h = ground (arith, le-parse_digits (acc * 10 + (c - 48)) n s)

parse_loop-eq :
    (acc n : ℕ) (s : Text) → parse_digits acc s ≡ some n → n < 2 ^ 64 → parse_loop acc s ≡ n
unfolding parse_digits parse_loop
parse_loop-eq acc n [] h g = ground arith
parse_loop-eq acc n (c ∷ s) h g =
    ground
      (arith, le-parse_digits (acc * 10 + (c - 48)) n s, parse_loop-eq (acc * 10 + (c - 48)) n s)

parse_uint-loop : (s : Text) → parse_uint s ≡ parse_loop 0 s
unfolding parse_uint
parse_uint-loop [] = unfold parse_loop in refl
parse_uint-loop (c ∷ s) = refl

-- Reading back a formatted number.
pub parse_uint-format_uint : (n : ℕ) → n < 2 ^ 64 → parse_uint (format_uint n) ≡ n
parse_uint-format_uint n h =
    parse_uint-loop (format_uint n) ∙ parse_loop-eq 0 n (format_uint n) (parse-format_uint n) h
