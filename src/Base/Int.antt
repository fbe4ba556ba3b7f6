-- ===== src/Base/Int.antt =====
-- Integers, and the decimal text of numbers: `to_string` and `parse` of Rust's integer types.
pub mod RoundTrip
use Prim.Native.Nat.{ℕ, zero, suc, ◌+◌, ◌-◌, ◌*◌, ◌/◌, ◌%◌, ◌^◌}
use mathlib.Core.Bool.{Bool, true, false}
use mathlib.Core.List.{[], ◌∷◌, ◌++◌}
use mathlib.Core.Option.{Option, none, some}
use loku.Base.Tests.{leb, ltb, ◌==◌, if◌then◌else◌, and_then, map_option}
use loku.Base.Text.{Text, is_ascii_digit}

-- `negsuc n` is -(n + 1).
pub data ℤ : Type 0 where
  pos : ℕ → ℤ
  negsuc : ℕ → ℤ

abbrev pub pos_part : ℤ → ℕ
pos_part (pos n) = n
pos_part (negsuc n) = 0

abbrev pub neg_part : ℤ → ℕ
neg_part (pos n) = 0
neg_part (negsuc n) = suc n

abbrev pub ltb_ℤ : ℤ → ℤ → Bool
ltb_ℤ a b = ltb (pos_part a + neg_part b) (pos_part b + neg_part a)

-- -n
abbrev pub neg : ℕ → ℤ
neg zero = pos 0
neg (suc n) = negsuc n

abbrev pub i64_max : ℕ
i64_max = 2 ^ 63 - 1

-- `z + 1` on i64, which wraps round in a release build.
unfoldable pub i64_suc : ℤ → ℤ
i64_suc (pos n) = if n == i64_max then negsuc i64_max else pos (n + 1)
i64_suc (negsuc zero) = pos 0
i64_suc (negsuc (suc n)) = negsuc n

-- The decimal digits of `n`, with fuel above `n`.
unfoldable pub digits : ℕ → ℕ → Text
digits zero n = []
digits (suc fuel) n = elim (ltb n 10) [
  | true ↦ (b'0' + n) ∷ []
  | false ↦ digits fuel (n / 10) ++ (b'0' + n % 10) ∷ []
]

abbrev pub nat_to_string : ℕ → Text
nat_to_string n = digits (suc n) n

unfoldable pub to_string : ℤ → Text
to_string (pos n) = nat_to_string n
to_string (negsuc n) = b'-' ∷ nat_to_string (suc n)

-- The number that digits spell after `acc`, or `none` at another character.
unfoldable pub scan_digits : Text → ℕ → Option ℕ
scan_digits [] acc = some acc
scan_digits (c ∷ s) acc =
    let rest = scan_digits s (acc * 10 + (c - b'0')) in if is_ascii_digit c then rest else none

-- One or more digits that spell a number up to `limit`.
unfoldable pub scan_number : Text → ℕ → Option ℕ
scan_number [] limit = none
scan_number (c ∷ s) limit =
    and_then (scan_digits (c ∷ s) 0) λ n. if leb n limit then some n else none

-- `s.parse::<u32>()`, with the type's largest value.
unfoldable pub parse_unsigned : ℕ → Text → Option ℕ
parse_unsigned limit [] = none
parse_unsigned limit (c ∷ s) = if c == b'+' then scan_number s limit else scan_number (c ∷ s) limit

-- `s.parse::<i64>()`, with the type's largest value.
unfoldable pub parse_signed : ℕ → Text → Option ℤ
parse_signed limit [] = none
parse_signed limit (c ∷ s) =
    if c == b'-'
    then map_option neg (scan_number s (limit + 1))
    else if c == b'+'
    then map_option pos (scan_number s limit)
    else map_option pos (scan_number (c ∷ s) limit)

abbrev pub parse_i64 : Text → Option ℤ
parse_i64 = parse_signed i64_max
