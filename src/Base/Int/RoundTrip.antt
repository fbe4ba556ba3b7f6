-- ===== src/Base/Int/RoundTrip.antt =====
-- What is printed is read back.
use Prim.Native.Nat.{ℕ, zero, suc, ◌+◌, ◌-◌, ◌*◌, ◌/◌, ◌%◌, ◌≤◌, ◌<◌}
use mathlib.Core.Bool.{true}
use mathlib.Core.List.{[], ◌∷◌, ◌++◌}
use mathlib.Core.Option.{some}
use mathlib.Core.Path.{◌≡◌, ◌∙◌, ap}
use native.Mathlib.Omega.{arith}
use native.Mathlib.Decide.{dec_lt}
use loku.Base.Text.{Text, is_ascii_digit}
use loku.Base.Int.{
  ℤ, pos, negsuc, digits, nat_to_string, to_string, scan_digits, scan_number, parse_unsigned,
  parse_signed, parse_i64, i64_max,
}

scan_digits-append :
    (s t : Text) (acc n : ℕ)
    → scan_digits s acc ≡ some n
    → scan_digits (s ++ t) acc ≡ scan_digits t n
unfolding scan_digits
scan_digits-append [] t acc n h = ground arith
scan_digits-append (c ∷ s) t acc n h =
    ground (arith, scan_digits-append s t (acc * 10 + (c - b'0')) n)

digits_small : (fuel n : ℕ) → n < 10 → digits (suc fuel) n ≡ (b'0' + n) ∷ []
unfolding digits
digits_small fuel n h = ground arith

digits_large :
    (fuel n : ℕ) → 10 ≤ n → digits (suc fuel) n ≡ digits fuel (n / 10) ++ (b'0' + n % 10) ∷ []
unfolding digits
digits_large fuel n h = ground arith

scan_one : (n acc : ℕ) → n < 10 → scan_digits ((b'0' + n) ∷ []) acc ≡ some (acc * 10 + n)
unfolding scan_digits
scan_one n acc h = ground arith

scan_digits-digits : (fuel n : ℕ) → n < fuel → scan_digits (digits fuel n) 0 ≡ some n
scan_digits-digits zero n h = absurd (omega arith)
scan_digits-digits (suc fuel) n h = elim (dec_lt n 10) [
  | yes small ↦ rw (digits_small fuel n small) (scan_one n 0 small ∙ ap some (omega arith))
  | no large ↦
      rw
        (
          digits_large fuel n (omega arith),
          scan_digits-append (digits fuel (n / 10)) ((b'0' + n % 10) ∷ []) 0 (n / 10)
              (scan_digits-digits fuel (n / 10) (omega arith)),
          scan_one (n % 10) (n / 10) (omega arith),
        )
        (ap some (omega arith))
]

-- Digits begin with a digit.
abbrev pub BeginsWithDigit : Text → Type 0
BeginsWithDigit [] = ⊥
BeginsWithDigit (c ∷ s) = is_ascii_digit c ≡ true

begins-append : (s t : Text) → BeginsWithDigit s → BeginsWithDigit (s ++ t)
begins-append [] t h = absurd h
begins-append (c ∷ s) t h = h

digits-begins : (fuel n : ℕ) → n < fuel → BeginsWithDigit (digits fuel n)
digits-begins zero n h = absurd (omega arith)
digits-begins (suc fuel) n h = elim (dec_lt n 10) [
  | yes small ↦ rw (digits_small fuel n small) (ground arith)
  | no large ↦
      rw (digits_large fuel n (omega arith))
        (begins-append _ _ (digits-begins fuel (n / 10) (omega arith)))
]

scan_number_of_digits :
    (s : Text) (limit n : ℕ)
    → BeginsWithDigit s
    → scan_digits s 0 ≡ some n
    → n ≤ limit
    → scan_number s limit ≡ some n
unfolding scan_number
scan_number_of_digits [] limit n b h fits = absurd b
scan_number_of_digits (c ∷ s) limit n b h fits = ground arith

scan_number-digits : (n limit : ℕ) → n ≤ limit → scan_number (nat_to_string n) limit ≡ some n
scan_number-digits n limit fits =
    scan_number_of_digits _ limit n (digits-begins (suc n) n (omega arith))
      (scan_digits-digits (suc n) n (omega arith)) fits

unsigned_of_digits :
    (s : Text) (limit : ℕ) → BeginsWithDigit s → parse_unsigned limit s ≡ scan_number s limit
unfolding parse_unsigned
unsigned_of_digits [] limit b = absurd b
unsigned_of_digits (c ∷ s) limit b = ground arith

signed_of_digits :
    (s : Text) (limit n : ℕ)
    → BeginsWithDigit s
    → scan_number s limit ≡ some n
    → parse_signed limit s ≡ some (pos n)
unfolding parse_signed
signed_of_digits [] limit n b h = absurd b
signed_of_digits (c ∷ s) limit n b h = ground arith

pub parse_unsigned-to_string :
    (n limit : ℕ) → n ≤ limit → parse_unsigned limit (nat_to_string n) ≡ some n
parse_unsigned-to_string n limit fits =
    unsigned_of_digits _ limit (digits-begins (suc n) n (omega arith))
    ∙ scan_number-digits n limit fits

-- The values of an i64.
abbrev pub IsI64 : ℤ → Type 0
IsI64 (pos n) = n ≤ i64_max
IsI64 (negsuc n) = n ≤ i64_max

pub parse_i64-to_string : (z : ℤ) → IsI64 z → parse_i64 (to_string z) ≡ some z
unfolding to_string
parse_i64-to_string (pos n) fits =
    signed_of_digits _ i64_max n (digits-begins (suc n) n (omega arith))
      (scan_number-digits n i64_max fits)
parse_i64-to_string (negsuc n) fits =
    unfold parse_signed in ground (arith, scan_number-digits (suc n) (i64_max + 1) (omega arith))
