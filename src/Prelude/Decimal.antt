-- ===== src/Prelude/Decimal.antt =====
-- Numbers as text: what a stream prints for a number, with the fill and the width of the standard
-- manipulators, and strtol() to the base 10, in the C locale and without its limits.
use Prim.Native.Nat.{ℕ, zero, suc, ◌+◌, ◌-◌, ◌*◌, ◌/◌, ◌%◌, ◌<◌}
use mathlib.Core.Path.{◌≡◌, ap, ◌∙◌}
use mathlib.Core.Logic.{inl, inr}
use mathlib.Core.Bool.{Bool, true, false}
use mathlib.Core.List.{[], ◌∷◌, ◌++◌}
use native.Mathlib.Omega.{arith}
use libtabula.Prelude.Tests.{ltb, ltb→lt, Bool-cases, ◌==◌, if◌then◌else◌}
use libtabula.Prelude.Lists.{length, replicate}
use libtabula.Prelude.Int.{ℤ, pos, negsuc}
use libtabula.Prelude.Bytes.{Text, is_digit, is_space}

unfoldable pub decimal_from : ℕ → ℕ → Text → Text
decimal_from zero n rest = rest
decimal_from (suc fuel) n rest =
    let more = decimal_from fuel (n / 10) ((b'0' + n % 10) ∷ rest) in
    if ltb n 10 then (b'0' + n) ∷ rest else more

-- os << n. A number below 2 ^ 16 has at most 5 digits; no larger one is printed here.
unfoldable pub decimal : ℕ → Text
unfolding decimal_from
decimal n = decimal_from 5 n []

-- os << setw(width) << n with the fill 0, to the right.
unfoldable pub set_width : ℕ → ℕ → Text
unfolding decimal
set_width width n = replicate (width - length (decimal n)) b'0' ++ decimal n

unfoldable pub digits_from : ℕ → Text → ℕ
digits_from v [] = v
digits_from v (c ∷ s) =
    let more = digits_from (v * 10 + (c - b'0')) s in if is_digit c then more else v

negated : ℕ → ℤ
negated zero = pos 0
negated (suc n) = negsuc n

signed_digits : Text → ℤ
unfolding negated digits_from
signed_digits [] = pos 0
signed_digits (c ∷ s) =
    if c == b'-'
    then negated (digits_from 0 s)
    else if c == b'+'
    then pos (digits_from 0 s)
    else pos (digits_from 0 (c ∷ s))

unfoldable pub strtol : Text → ℤ
unfolding signed_digits
strtol [] = pos 0
strtol (c ∷ s) = let rest = strtol s in if is_space c then rest else signed_digits (c ∷ s)

pub set_width_2 : (n : ℕ) → n < 100 → set_width 2 n ≡ (b'0' + n / 10) ∷ (b'0' + n % 10) ∷ []
unfolding set_width decimal decimal_from
set_width_2 n h = ground arith

pub set_width_4 :
    (n : ℕ)
    → n < 10000
    → set_width 4 n
      ≡ (b'0' + n / 1000) ∷ (b'0' + n / 100 % 10) ∷ (b'0' + n / 10 % 10) ∷ (b'0' + n % 10) ∷ []
unfolding set_width decimal decimal_from
set_width_4 n h = ground arith

pub strtol_2 : (n : ℕ) → n < 100 → strtol ((b'0' + n / 10) ∷ (b'0' + n % 10) ∷ []) ≡ pos n
unfolding strtol signed_digits digits_from is_space is_digit
strtol_2 n h = ground arith

pub strtol_4 :
    (n : ℕ)
    → n < 10000
    → strtol
        ((b'0' + n / 1000) ∷ (b'0' + n / 100 % 10) ∷ (b'0' + n / 10 % 10) ∷ (b'0' + n % 10) ∷ [])
      ≡ pos n
unfolding strtol signed_digits digits_from is_space is_digit
strtol_4 n h = ground arith

abbrev pub power_of_ten : ℕ → ℕ
power_of_ten zero = 1
power_of_ten (suc k) = 10 * power_of_ten k

digits_from-digit :
    (v n : ℕ) (rest : Text)
    → n < 10
    → digits_from v ((b'0' + n) ∷ rest) ≡ digits_from (v * 10 + n) rest
unfolding digits_from is_digit
digits_from-digit v n rest h =
    let digit : is_digit (b'0' + n) ≡ true = ground arith in
    let value : v * 10 + (b'0' + n - b'0') ≡ v * 10 + n = omega arith in rw (digit, value)

digits_from-decimal_from :
    (fuel n : ℕ) (rest : Text)
    → n < power_of_ten fuel
    → digits_from 0 (decimal_from fuel n rest) ≡ digits_from n rest
unfolding decimal_from
digits_from-decimal_from zero n rest h = ap (λ v. digits_from v rest) (omega arith)
digits_from-decimal_from (suc fuel) n rest h = elim (Bool-cases (ltb n 10)) [
  | inl one ↦ rw one (
      digits_from-digit 0 n rest (ltb→lt n 10 one)
      ∙ ap (λ v. digits_from v rest) {y = n} (omega arith))
  | inr more ↦ rw more (
      digits_from-decimal_from fuel (n / 10) ((b'0' + n % 10) ∷ rest) (omega arith)
      ∙ digits_from-digit (n / 10) (n % 10) rest (omega arith)
      ∙ ap (λ v. digits_from v rest) {y = n} (omega arith))
]

-- A number that is printed is read back.
pub digits_from-decimal : (n : ℕ) → n < 65536 → digits_from 0 (decimal n) ≡ n
unfolding decimal digits_from
digits_from-decimal n h = digits_from-decimal_from 5 n [] (omega arith)

abbrev pub starts_digit : Text → Bool
starts_digit [] = false
starts_digit (c ∷ s) = is_digit c

pub starts_digit-decimal : (n : ℕ) → n < 65536 → starts_digit (decimal n) ≡ true
unfolding decimal decimal_from is_digit
starts_digit-decimal n h = ground arith
