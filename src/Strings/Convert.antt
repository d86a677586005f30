-- ===== src/Strings/Convert.antt =====
-- Numbers are read back from what is printed for them.
use libtabula.Prelude.{
  ℕ, zero, suc, ◌+◌, ◌-◌, ◌*◌, ◌/◌, ◌%◌, ◌^◌, ◌≡◌, ◌<◌, refl, sym, ap, ◌∙◌, Bool, true, false, [],
  ◌∷◌, ◌++◌, ◌==◌, ltb, ltb→lt, if◌then◌else◌, arith, Bool-cases, inl, inr,
}
use libtabula.Prelude.Bytes.{Text, is_digit, is_space}
use libtabula.Prelude.Decimal.{decimal_from, power_of_ten}
use libtabula.Strings.Numbers.{scan_digits, skip_space, in_limits, scanned, read_signed, extract}

abbrev pub no_digit : Text → Bool
no_digit [] = true
no_digit (c ∷ s) = if is_digit c then false else true

scan-end :
    (any : Bool) (v : ℕ) (rest : Text)
    → no_digit rest ≡ true
    → scan_digits any v rest ≡ (any, (v, rest))
unfolding scan_digits
scan-end any v [] h = refl
scan-end any v (c ∷ s) h = ground (arith, h)

scan-digit :
    (any : Bool) (v n : ℕ) (rest : Text)
    → n < 10
    → scan_digits any v ((b'0' + n) ∷ rest) ≡ scan_digits true (v * 10 + n) rest
unfolding scan_digits is_digit
scan-digit any v n rest h =
    let digit : is_digit (b'0' + n) ≡ true = ground arith in
    let value : v * 10 + (b'0' + n - b'0') ≡ v * 10 + n = omega arith in rw (digit, value) refl

scan-decimal_from :
    (fuel n : ℕ) (any : Bool) (rest : Text)
    → n < power_of_ten (suc fuel)
    → scan_digits any 0 (decimal_from (suc fuel) n rest) ≡ scan_digits true n rest
unfolding decimal_from
scan-decimal_from zero n any rest h =
    let one : ltb n 10 ≡ true = ground (arith, h) in
    rw one (
      scan-digit any 0 n rest (omega (arith, h))
      ∙ ap (λ v. scan_digits true v rest) {y = n} (omega arith))
scan-decimal_from (suc fuel) n any rest h = elim (Bool-cases (ltb n 10)) [
  | inl one ↦ rw one (
      scan-digit any 0 n rest (ltb→lt n 10 one)
      ∙ ap (λ v. scan_digits true v rest) {y = n} (omega arith))
  | inr more ↦ rw more (
      scan-decimal_from fuel (n / 10) any ((b'0' + n % 10) ∷ rest) (omega (arith, h))
      ∙ scan-digit true (n / 10) (n % 10) rest (omega arith)
      ∙ ap (λ v. scan_digits true v rest) {y = n} (omega arith))
]

pub decimal_from-append :
    (fuel n : ℕ) (s rest : Text) → decimal_from fuel n s ++ rest ≡ decimal_from fuel n (s ++ rest)
unfolding decimal_from
decimal_from-append zero n s rest = refl
decimal_from-append (suc fuel) n s rest = elim (Bool-cases (ltb n 10)) [
  | inl one ↦ rw one refl
  | inr more ↦ rw more (decimal_from-append fuel (n / 10) ((b'0' + n % 10) ∷ s) rest)
]

-- A number starts with a digit.
decimal_from-digit :
    (fuel n : ℕ) (rest : Text)
    → n < power_of_ten (suc fuel)
    → (d : ℕ) × (s : Text) × (d < 10) × (decimal_from (suc fuel) n rest ≡ (b'0' + d) ∷ s)
unfolding decimal_from
decimal_from-digit zero n rest h =
    let one : ltb n 10 ≡ true = ground (arith, h) in (n, rest, omega (arith, h), rw one refl)
decimal_from-digit (suc fuel) n rest h = elim (Bool-cases (ltb n 10)) [
  | inl one ↦ rw one (n, rest, ltb→lt n 10 one, refl)
  | inr more ↦
      rw more (decimal_from-digit fuel (n / 10) ((b'0' + n % 10) ∷ rest) (omega (arith, h)))
]

read-digit :
    (has_sign : Bool) (d : ℕ) (s : Text)
    → d < 10
    → extract has_sign ((b'0' + d) ∷ s)
      ≡ scanned has_sign false (scan_digits false 0 ((b'0' + d) ∷ s))
unfolding extract skip_space read_signed is_space
read-digit has_sign d s h =
    let space : is_space (b'0' + d) ≡ false = ground arith in
    let minus : ((b'0' + d) == b'-') ≡ false = ground arith in
    let plus : ((b'0' + d) == b'+') ≡ false = ground arith in rw (space, minus, plus) refl

-- What >> reads of a printed number that no digit follows.
pub extract-decimal :
    (has_sign : Bool) (n : ℕ) (rest : Text)
    → n < 2 ^ 64
    → no_digit rest ≡ true
    → extract has_sign (decimal_from 20 n rest) ≡ in_limits has_sign false n rest
unfolding scanned
extract-decimal has_sign n rest h end =
    let (d, s, small, e) = decimal_from-digit 19 n rest (omega (arith, h)) in
    ap (extract has_sign) e
    ∙ read-digit has_sign d s small
    ∙ ap (λ t. scanned has_sign false (scan_digits false 0 t)) (sym e)
    ∙ ap (scanned has_sign false)
        (scan-decimal_from 19 n false rest (omega (arith, h)) ∙ scan-end true n rest end)

pub extract-minus :
    (has_sign : Bool) (n : ℕ) (rest : Text)
    → n < 2 ^ 64
    → no_digit rest ≡ true
    → extract has_sign (b'-' ∷ decimal_from 20 n rest) ≡ in_limits has_sign true n rest
unfolding extract skip_space read_signed is_space scanned
extract-minus has_sign n rest h end =
    ap (scanned has_sign true)
      (scan-decimal_from 19 n false rest (omega (arith, h)) ∙ scan-end true n rest end)
