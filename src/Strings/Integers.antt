-- ===== src/Strings/Integers.antt =====
-- The conversion of printed integers, and the errors of the conversion.
use libtabula.Prelude.{
  ℕ, suc, ◌*◌, ◌^◌, ◌≡◌, ◌<◌, refl, ap, ◌∙◌, Bool, true, false, [], ◌∷◌, ◌++◌, some, ◌==◌, ltb, leb,
  if◌then◌else◌, arith, Bool-cases, inl, inr, false≢true, ◌&&◌,
}
use libtabula.Prelude.Int.{ℤ, pos, negsuc}
use libtabula.Prelude.Bytes.{Text, is_digit, is_space}
use libtabula.Adapter.{SqlBuffer}
use libtabula.Values.{print_number}
use libtabula.Strings.Numbers.{
  IntType, signed_char, short, int, long, unsigned_char, unsigned_short, unsigned_int,
  unsigned_long, is_signed, half, wrapped, with_sign, narrow, skip_space, in_limits, extract,
  only_zeros, number, after_number, judged, do_conv, narrowed, conv,
}
use libtabula.Strings.Convert.{no_digit, decimal_from-append, extract-decimal, extract-minus}

-- The values of a type.
unfoldable pub Fits : IntType → ℤ → Type 0
Fits t (pos n) = n < (if is_signed t then half t else 2 * half t)
Fits t (negsuc n) = (is_signed t ≡ true) × (n < half t)

narrow-Fits : (t : IntType) (z : ℤ) → Fits t z → narrow t z ≡ z
unfolding Fits narrow is_signed half wrapped with_sign
narrow-Fits signed_char (pos n) h = ground (arith, h)
narrow-Fits short (pos n) h = ground (arith, h)
narrow-Fits int (pos n) h = ground (arith, h)
narrow-Fits long (pos n) h = ground (arith, h)
narrow-Fits unsigned_char (pos n) h = ground (arith, h)
narrow-Fits unsigned_short (pos n) h = ground (arith, h)
narrow-Fits unsigned_int (pos n) h = ground (arith, h)
narrow-Fits unsigned_long (pos n) h = ground (arith, h)
narrow-Fits signed_char (negsuc n) (s, h) = ground (arith, h)
narrow-Fits short (negsuc n) (s, h) = ground (arith, h)
narrow-Fits int (negsuc n) (s, h) = ground (arith, h)
narrow-Fits long (negsuc n) (s, h) = ground (arith, h)
narrow-Fits unsigned_char (negsuc n) (s, h) = absurd (false≢true s)
narrow-Fits unsigned_short (negsuc n) (s, h) = absurd (false≢true s)
narrow-Fits unsigned_int (negsuc n) (s, h) = absurd (false≢true s)
narrow-Fits unsigned_long (negsuc n) (s, h) = absurd (false≢true s)

-- Nothing, or a decimal point with zeros only behind it.
abbrev pub no_fraction : Text → Bool
no_fraction [] = true
no_fraction (c ∷ s) = (c == b'.') && only_zeros s

no_fraction-no_digit : (rest : Text) → no_fraction rest ≡ true → no_digit rest ≡ true
unfolding is_digit
no_fraction-no_digit [] h = refl
no_fraction-no_digit (c ∷ s) h = ground (arith, h)

judged-good :
    (z : ℤ) (rest : Text)
    → no_fraction rest ≡ true
    → judged (record { failed = false; num = z; rest = rest }) ≡ number z
unfolding judged after_number skip_space is_space
judged-good z [] h = refl
judged-good z (c ∷ s) h = elim (Bool-cases (c == b'.')) [
  | inl dot ↦ let point : c ≡ b'.' = ground (arith, dot) in dotted c point h
  | inr other ↦ absurd (ground (arith, other, h))
]
  where
    dotted :
        (c : ℕ)
        → c ≡ b'.'
        → ((c == b'.') && only_zeros s) ≡ true
        → after_number z (if is_space c then skip_space s else c ∷ s) ≡ number z
    dotted c e h = let space : is_space c ≡ false = ground (arith, e) in rw (space, h) refl

judged-signed :
    (n : ℕ) (rest : Text)
    → n < 2 ^ 63
    → no_fraction rest ≡ true
    → judged (in_limits true false n rest) ≡ number (pos n)
unfolding in_limits
judged-signed n rest h end =
    let inside : ltb n (2 ^ 63) ≡ true = ground (arith, h) in
    rw inside (judged-good (pos n) rest end)

judged-minus :
    (n : ℕ) (rest : Text)
    → n < 2 ^ 63
    → no_fraction rest ≡ true
    → judged (in_limits true true (suc n) rest) ≡ number (negsuc n)
unfolding in_limits
judged-minus n rest h end =
    let inside : leb (suc n) (2 ^ 63) ≡ true = ground (arith, h) in
    rw inside (judged-good (negsuc n) rest end)

judged-unsigned :
    (n : ℕ) (rest : Text)
    → n < 2 ^ 64
    → no_fraction rest ≡ true
    → judged (in_limits false false n rest) ≡ number (pos n)
unfolding in_limits
judged-unsigned n rest h end =
    let inside : ltb n (2 ^ 64) ≡ true = ground (arith, h) in
    rw inside (judged-good (pos n) rest end)

-- The values of long or of unsigned long.
pub FitsLong : Bool → ℤ → Type 0
FitsLong has_sign (pos n) = n < (if has_sign then 2 ^ 63 else 2 ^ 64)
FitsLong has_sign (negsuc n) = (has_sign ≡ true) × (n < 2 ^ 63)

pub Fits-FitsLong : (t : IntType) (z : ℤ) → Fits t z → FitsLong (is_signed t) z
unfolding Fits FitsLong is_signed half
Fits-FitsLong signed_char (pos n) h = omega (arith, h)
Fits-FitsLong short (pos n) h = omega (arith, h)
Fits-FitsLong int (pos n) h = omega (arith, h)
Fits-FitsLong long (pos n) h = omega (arith, h)
Fits-FitsLong unsigned_char (pos n) h = omega (arith, h)
Fits-FitsLong unsigned_short (pos n) h = omega (arith, h)
Fits-FitsLong unsigned_int (pos n) h = omega (arith, h)
Fits-FitsLong unsigned_long (pos n) h = omega (arith, h)
Fits-FitsLong signed_char (negsuc n) (s, h) = (s, omega (arith, h))
Fits-FitsLong short (negsuc n) (s, h) = (s, omega (arith, h))
Fits-FitsLong int (negsuc n) (s, h) = (s, omega (arith, h))
Fits-FitsLong long (negsuc n) (s, h) = (s, omega (arith, h))
Fits-FitsLong unsigned_char (negsuc n) (s, h) = (s, absurd (false≢true s))
Fits-FitsLong unsigned_short (negsuc n) (s, h) = (s, absurd (false≢true s))
Fits-FitsLong unsigned_int (negsuc n) (s, h) = (s, absurd (false≢true s))
Fits-FitsLong unsigned_long (negsuc n) (s, h) = (s, absurd (false≢true s))

judged-print_number :
    (has_sign : Bool) (z : ℤ) (rest : Text)
    → FitsLong has_sign z
    → no_fraction rest ≡ true
    → judged (extract has_sign (print_number z ++ rest)) ≡ number z
unfolding FitsLong print_number
judged-print_number true (pos n) rest h end =
    ap (λ s. judged (extract true s)) (decimal_from-append 20 n [] rest)
    ∙ ap judged (extract-decimal true n rest (omega (arith, h)) (no_fraction-no_digit rest end))
    ∙ judged-signed n rest h end
judged-print_number false (pos n) rest h end =
    ap (λ s. judged (extract false s)) (decimal_from-append 20 n [] rest)
    ∙ ap judged (extract-decimal false n rest h (no_fraction-no_digit rest end))
    ∙ judged-unsigned n rest h end
judged-print_number true (negsuc n) rest (s, h) end =
    ap (λ s. judged (extract true (b'-' ∷ s))) (decimal_from-append 20 (suc n) [] rest)
    ∙ ap judged (extract-minus true (suc n) rest (omega (arith, h)) (no_fraction-no_digit rest end))
    ∙ judged-minus n rest h end
judged-print_number false (negsuc n) rest (s, h) end = absurd (false≢true s)

-- A string that holds the text that is printed for an integer of a type, and behind it at most a
-- decimal point with zeros, converts to that integer.
pub conv-print_number :
    (t : IntType) (z : ℤ) (rest : Text) (b : SqlBuffer)
    → Fits t z
    → no_fraction rest ≡ true
    → b.bytes ≡ print_number z ++ rest
    → conv t (some b) ≡ number z
unfolding conv do_conv
conv-print_number t z rest b h end e =
    ap (λ s. narrowed t (judged (extract (is_signed t) s))) e
    ∙ ap (narrowed t) (judged-print_number (is_signed t) z rest (Fits-FitsLong t z h) end)
    ∙ ap number (narrow-Fits t z h)
