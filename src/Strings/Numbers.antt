-- ===== src/Strings/Numbers.antt =====
-- The conversion of a string to an integer: String::conv() and do_conv() of src/mystring.h. A stream
-- reads a number as the C++ standard says, in the C locale: `long` and `unsigned long` have 64 bits.
use libtabula.Prelude.{
  ℕ, zero, suc, ◌+◌, ◌-◌, ◌*◌, ◌%◌, ◌^◌, Bool, true, false, ◌&&◌, ◌||◌, [], ◌∷◌, none, some, ◌==◌,
  ltb, leb, if◌then◌else◌,
}
use libtabula.Prelude.Int.{ℤ, pos, negsuc}
use libtabula.Prelude.Bytes.{Text, is_digit, is_space}
use libtabula.Strings.{String}

-- The types that a string is converted to; char, short, int and long, and those without a sign. The
-- types longlong and ulonglong are as the last two.
pub data IntType : Type 0 where
  signed_char short int long : IntType
  unsigned_char unsigned_short unsigned_int unsigned_long : IntType

unfoldable pub is_signed : IntType → Bool
is_signed signed_char = true
is_signed short = true
is_signed int = true
is_signed long = true
is_signed _ = false

-- Half of the number of values of a type.
unfoldable pub half : IntType → ℕ
half signed_char = 2 ^ 7
half unsigned_char = 2 ^ 7
half short = 2 ^ 15
half unsigned_short = 2 ^ 15
half int = 2 ^ 31
half unsigned_int = 2 ^ 31
half long = 2 ^ 63
half unsigned_long = 2 ^ 63

-- A value modulo 2 * h, without a sign and with one.
unfoldable pub wrapped : ℕ → ℤ → ℕ
wrapped h (pos n) = n % (2 * h)
wrapped h (negsuc n) = 2 * h - 1 - n % (2 * h)

unfoldable pub with_sign : ℕ → ℕ → ℤ
with_sign h m = if ltb m h then pos m else negsuc (2 * h - 1 - m)

-- The conversion of a long or an unsigned long to a type.
unfoldable pub narrow : IntType → ℤ → ℤ
unfolding is_signed half wrapped with_sign
narrow t z =
    if is_signed t then with_sign (half t) (wrapped (half t) z) else pos (wrapped (half t) z)

-- Whether there were digits, their value and what follows them.
unfoldable pub scan_digits : Bool → ℕ → Text → Bool × (ℕ × Text)
scan_digits any v [] = (any, (v, []))
scan_digits any v (c ∷ s) =
    let more = scan_digits true (v * 10 + (c - b'0')) s in
    if is_digit c then more else (any, (v, c ∷ s))

unfoldable pub skip_space : Text → Text
skip_space [] = []
skip_space (c ∷ s) = let rest = skip_space s in if is_space c then rest else c ∷ s

-- What >> leaves: whether it failed, the number, and what is not read.
pub record Extracted : Type 0 where
  pub failed : Bool
  pub num : ℤ
  pub rest : Text

abbrev pub negated : ℕ → ℤ
negated zero = pos 0
negated (suc n) = negsuc n

-- A number in the limits of its type, or the nearest limit and a failure.
unfoldable pub in_limits : Bool → Bool → ℕ → Text → Extracted
in_limits true false v rest =
    if ltb v (2 ^ 63)
    then record { failed = false; num = pos v; rest = rest }
    else record { failed = true; num = pos (2 ^ 63 - 1); rest = rest }
in_limits true true v rest =
    if leb v (2 ^ 63)
    then record { failed = false; num = negated v; rest = rest }
    else record { failed = true; num = negsuc (2 ^ 63 - 1); rest = rest }
in_limits false minus v rest =
    if ltb v (2 ^ 64)
    then record {
      failed = false;
      num = pos (if minus then (2 ^ 64 - v) % 2 ^ 64 else v);
      rest = rest;
    }
    else record { failed = true; num = pos (2 ^ 64 - 1); rest = rest }

unfoldable pub scanned : Bool → Bool → Bool × (ℕ × Text) → Extracted
unfolding in_limits
scanned has_sign minus (false, (v, rest)) = record { failed = true; num = pos 0; rest = rest }
scanned has_sign minus (true, (v, rest)) = in_limits has_sign minus v rest

unfoldable pub read_signed : Bool → Text → Extracted
unfolding scanned scan_digits
read_signed has_sign [] = record { failed = true; num = pos 0; rest = [] }
read_signed has_sign (c ∷ s) =
    if c == b'-'
    then scanned has_sign true (scan_digits false 0 s)
    else if c == b'+'
    then scanned has_sign false (scan_digits false 0 s)
    else scanned has_sign false (scan_digits false 0 (c ∷ s))

-- buf >> num.
unfoldable pub extract : Bool → Text → Extracted
unfolding read_signed skip_space
extract has_sign s = read_signed has_sign (skip_space s)

-- The loop that looks for other characters than zeros behind a decimal point.
unfoldable pub only_zeros : Text → Bool
only_zeros [] = true
only_zeros (c ∷ s) = (is_space c || c == b'0') && only_zeros s

-- A number, or BadConversion.
pub data Converted : Type 0 where
  number : ℤ → Converted
  bad_conversion : Converted

unfoldable pub after_number : ℤ → Text → Converted
unfolding only_zeros
after_number n [] = number n
after_number n (c ∷ s) = if (c == b'.') && only_zeros s then number n else bad_conversion

abbrev pub at_end : Text → Bool
at_end [] = true
at_end (c ∷ s) = false

unfoldable pub judged : Extracted → Converted
unfolding after_number skip_space
judged e =
    if e.failed
    then (if at_end e.rest then number e.num else bad_conversion)
    else after_number e.num (skip_space e.rest)

-- do_conv() for long or unsigned long.
unfoldable pub do_conv : Bool → String → Converted
unfolding judged extract
do_conv has_sign none = number (pos 0)
do_conv has_sign (some b) = judged (extract has_sign b.bytes)

abbrev pub narrowed : IntType → Converted → Converted
narrowed t (number z) = number (narrow t z)
narrowed t bad_conversion = bad_conversion

-- conv() to an integer.
unfoldable pub conv : IntType → String → Converted
unfolding do_conv narrow
conv t s = narrowed t (do_conv (is_signed t) s)
