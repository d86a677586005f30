-- ===== src/Strings/Tests.antt =====
-- Tests of strings, and their theorems at concrete inputs.
use libtabula.Prelude.{
  ◌-◌, ◌%◌, ◌^◌, ◌≡◌, ◌↔◌, ◌≤◌, ◌<◌, refl, true, false, [], ◌∷◌, ◌++◌, some, none, arith,
}
use libtabula.Prelude.Int.{pos, negsuc}
use libtabula.Prelude.Bytes.{Text, codes, before, is_space, is_digit}
use libtabula.Prelude.Decimal.{decimal_from}
use libtabula.Adapter.{SqlBuffer, ft_text}
use libtabula.Values.{print_number}
use libtabula.Strings.{
  String, equals, compare_string, compare_c, strncmp, size, at, bad_index, char_of, same,
  compare_text,
}
use libtabula.Strings.Numbers.{
  int, long, unsigned_char, conv, number, bad_conversion, with_sign, do_conv, judged, extract,
  scan_digits, skip_space, read_signed, scanned, in_limits, after_number, only_zeros, narrow,
  wrapped, is_signed, half,
}
use libtabula.Strings.Order.{flip, equals-before}
use libtabula.Strings.Integers.{Fits, conv-print_number}
use libtabula.Strings.Errors.{conv-bad, conv-silent}

abbrev buffer_of : Text → SqlBuffer
buffer_of t = record { bytes = t; base = ft_text; nullable = false; is_null = false }

abbrev string_of : Text → String
string_of t = some (buffer_of t)

-- Behind the NUL the two differ.
equals-before_example :
    ((equals (string_of (97 ∷ 0 ∷ 98 ∷ [])) (string_of (97 ∷ 0 ∷ 99 ∷ [])) ≡ true)
      ↔ (before 0 (97 ∷ 0 ∷ 98 ∷ []) ≡ before 0 (97 ∷ 0 ∷ 99 ∷ [])))
    × (compare_string (string_of (97 ∷ 0 ∷ 99 ∷ [])) (string_of (97 ∷ 0 ∷ 98 ∷ []))
        ≡ flip (compare_string (string_of (97 ∷ 0 ∷ 98 ∷ [])) (string_of (97 ∷ 0 ∷ 99 ∷ []))))
equals-before_example =
    equals-before (string_of (97 ∷ 0 ∷ 98 ∷ [])) (string_of (97 ∷ 0 ∷ 99 ∷ [])) (λ e. cc) (λ e. cc)

conv-bad_example :
    (codes " 12x" ≡ codes " " ++ codes "x" → conv int (string_of (codes " 12x")) ≡ bad_conversion)
    × (codes " 12x" ≡ codes " " ++ (print_number (pos 12) ++ codes "x")
        → conv int (string_of (codes " 12x")) ≡ bad_conversion)
unfolding is_space is_digit
conv-bad_example =
    conv-bad int (codes " ") 12 b'x' [] (buffer_of (codes " 12x")) (refl, tt) (omega arith)
      (record { no_space = refl; no_digit_here = refl; no_sign = refl; no_point = refl })

conv-silent_example :
    (codes "4294967297" ≡ codes "  " → conv int (string_of (codes "4294967297")) ≡ number (pos 0))
    × ((codes "4294967297" ≡ print_number (pos 4294967297)
          → 2 ^ 63 ≤ 4294967297
          → conv long (string_of (codes "4294967297")) ≡ number (pos (2 ^ 63 - 1)))
        × (codes "4294967297" ≡ print_number (pos 4294967297)
            → 4294967297 < 2 ^ 63
            → conv int (string_of (codes "4294967297"))
              ≡ number (with_sign (2 ^ 31) (4294967297 % 2 ^ 32))))
unfolding is_space
conv-silent_example =
    conv-silent int (codes "  ") 4294967297 (buffer_of (codes "4294967297")) (refl, (refl, tt))
      (omega arith)

-- The value that is left of it in 32 bits is 1.
conv_wraps : conv int (string_of (codes "4294967297")) ≡ number (pos 1)
unfolding conv do_conv judged extract scan_digits skip_space read_signed scanned in_limits
    after_number narrow wrapped with_sign is_signed half is_space is_digit
conv_wraps = refl

-- A minus sign alone is zero, and a negative number wraps around in an unsigned type.
conv_sign : conv int (string_of (codes "-")) ≡ number (pos 0)
unfolding conv do_conv judged extract scan_digits skip_space read_signed scanned in_limits
    after_number narrow wrapped with_sign is_signed half is_space is_digit
conv_sign = refl

conv_minus_one : conv unsigned_char (string_of (codes " -1.0 ")) ≡ number (pos 255)
unfolding conv do_conv judged extract scan_digits skip_space read_signed scanned in_limits
    after_number only_zeros narrow wrapped with_sign is_signed half is_space is_digit
conv_minus_one = refl

at_case : at (string_of (codes "abc")) 3 ≡ bad_index 3 3
unfolding at size char_of
at_case = refl

-- A string without a buffer is the same as an empty one, and a NUL alone is above it.
compare_case : (compare_text none [] ≡ same) × (equals (string_of (0 ∷ [])) none ≡ false)
unfolding compare_text compare_c size strncmp equals compare_string
compare_case = (refl, refl)

conv-print_number_example : conv int (string_of (codes "-42.00")) ≡ number (negsuc 41)
unfolding print_number decimal_from Fits is_signed half is_space only_zeros
conv-print_number_example =
    conv-print_number int (negsuc 41) (codes ".00") (buffer_of (codes "-42.00")) (refl, omega arith)
      refl refl
