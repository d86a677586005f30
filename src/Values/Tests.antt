-- ===== src/Values/Tests.antt =====
-- Tests of adapters, and their theorems at concrete inputs.
use libtabula.Prelude.{◌≡◌, ◌↔◌, refl, true, false, [], ◌∷◌, ◌++◌, some, none, arith}
use libtabula.Prelude.Int.{negsuc}
use libtabula.Prelude.Bytes.{codes, starts_with}
use libtabula.Prelude.Decimal.{decimal_from}
use libtabula.Escape.{escape_string_generic}
use libtabula.Adapter.{of_text}
use libtabula.Calendar.{DateTime, print_date_time}
use libtabula.Listed.{quote, written}
use libtabula.Strings.{same, strncmp}
use libtabula.Strings.Dates.{to_date_time}
use libtabula.Strings.Integers.{Fits}
use libtabula.Strings.Numbers.{int, conv, number, is_signed, half}
use libtabula.Values.{print_number, of_number, of_date_time, as_string, compare, compare_text, at}
use libtabula.Values.Prefix.{compare-starts_with}
use libtabula.Values.Moments.{conv-of_number, to_date_time-of_date_time}

conv-of_number_case :
    (written escape_string_generic quote (of_number (negsuc 41)) ≡ codes "-42")
    × (conv int (as_string (of_number (negsuc 41))) ≡ number (negsuc 41))
unfolding print_number decimal_from Fits is_signed half
conv-of_number_case = conv-of_number int (negsuc 41) escape_string_generic (refl, omega arith)

abbrev noon : DateTime
noon = record {
  date = record { year = 2024; month = 2; day = 29 };
  time = record { hour = 12; minute = 0; second = 0 };
  now = false;
}

to_date_time-of_date_time_example :
    (false ≡ true → written escape_string_generic quote (of_date_time noon) ≡ codes "NOW()")
    × (false ≡ false
        → (written escape_string_generic quote (of_date_time noon)
            ≡ b'\'' ∷ (print_date_time noon ++ b'\'' ∷ []))
          × (to_date_time (as_string (of_date_time noon)) ≡ some noon))
to_date_time-of_date_time_example =
    to_date_time-of_date_time noon escape_string_generic
      (record { year = omega arith; month = omega arith; day = omega arith })
      (record { hour = omega arith; minute = omega arith; second = omega arith })

compare-starts_with_case :
    (compare (of_text (codes "ab") false) (of_text (codes "abc") false) ≡ same)
    ↔ (starts_with (codes "ab") (codes "abc") ≡ true)
unfolding of_text
compare-starts_with_case =
    compare-starts_with (of_text (codes "ab") false) (of_text (codes "abc") false)
      (λ e. absurd (omega (arith, e)), (λ e. absurd (omega (arith, e)), tt))

-- The other way round they are not the same.
compare_case :
    (compare (of_text (codes "abc") false) (of_text (codes "ab") false) ≡ same → false ≡ true)
unfolding compare compare_text strncmp of_text
compare_case e = cc

-- The NUL behind the text is in bounds.
at_case : (at (of_text (codes "ab") false) 2 ≡ some 0) × (at (of_text (codes "ab") false) 3 ≡ none)
unfolding at of_text
at_case = (refl, refl)
