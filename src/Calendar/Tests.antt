-- ===== src/Calendar/Tests.antt =====
-- Tests of dates and times, and their theorems at concrete inputs.
use libtabula.Prelude.{◌≡◌, refl, true, false, [], ◌∷◌, ◌++◌, none, some, arith}
use libtabula.Prelude.Int.{pos}
use libtabula.Prelude.Bytes.{codes}
use libtabula.Calendar.{
  Date, Time, DateTime, now, print_date, print_time, print_date_time, convert_date, convert_time,
  convert_date_time, compare_date, compare_date_time, is_eq, is_lt,
}
use libtabula.Calendar.RoundTrip.{
  convert_date-print_date, convert_time-print_time, convert_date_time-print_date_time,
}
use libtabula.Calendar.Compare.{compare_date-date_number, compare_date_time-moment}
use libtabula.Calendar.Short.{convert_date-none}

abbrev leap_day : Date
leap_day = record { year = 2024; month = 2; day = 29 }

abbrev late : Time
late = record { hour = 23; minute = 59; second = 7 }

abbrev moment_late : DateTime
moment_late = record { date = leap_day; time = late; now = false }

-- NOW() and the moment whose members are zero compare as equal.
now_is_zero : compare_date_time now (record now { now = false }) ≡ pos 0
unfolding compare_date_time
now_is_zero = refl

convert_date-print_date_case :
    convert_date (print_date leap_day ++ codes "T") ≡ some (leap_day, codes "T")
convert_date-print_date_case =
    convert_date-print_date leap_day (codes "T")
      (record { year = ground arith; month = ground arith; day = ground arith })

convert_time-print_time_case : convert_time (print_time late ++ 0 ∷ []) ≡ some (late, 0 ∷ [])
convert_time-print_time_case =
    convert_time-print_time late (0 ∷ [])
      (record { hour = ground arith; minute = ground arith; second = ground arith })

convert_date_time-print_date_time_case :
    convert_date_time (print_date_time moment_late ++ 0 ∷ []) ≡ some (moment_late, 0 ∷ [])
convert_date_time-print_date_time_case =
    convert_date_time-print_date_time moment_late (0 ∷ []) refl
      (record { year = ground arith; month = ground arith; day = ground arith })
      (record { hour = ground arith; minute = ground arith; second = ground arith })

abbrev new_year : Date
new_year = record { year = 2025; month = 1; day = 1 }

compare_date-date_number_example :
    (is_lt (compare_date leap_day new_year) ≡ true)
    × (is_eq (compare_date leap_day new_year) ≡ false)
compare_date-date_number_example =
    compare_date-date_number leap_day new_year (record { month = ground arith; day = ground arith })
      (record { month = ground arith; day = ground arith })

compare_date_time-moment_case :
    (is_lt (compare_date_time moment_late now) ≡ false)
    × (is_eq (compare_date_time moment_late now) ≡ false)
compare_date_time-moment_case =
    compare_date_time-moment moment_late now refl
      (record { month = ground arith; day = ground arith })
      (record { month = ground arith; day = ground arith })
      (record { hour = ground arith; minute = ground arith; second = ground arith })
      (record { hour = ground arith; minute = ground arith; second = ground arith })

convert_date-none_case : convert_date (codes "12:30" ++ 0 ∷ []) ≡ none
convert_date-none_case = convert_date-none (codes "12:30" ++ 0 ∷ []) (ground arith)
