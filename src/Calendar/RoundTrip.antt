-- ===== src/Calendar/RoundTrip.antt =====
-- What is printed is converted back.
use libtabula.Prelude.{◌%◌, ◌<◌, ◌≡◌, false, ◌∷◌, ◌++◌, Option, some, arith, append_assoc}
use libtabula.Prelude.Bytes.{Text}
use libtabula.Prelude.Decimal.{set_width_2, set_width_4, strtol_2, strtol_4}
use libtabula.Calendar.{
  Date, Time, DateTime, print_date, print_time, print_date_time, convert_date, convert_time,
  convert_date_time, skip_one,
}

-- Members that fit the widths that they are printed with.
pub record DateFits (d : Date) : Type 0 where
  pub year : d.year < 10000
  pub month : d.month < 100
  pub day : d.day < 100

pub record TimeFits (t : Time) : Type 0 where
  pub hour : t.hour < 100
  pub minute : t.minute < 100
  pub second : t.second < 100

-- A date whose members fit their widths is read back from its text, whatever follows it.
pub convert_date-print_date :
    (d : Date) (rest : Text) → DateFits d → convert_date (print_date d ++ rest) ≡ some (d, rest)
unfolding convert_date print_date
convert_date-print_date d rest f =
    rw (set_width_4 d.year f.year, set_width_2 d.month f.month, set_width_2 d.day f.day)
      (rw (strtol_4 d.year f.year, strtol_2 d.month f.month, strtol_2 d.day f.day) same)
  where
    same :
        ◌≡◌ {A = Option (Date × Text)}
          (some (record { year = d.year % 65536; month = d.month % 256; day = d.day % 256 }, rest))
          (some (d, rest))
    same = ground arith

-- A time whose members have two digits is read back from its text, whatever follows it.
pub convert_time-print_time :
    (t : Time) (rest : Text) → TimeFits t → convert_time (print_time t ++ rest) ≡ some (t, rest)
unfolding convert_time print_time
convert_time-print_time t rest f =
    rw (set_width_2 t.hour f.hour, set_width_2 t.minute f.minute, set_width_2 t.second f.second)
      (rw (strtol_2 t.hour f.hour, strtol_2 t.minute f.minute, strtol_2 t.second f.second) same)
  where
    same :
        ◌≡◌ {A = Option (Time × Text)}
          (some (
            record { hour = t.hour % 256; minute = t.minute % 256; second = t.second % 256 },
            rest,
          ))
          (some (t, rest))
    same = ground arith

-- A date and time that is not NOW() and whose members fit their widths is read back from its text,
-- whatever follows it.
pub convert_date_time-print_date_time :
    (dt : DateTime) (rest : Text)
    → dt.now ≡ false
    → DateFits dt.date
    → TimeFits dt.time
    → convert_date_time (print_date_time dt ++ rest) ≡ some (dt, rest)
unfolding convert_date_time print_date_time skip_one
convert_date_time-print_date_time dt rest set f g = rw set (
    rw (append_assoc (print_date dt.date) (b' ' ∷ print_time dt.time) rest) (
      rw (convert_date-print_date dt.date (b' ' ∷ (print_time dt.time ++ rest)) f)
        (rw (convert_time-print_time dt.time rest g) (rw (← set)))))
