-- ===== src/Strings/Dates.antt =====
-- The conversions of a string to dates and times, src/mystring.h, by the constructors of
-- src/datetime.h from a C string: the bytes of the buffer and the NUL behind them.
use libtabula.Prelude.{[], ◌∷◌, ◌++◌, Option, none, some}
use libtabula.Prelude.Bytes.{Text}
use libtabula.Adapter.{SqlBuffer}
use libtabula.Calendar.{Date, Time, DateTime, now, convert_date, convert_time, convert_date_time}
use libtabula.Strings.{String}

abbrev pub c_str : SqlBuffer → Text
c_str b = b.bytes ++ 0 ∷ []

-- What a constructor makes of a conversion; none is a read out of bounds.
abbrev pub converted : {A : Type 0} → Option (A × Text) → Option A
converted none = none
converted (some (a, rest)) = some a

-- operator Date, operator Time and operator DateTime.
unfoldable pub to_date : String → Option Date
to_date none = some (record { year = 0; month = 0; day = 0 })
to_date (some b) = converted (convert_date (c_str b))

unfoldable pub to_time : String → Option Time
to_time none = some (record { hour = 0; minute = 0; second = 0 })
to_time (some b) = converted (convert_time (c_str b))

unfoldable pub to_date_time : String → Option DateTime
to_date_time none = some now
to_date_time (some b) = converted (convert_date_time (c_str b))
