-- ===== src/Values.antt =====
-- The values that SQLTypeAdapter is made from, src/stadapter.cpp, with stream2string() of
-- src/stream2string.h and the types that SQLBuffer finds for the C++ types; and its at() and compare().
-- Floating-point numbers are left out.
pub mod Prefix
pub mod Moments
pub mod Tests
use libtabula.Prelude.{
  ℕ, zero, suc, Bool, true, false, List, [], ◌∷◌, ◌++◌, Option, none, some, leb, if◌then◌else◌,
  length, get_elem?,
}
use libtabula.Prelude.Int.{ℤ, pos, negsuc}
use libtabula.Prelude.Bytes.{Text, codes}
use libtabula.Prelude.Decimal.{decimal_from}
use libtabula.Adapter.{
  Base, ft_integer, ft_null, ft_text, ft_date, ft_time, ft_datetime, SqlBuffer, SqlTypeAdapter,
  of_text,
}
use libtabula.Calendar.{Date, Time, DateTime, print_date, print_time, print_date_time}
use libtabula.Nullable.{Null}
use libtabula.Strings.{String, Sign, strncmp}

-- stream2string() of an integer, which has at most 20 digits.
unfoldable pub print_number : ℤ → Text
unfolding decimal_from
print_number (pos n) = decimal_from 20 n []
print_number (negsuc n) = b'-' ∷ decimal_from 20 (suc n) []

-- A value of a type that is not nullable.
abbrev pub of_type : Base → Text → SqlTypeAdapter
of_type b s = record {
  buffer = record { bytes = s; base = b; nullable = false; is_null = false };
  is_processed = false;
}

-- The constructors from short, int, long, tiny_int and the like.
unfoldable pub of_number : ℤ → SqlTypeAdapter
unfolding print_number
of_number i = of_type ft_integer (print_number i)

unfoldable pub of_char : ℕ → SqlTypeAdapter
unfolding of_text
of_char c = of_text (c ∷ []) false

unfoldable pub of_date : Date → SqlTypeAdapter
unfolding print_date
of_date d = of_type ft_date (print_date d)

unfoldable pub of_time : Time → SqlTypeAdapter
unfolding print_time
of_time t = of_type ft_time (print_time t)

unfoldable pub of_date_time : DateTime → SqlTypeAdapter
unfolding print_date_time
of_date_time dt = of_type ft_datetime (print_date_time dt)

-- The constructor from null, and assign() of it.
unfoldable pub of_null : SqlTypeAdapter
of_null = record {
  buffer = record { bytes = codes "NULL"; base = ft_null; nullable = false; is_null = true };
  is_processed = false;
}

-- The constructors from a nullable value: as of the value, if there is one.
unfoldable pub of_nullable : {A : Type 0} → (A → SqlTypeAdapter) → Null A → SqlTypeAdapter
unfolding of_null
of_nullable of_value i = if i.is_null then of_null else of_value i.data_

-- Those from a nullable string have the type of a string in both cases.
unfoldable pub of_nullable_text : Null Text → Bool → SqlTypeAdapter
of_nullable_text str processed = record {
  buffer = record {
    bytes = if str.is_null then codes "NULL" else str.data_;
    base = ft_text;
    nullable = true;
    is_null = str.is_null;
  };
  is_processed = processed;
}

-- String(adapter), which shares the buffer, and the constructor from a String that has one.
unfoldable pub as_string : SqlTypeAdapter → String
as_string a = some a.buffer

unfoldable pub of_buffer : SqlBuffer → Bool → SqlTypeAdapter
of_buffer b processed = record { buffer = b; is_processed = processed }

-- assign() of another adapter.
unfoldable pub assign : SqlTypeAdapter → SqlTypeAdapter → SqlTypeAdapter
assign sta a = record { buffer = sta.buffer; is_processed = false }

-- at(): the NUL behind the text is in bounds; none is BadIndex.
unfoldable pub at : SqlTypeAdapter → ℕ → Option ℕ
at a i = if leb i (length a.buffer.bytes) then get_elem? (a.buffer.bytes ++ 0 ∷ []) i else none

-- compare() with a text and with another adapter: as many characters as this one has.
unfoldable pub compare_text : SqlTypeAdapter → Text → Sign
unfolding strncmp
compare_text a other = strncmp (length a.buffer.bytes) a.buffer.bytes other

unfoldable pub compare : SqlTypeAdapter → SqlTypeAdapter → Sign
unfolding compare_text
compare a other = compare_text a other.buffer.bytes
