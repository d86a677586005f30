-- ===== src/Calendar.antt =====
-- Dates and times: Date, Time and DateTime (src/datetime.h, src/datetime.cpp) and the comparisons
-- of Comparable (src/comparable.h). A C string is the list of its bytes up to its NUL, the NUL
-- included; what lies behind is out of bounds. The local time of the platform is left out.
pub mod RoundTrip
pub mod Compare
pub mod Short
pub mod Tests
use libtabula.Prelude.{
  ℕ, zero, suc, ◌+◌, ◌-◌, ◌*◌, ◌%◌, Bool, true, false, not, ◌&&◌, List, [], ◌∷◌, ◌++◌, Option, none,
  some, ◌==◌, if◌then◌else◌, ◌>>=◌,
}
use libtabula.Prelude.Int.{ℤ, pos, negsuc, sub_ℕ, ltb_ℤ}
use libtabula.Prelude.Bytes.{Text, codes}
use libtabula.Prelude.Decimal.{set_width, strtol}

pub record Date : Type 0 where
  pub year : ℕ
  pub month : ℕ
  pub day : ℕ

pub record Time : Type 0 where
  pub hour : ℕ
  pub minute : ℕ
  pub second : ℕ

pub record DateTime : Type 0 where
  pub date : Date
  pub time : Time
  pub now : Bool

-- DateTime() and NOW().
abbrev pub now : DateTime
now = record {
  date = record { year = 0; month = 0; day = 0 };
  time = record { hour = 0; minute = 0; second = 0 };
  now = true;
}

-- A setter of DateTime's year; the others do the same to their members.
abbrev pub set_year : ℕ → DateTime → DateTime
set_year y dt = record dt { date = record dt.date { year = y }; now = false }

unfoldable pub print_date : Date → Text
print_date d = set_width 4 d.year ++ (b'-' ∷ (set_width 2 d.month ++ (b'-' ∷ set_width 2 d.day)))

unfoldable pub print_time : Time → Text
print_time t =
    set_width 2 t.hour ++ (b':' ∷ (set_width 2 t.minute ++ (b':' ∷ set_width 2 t.second)))

unfoldable pub print_date_time : DateTime → Text
unfolding print_date print_time
print_date_time dt =
    if dt.now then codes "NOW()" else print_date dt.date ++ (b' ' ∷ print_time dt.time)

-- *str++, twice and four times.
unfoldable pub take_two : Text → Option (Text × Text)
take_two (a ∷ b ∷ s) = some (a ∷ b ∷ [], s)
take_two _ = none

unfoldable pub take_four : Text → Option (Text × Text)
take_four (a ∷ b ∷ c ∷ d ∷ s) = some (a ∷ b ∷ c ∷ d ∷ [], s)
take_four _ = none

-- if (*str == sep) str++
unfoldable pub skip_one : ℕ → Text → Option Text
skip_one sep [] = none
skip_one sep (c ∷ s) = some (if c == sep then s else c ∷ s)

-- The conversion of a long to an unsigned type of the given size.
abbrev pub to_unsigned : ℕ → ℤ → ℕ
to_unsigned size (pos n) = n % size
to_unsigned size (negsuc n) = size - 1 - n % size

abbrev uchar : Text → ℕ
uchar num = to_unsigned 256 (strtol num)

-- none is a read out of bounds.
unfoldable pub convert_date : Text → Option (Date × Text)
unfolding take_two take_four skip_one
convert_date str = do
  (y, s₁) ← take_four str
  s₂ ← skip_one b'-' s₁
  (m, s₃) ← take_two s₂
  s₄ ← skip_one b'-' s₃
  (d, s₅) ← take_two s₄
  some (record { year = to_unsigned 65536 (strtol y); month = uchar m; day = uchar d }, s₅)

unfoldable pub convert_time : Text → Option (Time × Text)
unfolding take_two skip_one
convert_time str = do
  (h, s₁) ← take_two str
  s₂ ← skip_one b':' s₁
  (m, s₃) ← take_two s₂
  s₄ ← skip_one b':' s₃
  (s, s₅) ← take_two s₄
  some (record { hour = uchar h; minute = uchar m; second = uchar s }, s₅)

unfoldable pub convert_date_time : Text → Option (DateTime × Text)
unfolding convert_date convert_time skip_one
convert_date_time str = do
  (d, s₁) ← convert_date str
  s₂ ← skip_one b' ' s₁
  (t, s₃) ← convert_time s₂
  some (record { date = d; time = t; now = false }, s₃)

unfoldable pub compare_date : Date → Date → ℤ
compare_date a b =
    if not (a.year == b.year)
    then sub_ℕ a.year b.year
    else if not (a.month == b.month)
    then sub_ℕ a.month b.month
    else sub_ℕ a.day b.day

unfoldable pub compare_time : Time → Time → ℤ
compare_time a b =
    if not (a.hour == b.hour)
    then sub_ℕ a.hour b.hour
    else if not (a.minute == b.minute)
    then sub_ℕ a.minute b.minute
    else sub_ℕ a.second b.second

-- if (int x = ...) return x, else the second.
abbrev pub or_then : ℤ → ℤ → ℤ
or_then (pos zero) y = y
or_then (pos (suc n)) y = pos (suc n)
or_then (negsuc n) y = negsuc n

unfoldable pub compare_date_time : DateTime → DateTime → ℤ
unfolding compare_date compare_time
compare_date_time a b =
    if a.now && b.now
    then pos 0
    else or_then (compare_date a.date b.date) (compare_time a.time b.time)

-- Comparable: operator == and operator <.
abbrev pub is_eq : ℤ → Bool
is_eq (pos zero) = true
is_eq _ = false

abbrev pub is_lt : ℤ → Bool
is_lt c = ltb_ℤ c (pos 0)
