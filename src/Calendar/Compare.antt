-- ===== src/Calendar/Compare.antt =====
-- The comparisons, against the order of the moments in time.
use libtabula.Prelude.{ℕ, zero, suc, ◌+◌, ◌*◌, ◌<◌, ◌≡◌, false, ◌&&◌, ltb, ◌==◌, arith}
use libtabula.Prelude.Int.{ℤ, pos, negsuc}
use libtabula.Calendar.{
  Date, Time, DateTime, compare_date, compare_time, compare_date_time, is_eq, is_lt, or_then,
}

-- The members as one number.
abbrev pub date_number : Date → ℕ
date_number d = (d.year * 256 + d.month) * 256 + d.day

abbrev pub time_number : Time → ℕ
time_number t = (t.hour * 256 + t.minute) * 256 + t.second

abbrev pub moment : DateTime → ℕ
moment dt = date_number dt.date * 16777216 + time_number dt.time

-- The members that are unsigned chars.
pub record DateBytes (d : Date) : Type 0 where
  pub month : d.month < 256
  pub day : d.day < 256

pub record TimeBytes (t : Time) : Type 0 where
  pub hour : t.hour < 256
  pub minute : t.minute < 256
  pub second : t.second < 256

-- Dates compare as the numbers that their year, month and day make up.
pub compare_date-date_number :
    (a b : Date)
    → DateBytes a
    → DateBytes b
    → (is_lt (compare_date a b) ≡ ltb (date_number a) (date_number b))
      × (is_eq (compare_date a b) ≡ (date_number a == date_number b))
unfolding compare_date
compare_date-date_number a b f g =
    let m = f.month in let d = f.day in let m' = g.month in let d' = g.day in ground arith

pub compare_time-time_number :
    (a b : Time)
    → TimeBytes a
    → TimeBytes b
    → (is_lt (compare_time a b) ≡ ltb (time_number a) (time_number b))
      × (is_eq (compare_time a b) ≡ (time_number a == time_number b))
unfolding compare_time
compare_time-time_number a b f g =
    let m = f.minute in let s = f.second in let m' = g.minute in let s' = g.second in ground arith

or_then-lexicographic :
    (x y : ℤ) (p q r s : ℕ)
    → is_lt x ≡ ltb p q
    → is_eq x ≡ (p == q)
    → is_lt y ≡ ltb r s
    → is_eq y ≡ (r == s)
    → r < 16777216
    → s < 16777216
    → (is_lt (or_then x y) ≡ ltb (p * 16777216 + r) (q * 16777216 + s))
      × (is_eq (or_then x y) ≡ (p * 16777216 + r == q * 16777216 + s))
or_then-lexicographic (pos zero) y p q r s a b c d h k = ground arith
or_then-lexicographic (pos (suc n)) y p q r s a b c d h k = ground arith
or_then-lexicographic (negsuc n) y p q r s a b c d h k = ground arith

-- Two dates and times compare as moments: first by the date, then by the time. Both may not be
-- NOW(); a single NOW() counts as the moment whose members are all zero.
pub compare_date_time-moment :
    (a b : DateTime)
    → (a.now && b.now) ≡ false
    → DateBytes a.date
    → DateBytes b.date
    → TimeBytes a.time
    → TimeBytes b.time
    → (is_lt (compare_date_time a b) ≡ ltb (moment a) (moment b))
      × (is_eq (compare_date_time a b) ≡ (moment a == moment b))
unfolding compare_date_time
compare_date_time-moment a b set f g h k =
    let d = compare_date-date_number a.date b.date f g in
    let t = compare_time-time_number a.time b.time h k in
    rw set (
      or_then-lexicographic (compare_date a.date b.date) (compare_time a.time b.time)
        (date_number a.date) (date_number b.date) (time_number a.time) (time_number b.time) d.0 d.1
        t.0 t.1 (omega arith) (omega arith))
