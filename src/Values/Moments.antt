-- ===== src/Values/Moments.antt =====
-- Values that go through an adapter and come back as strings.
use libtabula.Prelude.{
  ◌≡◌, refl, sym, ap, ◌∙◌, Bool, true, false, [], ◌∷◌, ◌++◌, some, if◌then◌else◌, append-nil, not,
  arith,
}
use libtabula.Prelude.Int.{ℤ}
use libtabula.Prelude.Decimal.{set_width_4}
use libtabula.Prelude.Bytes.{Text, codes}
use libtabula.Adapter.{quoted, quote_q, base_quote_q, base_escape_q, is_sql_datetime, starts_with}
use libtabula.Calendar.{DateTime, print_date_time, print_date}
use libtabula.Calendar.RoundTrip.{DateFits, TimeFits, convert_date_time-print_date_time}
use libtabula.Listed.{quote, surround, if_escaped, written}
use libtabula.Strings.Dates.{to_date_time, converted}
use libtabula.Strings.Integers.{Fits, conv-print_number}
use libtabula.Strings.Numbers.{IntType, conv, number}
use libtabula.Values.{print_number, of_number, of_date_time, as_string}

-- An integer of a type that is put into an adapter is written without quotes, as the stream prints
-- it, and the string that shares the adapter's buffer converts back to the integer.
pub conv-of_number :
    (t : IntType) (z : ℤ) (escape_string : Text → Text)
    → Fits t z
    → (written escape_string quote (of_number z) ≡ print_number z)
      × (conv t (as_string (of_number z)) ≡ number z)
unfolding written of_number as_string surround if_escaped quote_q base_quote_q base_escape_q
    is_sql_datetime
conv-of_number t z escape_string h =
    (refl, conv-print_number t z [] (of_number z).buffer h refl (sym (append-nil (print_number z))))

not_now :
    (dt : DateTime)
    → dt.now ≡ false
    → DateFits dt.date
    → starts_with (codes "NOW()") (print_date_time dt) ≡ false
unfolding print_date_time print_date starts_with
not_now dt set f = rw set (rw (set_width_4 dt.date.year f.year) (ground arith))

starts_now :
    (dt : DateTime) → dt.now ≡ true → starts_with (codes "NOW()") (print_date_time dt) ≡ true
unfolding print_date_time starts_with
starts_now dt h = rw h refl

print_now : (dt : DateTime) → dt.now ≡ true → print_date_time dt ≡ codes "NOW()"
unfolding print_date_time
print_now dt h = rw h refl

quoted_unless : (b : Bool) → (if b then false else true) ≡ not b
quoted_unless true = refl
quoted_unless false = refl

quoted-of_date_time :
    (dt : DateTime)
    → quoted (of_date_time dt) ≡ not (starts_with (codes "NOW()") (print_date_time dt))
unfolding of_date_time quote_q base_quote_q is_sql_datetime
quoted-of_date_time dt = quoted_unless (starts_with (codes "NOW()") (print_date_time dt))

-- A date and time whose members fit their widths is written as the bare call NOW() if it is the
-- current one. If it is not, it is written between quotes as it is printed, and the string that shares
-- the adapter's buffer converts back to it.
pub to_date_time-of_date_time :
    (dt : DateTime) (escape_string : Text → Text)
    → DateFits dt.date
    → TimeFits dt.time
    → (dt.now ≡ true → written escape_string quote (of_date_time dt) ≡ codes "NOW()")
      × (dt.now ≡ false
          → (written escape_string quote (of_date_time dt)
              ≡ b'\'' ∷ (print_date_time dt ++ b'\'' ∷ []))
            × (to_date_time (as_string (of_date_time dt)) ≡ some dt))
unfolding written surround if_escaped of_date_time to_date_time as_string base_escape_q
    print_date_time
to_date_time-of_date_time dt escape_string f g = (
  λ h.
      ap (λ q. surround b'\'' q (print_date_time dt))
        (quoted-of_date_time dt ∙ ap not (starts_now dt h))
      ∙ print_now dt h,
  λ h. (
    ap (λ q. surround b'\'' q (print_date_time dt))
        (quoted-of_date_time dt ∙ ap not (not_now dt h f)),
    ap converted (convert_date_time-print_date_time dt (0 ∷ []) h f g),
  ),
)
