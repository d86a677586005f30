-- ===== src/Calendar/Short.antt =====
-- Texts that are too short.
use libtabula.Prelude.{◌<◌, ◌≡◌, refl, [], ◌∷◌, none, length, arith}
use libtabula.Prelude.Bytes.{Text}
use libtabula.Calendar.{convert_date, take_two, take_four, skip_one}

-- The conversion of a date reads eight bytes, whatever they are: a string with fewer, its NUL
-- included, is read out of bounds.
pub convert_date-none : (s : Text) → length s < 8 → convert_date s ≡ none
unfolding convert_date take_two take_four skip_one
convert_date-none [] h = refl
convert_date-none (a ∷ []) h = refl
convert_date-none (a ∷ b ∷ []) h = refl
convert_date-none (a ∷ b ∷ c ∷ []) h = refl
convert_date-none (a ∷ b ∷ c ∷ d ∷ []) h = refl
convert_date-none (a ∷ b ∷ c ∷ d ∷ e ∷ []) h = ground arith
convert_date-none (a ∷ b ∷ c ∷ d ∷ e ∷ f ∷ []) h = ground arith
convert_date-none (a ∷ b ∷ c ∷ d ∷ e ∷ f ∷ g ∷ []) h = ground arith
convert_date-none (a ∷ b ∷ c ∷ d ∷ e ∷ f ∷ g ∷ i ∷ s) h = absurd (omega arith)
