-- ===== src/Query/Parse/RoundTrip.antt =====
-- What the parser makes of a printed template.
use libtabula.Prelude.{
  ℕ, ◌+◌, ◌-◌, ◌/◌, ◌%◌, ◌<◌, ◌≡◌, refl, true, false, List, [], ◌∷◌, ◌++◌, Option, none, some, ◌==◌,
  ==_iff, ◌||◌, All, arith, append_assoc, append-nil, Bool-cases, inl, inr, ap, sym, ◌∙◌,
}
use libtabula.Prelude.Int.{pos}
use libtabula.Prelude.Bytes.{Text, is_digit}
use libtabula.Query.Parse.{
  Template, ok, more, go_on, to_schar, is_name, second_digit, third_digit, option_char, take_name,
  eat_colon, named, maybe_named, param, percent, parse_step, parse, c_str, add_elem,
}
use libtabula.Query.Parse.Fuel.{parse_from, parse_from-nil, parse_from-cons, parse-parse_from}
use libtabula.Query.Parse.Print.{
  Slot, double_percent, option_text, name_text, slot_text, print, starts_by, NameFits, Fits, AllFit,
  enter, parsed,
}

parse_from_plain :
    (str : Text) (c : ℕ) (s : Text) (t : Template)
    → (c == b'%') ≡ false
    → parse_from str (c ∷ s) t ≡ parse_from (str ++ c ∷ []) s t
unfolding parse_step
parse_from_plain str c s t h = parse_from-cons str c s t ∙ rw h

parse_from_percent :
    (str s : Text) (t : Template)
    → parse_from str (b'%' ∷ b'%' ∷ s) t ≡ parse_from (str ++ b'%' ∷ []) s t
unfolding parse_step
parse_from_percent str s t = parse_from-cons str b'%' (b'%' ∷ s) t

pub parse_from-double_percent :
    (str b rest : Text) (t : Template)
    → parse_from str (double_percent b ++ rest) t ≡ parse_from (str ++ b) rest t
unfolding double_percent
parse_from-double_percent str [] rest t = rw append-nil
parse_from-double_percent str (c ∷ b) rest t = elim (Bool-cases (c == b'%')) [
  | inl sign ↦
      let same : c ≡ b'%' = (==_iff c b'%').0 sign in
      rw (sign, same)
        (parse_from_percent str (double_percent b ++ rest) t
          ∙ parse_from-double_percent (str ++ b'%' ∷ []) b rest t
          ∙ ap (λ u. parse_from u rest t) (append_assoc str (b'%' ∷ []) b))
  | inr other ↦ rw other (
      parse_from_plain str c (double_percent b ++ rest) t other
      ∙ parse_from-double_percent (str ++ c ∷ []) b rest t
      ∙ ap (λ u. parse_from u rest t) (append_assoc str (c ∷ []) b))
]

second_digit-print :
    (n : ℕ) (s : Text)
    → n < 1000
    → second_digit (b'0' + n / 100 - b'0') ((b'0' + n / 10 % 10) ∷ (b'0' + n % 10) ∷ s) ≡ (n, s)
unfolding second_digit third_digit is_digit
second_digit-print n s h = ground arith

option_char-print :
    (o : ℕ) (s : Text)
    → (o == 32 || (o == b'q' || o == b'Q')) ≡ true
    → (o ≡ 32 → starts_by (λ c. c == b'q' || c == b'Q') s ≡ false)
    → option_char (option_text o ++ s) ≡ (o, s)
unfolding option_char
option_char-print o [] h k = ground arith
option_char-print o (c ∷ s) h k = ground arith

take_name-print :
    (name rest : Text)
    → All (λ c. is_name c ≡ true) name
    → take_name (name ++ b':' ∷ rest) ≡ (name, b':' ∷ rest)
unfolding take_name
take_name-print [] rest h = unfold is_name in refl
take_name-print (c ∷ name) rest h = ground (arith, take_name-print name rest h.1)

to_schar_small : (n : ℕ) → n < 128 → to_schar n ≡ pos n
unfolding to_schar
to_schar_small n h = ground arith

abbrev pub slot_of : Text → ℕ → ℕ → Option Text → Slot
slot_of before position option name = record {
  before = before;
  position = position;
  option = option;
  name = name;
}

named-print :
    (before : Text) (position option : ℕ) (name rest : Text) (t : Template)
    → All (λ c. is_name c ≡ true) name
    → named before option (pos position) (name ++ b':' ∷ rest) t
      ≡ more [] rest (enter (slot_of before position option (some name)) t)
unfolding named add_elem eat_colon
named-print before position option name rest t h = rw (take_name-print name rest h)

maybe_named-print :
    (before : Text) (position option : ℕ) (name : Option Text) (rest : Text) (t : Template)
    → NameFits name rest
    → maybe_named before option (pos position) (name_text name ++ rest) t
      ≡ more [] rest (enter (slot_of before position option name) t)
unfolding maybe_named
maybe_named-print before position option none [] t h = unfold add_elem in refl
maybe_named-print before position option none (c ∷ rest) t h = unfold add_elem in rw h
maybe_named-print before position option (some name) rest t h =
    rw (append_assoc name (b':' ∷ []) rest) (named-print before position option name rest t h)

-- A round over a parameter reads its position and its option.
pub parse_from-param :
    (slot : Slot) (rest : Text) (t : Template)
    → slot.position < 1000
    → (slot.option == 32 || (slot.option == b'q' || slot.option == b'Q')) ≡ true
    → (slot.option ≡ 32
        → starts_by (λ c. c == b'q' || c == b'Q') (name_text slot.name ++ rest) ≡ false)
    → parse_from slot.before (slot_text slot rest) t
      ≡ go_on parse_from (
          maybe_named slot.before slot.option
            (to_schar slot.position)
            (name_text slot.name ++ rest)
            t)
unfolding parse_step percent param
parse_from-param slot rest t small o no_o =
    let tail = name_text slot.name ++ rest in
    let digits = second_digit-print slot.position (option_text slot.option ++ tail) small in
    parse_from-cons slot.before b'%' _ t
    ∙ rw (hundreds, is_hundreds) (rw (digits, option_char-print slot.option tail o no_o))
  where
    hundreds : ((b'0' + slot.position / 100) == b'%') ≡ false
    hundreds = ground arith

    is_hundreds : is_digit (b'0' + slot.position / 100) ≡ true
    is_hundreds = unfold is_digit in ground arith

parse_from-slot :
    (slot : Slot) (rest : Text) (t : Template)
    → Fits slot rest
    → parse_from slot.before (slot_text slot rest) t ≡ parse_from [] rest (enter slot t)
parse_from-slot slot rest t f =
    parse_from-param slot rest t (omega (arith, f.small)) f.option f.no_option
    ∙ rw (to_schar_small slot.position f.small)
        (rw (maybe_named-print slot.before slot.position slot.option slot.name rest t f.name))

parse_from-print :
    (slots : List Slot) (last : Text) (t : Template)
    → AllFit slots last
    → parse_from [] (print slots last) t ≡ ok (parsed slots last t)
unfolding print
parse_from-print [] last t f =
    ap (λ s. parse_from [] s t) (sym (append-nil (double_percent last)))
    ∙ parse_from-double_percent [] last [] t
    ∙ parse_from-nil last t
parse_from-print (slot ∷ slots) last t f =
    parse_from-double_percent [] slot.before (slot_text slot (print slots last)) t
    ∙ parse_from-slot slot (print slots last) t f.0
    ∙ parse_from-print slots last (enter slot t) f.1

-- A template that is written down is parsed back: every literal text, with its doubled percent
-- signs, every position below 128, option and name comes out in order, and the names are entered
-- in both maps. The text must hold no NUL, and what follows a parameter without an option or a name
-- must not look like one.
pub parse-print :
    (slots : List Slot) (last : Text) (t : Template)
    → AllFit slots last
    → c_str (print slots last) ≡ print slots last
    → parse (print slots last) t ≡ ok (parsed slots last t)
parse-print slots last t f whole =
    parse-parse_from (print slots last) t
    ∙ ap (λ s. parse_from [] s t) whole
    ∙ parse_from-print slots last t f
