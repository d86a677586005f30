-- ===== src/Strings/Errors.antt =====
-- What the conversion of a string to an integer refuses, and what it takes without a word.
use libtabula.Prelude.{
  ℕ, ◌-◌, ◌%◌, ◌^◌, ◌≡◌, ◌≤◌, ◌<◌, refl, sym, ap, ◌∙◌, Bool, true, false, [], ◌∷◌, ◌++◌, some, ◌==◌,
  ltb, arith, ◌||◌, append-nil, All,
}
use libtabula.Prelude.Int.{pos}
use libtabula.Prelude.Bytes.{Text, is_digit, is_space}
use libtabula.Adapter.{SqlBuffer}
use libtabula.Values.{print_number}
use libtabula.Strings.Numbers.{
  IntType, int, long, is_signed, half, wrapped, with_sign, narrow, scan_digits, skip_space,
  in_limits, scanned, read_signed, extract, number, bad_conversion, after_number, signed_char,
  short, unsigned_char, unsigned_short, unsigned_int, unsigned_long, judged, do_conv, narrowed,
  conv,
}
use libtabula.Strings.Convert.{no_digit, decimal_from-append, extract-decimal}

abbrev pub AllBlank : Text → Type 0
AllBlank = All (λ c. is_space c ≡ true)

skip_space-blank : (blank s : Text) → AllBlank blank → skip_space (blank ++ s) ≡ skip_space s
unfolding skip_space
skip_space-blank [] s h = refl
skip_space-blank (c ∷ blank) s (h, k) = rw h (skip_space-blank blank s k)

-- A character that can neither begin nor continue a number.
pub record IsOther (c : ℕ) : Type 0 where
  pub no_space : is_space c ≡ false
  pub no_digit_here : is_digit c ≡ false
  pub no_sign : ((c == b'-') || (c == b'+')) ≡ false
  pub no_point : (c == b'.') ≡ false

stopped :
    (has_sign : Bool) (c : ℕ) (s : Text)
    → IsOther c
    → read_signed has_sign (skip_space (c ∷ s))
      ≡ record { failed = true; num = pos 0; rest = c ∷ s }
unfolding read_signed skip_space scanned scan_digits
stopped has_sign c s o =
    let minus : (c == b'-') ≡ false = ground (arith, o.no_sign) in
    let plus : (c == b'+') ≡ false = ground (arith, o.no_sign) in
    rw (o.no_space, minus, plus, o.no_digit_here) refl

extract-other :
    (has_sign : Bool) (blank : Text) (c : ℕ) (s : Text)
    → AllBlank blank
    → IsOther c
    → extract has_sign (blank ++ c ∷ s) ≡ record { failed = true; num = pos 0; rest = c ∷ s }
unfolding extract
extract-other has_sign blank c s h o =
    ap (read_signed has_sign) (skip_space-blank blank (c ∷ s) h) ∙ stopped has_sign c s o

extract-blank :
    (has_sign : Bool) (blank s : Text)
    → AllBlank blank
    → extract has_sign (blank ++ s) ≡ extract has_sign s
unfolding extract
extract-blank has_sign blank s h = ap (read_signed has_sign) (skip_space-blank blank s h)

-- A limit of the type or the number, in either case with what is not read.
ended :
    (has_sign minus : Bool) (v c : ℕ) (s : Text)
    → IsOther c
    → judged (in_limits has_sign minus v (c ∷ s)) ≡ bad_conversion
unfolding in_limits judged after_number skip_space
ended true false v c s o = ground (arith, o.no_space, o.no_point)
ended true true v c s o = ground (arith, o.no_space, o.no_point)
ended false minus v c s o = ground (arith, o.no_space, o.no_point)

no_digit-other : (c : ℕ) (s : Text) → IsOther c → no_digit (c ∷ s) ≡ true
no_digit-other c s o = rw (o.no_digit_here) refl

-- A string does not convert if its first character that is not blank is none of a number's: not a
-- blank, a digit, a sign or a decimal point; nor if such a character stands right behind a number below
-- 2 ^ 64 in decimal digits without a sign, which blanks may precede.
pub conv-bad :
    (t : IntType) (blank : Text) (n c : ℕ) (s : Text) (b : SqlBuffer)
    → AllBlank blank
    → n < 2 ^ 64
    → IsOther c
    → (b.bytes ≡ blank ++ c ∷ s → conv t (some b) ≡ bad_conversion)
      × (b.bytes ≡ blank ++ (print_number (pos n) ++ c ∷ s) → conv t (some b) ≡ bad_conversion)
unfolding conv do_conv judged print_number
conv-bad t blank n c s b h small o = (
  λ e.
      ap (λ u. narrowed t (judged (extract (is_signed t) u))) e
      ∙ ap (λ x. narrowed t (judged x)) (extract-other (is_signed t) blank c s h o),
  λ e.
      ap (λ u. narrowed t (judged (extract (is_signed t) u))) e
      ∙ ap (λ x. narrowed t (judged x)) (extract-blank (is_signed t) blank _ h)
      ∙ ap (λ u. narrowed t (judged (extract (is_signed t) u)))
          (decimal_from-append 20 n [] (c ∷ s))
      ∙ ap (λ x. narrowed t (judged x))
          (extract-decimal (is_signed t) n (c ∷ s) small (no_digit-other c s o))
      ∙ ap (narrowed t) (ended (is_signed t) false n c s o),
)

narrow_zero : (t : IntType) → narrow t (pos 0) ≡ pos 0
unfolding narrow wrapped with_sign is_signed half
narrow_zero signed_char = refl
narrow_zero short = refl
narrow_zero int = refl
narrow_zero long = refl
narrow_zero unsigned_char = refl
narrow_zero unsigned_short = refl
narrow_zero unsigned_int = refl
narrow_zero unsigned_long = refl

read_decimal :
    (t : IntType) (n : ℕ) (b : SqlBuffer)
    → n < 2 ^ 64
    → b.bytes ≡ print_number (pos n)
    → conv t (some b) ≡ narrowed t (judged (in_limits (is_signed t) false n []))
unfolding conv do_conv print_number
read_decimal t n b h e =
    ap (λ u. narrowed t (judged (extract (is_signed t) u))) e
    ∙ ap (λ x. narrowed t (judged x)) (extract-decimal (is_signed t) n [] h refl)

-- Three conversions that lose the value pass without an error: blanks convert to zero; a number past
-- the last long, below 2 ^ 64, converts to the last long; and a number without a sign that is a long but
-- no int converts to the int that is left of it in 32 bits.
pub conv-silent :
    (t : IntType) (blank : Text) (n : ℕ) (b : SqlBuffer)
    → AllBlank blank
    → n < 2 ^ 64
    → (b.bytes ≡ blank → conv t (some b) ≡ number (pos 0))
      × ((b.bytes ≡ print_number (pos n)
            → 2 ^ 63 ≤ n
            → conv long (some b) ≡ number (pos (2 ^ 63 - 1)))
          × (b.bytes ≡ print_number (pos n)
              → n < 2 ^ 63
              → conv int (some b) ≡ number (with_sign (2 ^ 31) (n % 2 ^ 32))))
unfolding conv do_conv judged extract skip_space read_signed in_limits after_number narrow is_signed
    half wrapped
conv-silent t blank n b h small = (
  λ e.
      ap (λ u. narrowed t (judged (read_signed (is_signed t) (skip_space u))))
        (e ∙ sym (append-nil blank))
      ∙ ap (λ u. narrowed t (judged (read_signed (is_signed t) u))) (skip_space-blank blank [] h)
      ∙ ap number (narrow_zero t),
  (
    λ e big. read_decimal long n b small e ∙ past_last n big,
    λ e fits. read_decimal int n b small e ∙ kept_bits n fits,
  ),
)
  where
    past_last :
        (n : ℕ)
        → 2 ^ 63 ≤ n
        → narrowed long (judged (in_limits true false n [])) ≡ number (pos (2 ^ 63 - 1))
    past_last n big = let out : ltb n (2 ^ 63) ≡ false = ground (arith, big) in rw out refl

    kept_bits :
        (n : ℕ)
        → n < 2 ^ 63
        → narrowed int (judged (in_limits true false n []))
          ≡ number (with_sign (2 ^ 31) (n % 2 ^ 32))
    kept_bits n fits = let inside : ltb n (2 ^ 63) ≡ true = ground (arith, fits) in rw inside refl
