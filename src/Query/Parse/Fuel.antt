-- ===== src/Query/Parse/Fuel.antt =====
-- The fuel of the parser's loop is enough, and how much there is does not matter.
use libtabula.Prelude.{
  ℕ, zero, Bool-cases, inl, inr, suc, ◌≤◌, ◌<◌, ◌≡◌, ◌≢◌, refl, [], ◌∷◌, ◌++◌, arith, length, ◌==◌,
  ◌+◌, ◌-◌, ◌*◌,
}
use libtabula.Prelude.Int.{ℤ, pos, negsuc}
use libtabula.Prelude.Bytes.{Text, is_digit}
use libtabula.Query.Parse.{
  Template, Parsed, ok, out_of_fuel, go_on, Next, more, stuck, second_digit, third_digit,
  option_char, take_name, eat_colon, named, maybe_named, param, percent, parse_step, go_on,
  parse_loop, parse, c_str,
}

-- The rest of the input that a round leaves has at most n bytes.
abbrev Leaves : ℕ → Next → Type 0
Leaves n (more str s t) = length s ≤ n
Leaves n stuck = Unit

Leaves-mono : {m n : ℕ} (x : Next) → Leaves m x → m ≤ n → Leaves n x
Leaves-mono (more str s t) l h = omega arith
Leaves-mono stuck l h = tt

length-third_digit : (v : ℕ) (s : Text) → length (third_digit v s).1 ≤ length s
unfolding third_digit
length-third_digit v [] = omega arith
length-third_digit v (d ∷ s) = ground arith

length-second_digit : (v : ℕ) (s : Text) → length (second_digit v s).1 ≤ length s
unfolding second_digit
length-second_digit v [] = omega arith
length-second_digit v (d ∷ s) = ground (arith, length-third_digit (v * 10 + (d - b'0')) s)

length-option_char : (s : Text) → length (option_char s).1 ≤ length s
unfolding option_char
length-option_char [] = omega arith
length-option_char (c ∷ s) = ground arith

length-take_name : (s : Text) → length (take_name s).1 ≤ length s
unfolding take_name
length-take_name [] = omega arith
length-take_name (c ∷ s) = ground (arith, length-take_name s)

length-eat_colon : (s : Text) → length (eat_colon s) ≤ length s
unfolding eat_colon
length-eat_colon [] = omega arith
length-eat_colon (c ∷ s) = ground arith

named-Leaves :
    (str : Text) (option : ℕ) (n : ℤ) (s : Text) (t : Template)
    → Leaves (length s) (named str option n s t)
unfolding named
named-Leaves str option (negsuc n) s t = tt
named-Leaves str option (pos n) s t =
    omega (arith, length-eat_colon (take_name s).1, length-take_name s)

maybe_named-Leaves :
    (str : Text) (option : ℕ) (n : ℤ) (s : Text) (t : Template)
    → Leaves (length s) (maybe_named str option n s t)
unfolding maybe_named
maybe_named-Leaves str option n [] t = omega arith
maybe_named-Leaves str option n (c ∷ s) t = elim (Bool-cases (c == b':')) [
  | inl colon ↦
      rw colon (Leaves-mono (named str option n s t) (named-Leaves str option n s t) (omega arith))
  | inr other ↦ rw other (omega arith)
]

percent-Leaves : (str s : Text) (t : Template) → Leaves (length s) (percent str s t)
unfolding percent
percent-Leaves str [] t = omega arith
percent-Leaves str (d ∷ s) t = elim (Bool-cases (d == b'%')) [
  | inl doubled ↦ rw doubled (omega arith)
  | inr other ↦ elim (Bool-cases (is_digit d)) [
    | inl digit ↦
        let s₁ = (second_digit (d - b'0') s).1 in
        rw (other, digit)
          (Leaves-mono (param str d s t) (maybe_named-Leaves str _ _ (option_char s₁).1 t)
            (omega (arith, length-option_char s₁, length-second_digit (d - b'0') s)))
    | inr literal ↦ rw (other, literal) (omega arith)
  ]
]

-- A round consumes at least the byte that it looks at.
pub parse_step-Leaves :
    (str : Text) (c : ℕ) (s : Text) (t : Template) → Leaves (length s) (parse_step str c s t)
unfolding parse_step
parse_step-Leaves str c s t = elim (Bool-cases (c == b'%')) [
  | inl sign ↦ rw sign (percent-Leaves str s t)
  | inr other ↦ rw other (omega arith)
]

go_on-ne-out_of_fuel :
    (n : ℕ) (loop : Text → Text → Template → Parsed) (x : Next)
    → Leaves n x
    → ((str s : Text) (t : Template) → length s ≤ n → loop str s t ≢ out_of_fuel)
    → go_on loop x ≢ out_of_fuel
go_on-ne-out_of_fuel n loop (more str s t) l h = h str s t l
go_on-ne-out_of_fuel n loop stuck l h = λ e. cc

parse_loop-ne-out_of_fuel :
    (fuel : ℕ) (str s : Text) (t : Template)
    → length s < fuel
    → parse_loop fuel str s t ≢ out_of_fuel
unfolding parse_loop
parse_loop-ne-out_of_fuel zero str s t h = absurd (omega arith)
parse_loop-ne-out_of_fuel (suc fuel) str [] t h = λ e. cc
parse_loop-ne-out_of_fuel (suc fuel) str (c ∷ s) t h =
    go_on-ne-out_of_fuel (length s) (parse_loop fuel) (parse_step str c s t)
      (parse_step-Leaves str c s t)
      (λ str' s' t' l. parse_loop-ne-out_of_fuel fuel str' s' t' (omega arith))

go_on_same :
    (n : ℕ) (f g : Text → Text → Template → Parsed) (x : Next)
    → Leaves n x
    → ((str s : Text) (t : Template) → length s ≤ n → f str s t ≡ g str s t)
    → go_on f x ≡ go_on g x
go_on_same n f g (more str s t) l h = h str s t l
go_on_same n f g stuck l h = refl

-- Any two amounts above the length of the input give the same result.
parse_loop_fuel :
    (f g : ℕ) (str s : Text) (t : Template)
    → length s < f
    → length s < g
    → parse_loop f str s t ≡ parse_loop g str s t
unfolding parse_loop
parse_loop_fuel zero g str s t h k = absurd (omega arith)
parse_loop_fuel (suc f) zero str s t h k = absurd (omega arith)
parse_loop_fuel (suc f) (suc g) str [] t h k = refl
parse_loop_fuel (suc f) (suc g) str (c ∷ s) t h k =
    go_on_same (length s) (parse_loop f) (parse_loop g) (parse_step str c s t)
      (parse_step-Leaves str c s t)
      (λ str' s' t' l. parse_loop_fuel f g str' s' t' (omega arith) (omega arith))

-- The loop with just enough fuel.
pub parse_from : Text → Text → Template → Parsed
parse_from str s t = parse_loop (suc (length s)) str s t

pub parse_from-nil :
    (str : Text) (t : Template)
    → parse_from str [] t
      ≡ ok (record t {
        elems = t.elems ++ record { before = str; option = 32; num = negsuc 0 } ∷ [];
      })
unfolding parse_from parse_loop
parse_from-nil str t = refl

pub parse_from-cons :
    (str : Text) (c : ℕ) (s : Text) (t : Template)
    → parse_from str (c ∷ s) t ≡ go_on parse_from (parse_step str c s t)
unfolding parse_from parse_loop
parse_from-cons str c s t =
    go_on_same (length s) (parse_loop (suc (length s))) parse_from (parse_step str c s t)
      (parse_step-Leaves str c s t)
      (λ str' s' t' l.
        parse_loop_fuel (suc (length s)) (suc (length s')) str' s' t' (omega arith) (omega arith))

pub parse-parse_from :
    (sbuffer : Text) (t : Template) → parse sbuffer t ≡ parse_from [] (c_str sbuffer) t
unfolding parse parse_from
parse-parse_from sbuffer t = refl

-- The parser ends on every input: the fuel that it starts with never runs out.
pub parse-ne-out_of_fuel : (sbuffer : Text) (t : Template) → parse sbuffer t ≢ out_of_fuel
unfolding parse
parse-ne-out_of_fuel sbuffer t =
    parse_loop-ne-out_of_fuel (suc (length (c_str sbuffer))) [] (c_str sbuffer) t (omega arith)
