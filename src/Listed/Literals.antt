-- ===== src/Listed/Literals.antt =====
-- What a server reads back from a list of quoted texts.
use libtabula.Prelude.{
  zero, suc, ℕ, ◌≡◌, refl, ap, ◌∙◌, false, List, [], ◌∷◌, ◌++◌, Option, none, some, if◌then◌else◌,
  append_assoc, length, ◌==◌,
}
use libtabula.Prelude.Bytes.{Text, codes}
use libtabula.Escape.{escape_string_generic}
use libtabula.Escape.Literal.{read_literal, starts_with_quote, read_literal-escape_string_generic}
use libtabula.Adapter.{
  SqlTypeAdapter, of_text, quote_q, base_quote_q, base_escape_q, is_sql_datetime,
}
use libtabula.Listed.{quote, surround, if_escaped, written, value_list_from}

abbrev with_first : Text → Option (List Text × Text) → Option (List Text × Text)
with_first t none = none
with_first t (some (ts, rest)) = some (t ∷ ts, rest)

-- Reads `n + 1` string literals that commas part: their values, and what follows.
abbrev after_literal :
    (Text → Option (List Text × Text)) → Option (Text × Text) → Option (List Text × Text)
after_literal more none = none
after_literal more (some (t, [])) = none
after_literal more (some (t, c ∷ s)) = if c == b',' then with_first t (more s) else none

-- A literal, from its opening quote.
unfoldable pub opened : Text → Option (Text × Text)
opened [] = none
opened (c ∷ s) = if c == b'\'' then read_literal s else none

abbrev single : Option (Text × Text) → Option (List Text × Text)
single none = none
single (some (t, rest)) = some (t ∷ [], rest)

unfoldable pub read_literals : ℕ → Text → Option (List Text × Text)
unfolding opened
read_literals zero s = single (opened s)
read_literals (suc n) s = after_literal (read_literals n) (opened s)

-- A value of a text type that is not NULL.
abbrev pub text_value : Text → SqlTypeAdapter
text_value t = of_text t false

quote-text :
    (t rest : Text)
    → written escape_string_generic quote (text_value t) ++ rest
      ≡ b'\'' ∷ (escape_string_generic t ++ b'\'' ∷ rest)
unfolding written surround if_escaped of_text quote_q base_quote_q base_escape_q is_sql_datetime
quote-text t rest = ap (λ s. b'\'' ∷ s) (append_assoc (escape_string_generic t) (b'\'' ∷ []) rest)

opened-quote :
    (t rest : Text)
    → starts_with_quote rest ≡ false
    → opened (written escape_string_generic quote (text_value t) ++ rest) ≡ some (t, rest)
unfolding opened
opened-quote t rest h = ap opened (quote-text t rest) ∙ read_literal-escape_string_generic t rest h

-- The list of values that is printed for texts, with the quotes and the escapes of the manipulator
-- quote, is read back by the server as these texts, whatever bytes they hold, and ends where the
-- list ends, if no quote stands right behind it.
pub read_literals-value_list :
    (t : Text) (ts : List Text) (rest : Text)
    → starts_with_quote rest ≡ false
    → read_literals (length ts) (
        value_list_from (λ u. written escape_string_generic quote (text_value u)) (codes ",") t ts
        ++ rest)
      ≡ some (t ∷ ts, rest)
unfolding value_list_from read_literals
read_literals-value_list t [] rest h = ap single (opened-quote t rest h)
read_literals-value_list t (u ∷ ts) rest h =
    let show : Text → Text = λ u. written escape_string_generic quote (text_value u) in
    let later = value_list_from show (codes ",") u ts in
    ap (λ s. after_literal (read_literals (length ts)) (opened s))
      (append_assoc (show t) (b',' ∷ later) rest)
    ∙ ap (after_literal (read_literals (length ts))) (opened-quote t (b',' ∷ (later ++ rest)) refl)
    ∙ ap (with_first t) (read_literals-value_list u ts rest h)
