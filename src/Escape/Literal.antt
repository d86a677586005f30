-- ===== src/Escape/Literal.antt =====
-- What a server reads back from an escaped text between single quotes.
use libtabula.Prelude.{
  ℕ, ◌≡◌, refl, Bool, false, ◌≢◌, [], ◌∷◌, ◌++◌, Option, none, some, arith, append_assoc, ◌==◌,
  if◌then◌else◌,
}
use libtabula.Prelude.Bytes.{Text}
use libtabula.Escape.{escape_char, escape_string_generic}

-- The byte that a backslash and `c` stand for in a MySQL string literal. (The two sequences for
-- patterns that keep their backslash are left out.)
abbrev unescape : ℕ → ℕ
unescape c =
    if c == b'0'
    then 0
    else if c == b'n'
    then b'\n'
    else if c == b'r'
    then b'\r'
    else if c == b'b'
    then 8
    else if c == b't'
    then 9
    else if c == b'Z'
    then 26
    else c

abbrev cons_first : ℕ → Option (Text × Text) → Option (Text × Text)
cons_first c none = none
cons_first c (some (body, rest)) = some (c ∷ body, rest)

-- Reads a literal from behind its opening quote: its value and what follows the closing quote.
-- A quote that is doubled or behind a backslash belongs to the value.
pub read_literal : Text → Option (Text × Text)
read_literal [] = none
read_literal (c ∷ []) = if c == b'\'' then some ([], []) else none
read_literal (c ∷ d ∷ s) =
    let escaped = cons_first (unescape d) (read_literal s) in
    let doubled = cons_first b'\'' (read_literal s) in
    let plain = cons_first c (read_literal (d ∷ s)) in
    if c == b'\\'
    then escaped
    else if c == b'\''
    then (if d == b'\'' then doubled else some ([], d ∷ s))
    else plain

abbrev pub starts_with_quote : Text → Bool
starts_with_quote [] = false
starts_with_quote (c ∷ s) = c == b'\''

read_literal-plain :
    (c : ℕ) (s : Text)
    → c ≢ b'\\'
    → c ≢ b'\''
    → s ≢ []
    → read_literal (c ∷ s) ≡ cons_first c (read_literal s)
unfolding read_literal
read_literal-plain c [] p q r = absurd (r refl)
read_literal-plain c (d ∷ s) p q r = ground arith

read_literal-escape_char :
    (c : ℕ) (s : Text) → s ≢ [] → read_literal (escape_char c ++ s) ≡ cons_first c (read_literal s)
unfolding escape_char read_literal
read_literal-escape_char c [] r = absurd (r refl)
read_literal-escape_char c (d ∷ s) r = ground arith

append-ne-nil : (s : Text) (c : ℕ) (t : Text) → s ++ c ∷ t ≢ []
append-ne-nil [] c t e = cc
append-ne-nil (x ∷ s) c t e = cc

read_literal-quote :
    (t : Text) → starts_with_quote t ≡ false → read_literal (b'\'' ∷ t) ≡ some ([], t)
unfolding read_literal
read_literal-quote [] h = refl
read_literal-quote (d ∷ t) h = ground arith

-- A text that is escaped and put between single quotes is read back by the server as the same
-- text, and the literal ends exactly at the closing quote, whatever bytes the text holds, if no
-- further quote stands right behind it.
pub read_literal-escape_string_generic :
    (s rest : Text)
    → starts_with_quote rest ≡ false
    → read_literal (escape_string_generic s ++ b'\'' ∷ rest) ≡ some (s, rest)
unfolding escape_string_generic
read_literal-escape_string_generic [] rest h = read_literal-quote rest h
read_literal-escape_string_generic (c ∷ s) rest h =
    let tail = escape_string_generic s ++ b'\'' ∷ rest in
    rw (append_assoc, read_literal-escape_char c tail (append-ne-nil _ _ rest))
      (rw (read_literal-escape_string_generic s rest h))
