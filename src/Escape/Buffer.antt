-- ===== src/Escape/Buffer.antt =====
-- The sizes of the buffers that the escaping writes to.
use libtabula.Prelude.{
  ℕ, ◌*◌, ◌≤◌, ◌≡◌, ◌≢◌, refl, [], ◌∷◌, none, some, arith, length, length-append,
}
use libtabula.Prelude.Bytes.{Text}
use libtabula.Escape.{escape_char, escape_string_generic, wrote, overrun, escape_into}

escape_char_bounds : (c : ℕ) → (1 ≤ length (escape_char c)) × (length (escape_char c) ≤ 2)
unfolding escape_char
escape_char_bounds c = ground arith

-- Escaping shortens nothing and at most doubles the length.
pub length-escape_string_generic :
    (s : Text)
    → (length s ≤ length (escape_string_generic s))
      × (length (escape_string_generic s) ≤ 2 * length s)
unfolding escape_string_generic
length-escape_string_generic [] = (omega arith, omega arith)
length-escape_string_generic (c ∷ s) =
    let e = length-append (escape_char c) (escape_string_generic s) in
    (
      omega (arith, e, escape_char_bounds c, length-escape_string_generic s),
      omega (arith, e, escape_char_bounds c, length-escape_string_generic s),
    )

-- The std::string overload, given a source text with its length, stays inside its buffer and gives
-- the escaped text.
pub escape_into-some :
    (ps text : Text) → escape_into ps (some text) (length text) ≡ wrote (escape_string_generic text)
unfolding escape_into
escape_into-some ps text = ground (arith, length-escape_string_generic text)

-- Called with no source text and the default length 0, as its declaration allows, it writes past
-- the end of a buffer of one byte unless the string is empty.
pub escape_into-none : (ps : Text) → ps ≢ [] → escape_into ps none 0 ≡ overrun
unfolding escape_into
escape_into-none [] h = absurd (h refl)
escape_into-none (c ∷ s) h = ground (arith, length-escape_string_generic (c ∷ s))
