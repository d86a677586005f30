-- ===== src/Strings.antt =====
-- String of src/mystring.h and src/mystring.cpp: its bounds, its comparisons and its conversions. A
-- string has a buffer (src/sql_buffer.cpp) or none, and buffers are shared but not changed, so they
-- are values. A buffer ends with a NUL that its length does not count.
pub mod Order
pub mod Numbers
pub mod Dates
pub mod Convert
pub mod Integers
pub mod Errors
pub mod Tests
use libtabula.Prelude.{
  ℕ, zero, suc, ◌+◌, Bool, true, false, ◌&&◌, List, [], ◌∷◌, ◌++◌, Option, none, some, ◌==◌, ltb,
  leb, if◌then◌else◌, length, get_elem?,
}
use libtabula.Prelude.Bytes.{Text, codes}
use libtabula.Adapter.{Base, ft_text, SqlBuffer, base_escape_q}

-- String's buffer_.
abbrev pub String : Type 0
String = Option SqlBuffer

-- The sign of what strncmp() and compare() give.
pub data Sign : Type 0 where
  below same above : Sign

-- strncmp() on two texts that a NUL follows.
unfoldable pub strncmp : ℕ → Text → Text → Sign
strncmp zero s t = same
strncmp (suc n) [] [] = same
strncmp (suc n) [] (d ∷ t) = if d == 0 then same else below
strncmp (suc n) (c ∷ s) [] = if c == 0 then same else above
strncmp (suc n) (c ∷ s) (d ∷ t) =
    let rest = strncmp n s t in
    if c == d then (if c == 0 then same else rest) else if ltb c d then below else above

-- String(str, type, is_null) and the assignments of a text.
unfoldable pub of_text : Text → Base → Bool → String
of_text str type is_null =
    some (record { bytes = str; base = type; nullable = false; is_null = is_null })

unfoldable pub assign_text : Text → String → String
unfolding of_text
assign_text str s = of_text str ft_text false

abbrev pub bytes_of : String → Text
bytes_of none = []
bytes_of (some b) = b.bytes

unfoldable pub size : String → ℕ
size none = 0
size (some b) = length b.bytes

-- data(): none is the null pointer.
unfoldable pub data_of : String → Option Text
data_of none = none
data_of (some b) = some b.bytes

unfoldable pub is_null : String → Bool
is_null none = false
is_null (some b) = b.is_null

-- it_is_null(), on a string of its own.
unfoldable pub it_is_null : String → String
unfolding of_text
it_is_null none = of_text [] ft_text true
it_is_null (some b) = some (record b { is_null = true })

unfoldable pub to_string : String → Text
to_string s = bytes_of s

-- strip_leading_blanks().
unfoldable pub strip_leading_blanks : Text → Text
strip_leading_blanks [] = []
strip_leading_blanks (c ∷ s) = let rest = strip_leading_blanks s in if c == 32 then rest else c ∷ s

-- A character, or BadIndex with the position and the size.
pub data At : Type 0 where
  char_at : ℕ → At
  bad_index : ℕ → ℕ → At
  unreachable : At

unfoldable pub char_of : Option ℕ → At
char_of none = unreachable
char_of (some c) = char_at c

unfoldable pub at : String → ℕ → At
unfolding char_of size
at s pos = if leb (size s) pos then bad_index pos (size s) else char_of (get_elem? (bytes_of s) pos)

abbrev pub first_is_nul : Text → Bool
first_is_nul [] = true
first_is_nul (c ∷ s) = c == 0

-- compare(pos, num, other) from the position 0, where none is a null pointer.
unfoldable pub compare_c : ℕ → String → Option Text → Sign
unfolding strncmp size
compare_c num (some b) (some other) = strncmp num b.bytes other
compare_c num s none = if ltb 0 (size s) then above else same
compare_c num none (some other) = if first_is_nul other then same else below

abbrev pub max : ℕ → ℕ → ℕ
max a b = if ltb a b then b else a

-- compare() with a std::string or a C string, and with another String.
unfoldable pub compare_text : String → Text → Sign
unfolding compare_c size
compare_text s other = compare_c (max (size s) (length other)) s (some other)

unfoldable pub compare_string : String → String → Sign
unfolding compare_c size
compare_string s (some b) = compare_c (max (size s) (length b.bytes)) s (some b.bytes)
compare_string s none = if ltb 0 (size s) then above else same

abbrev pub is_same : Sign → Bool
is_same below = false
is_same same = true
is_same above = false

-- operator ==.
unfoldable pub equals : String → String → Bool
unfolding compare_string
equals s rhs = is_same (compare_string s rhs)
