-- ===== src/Prelude/Bytes.antt =====
-- Texts as lists of bytes, the character classes of <ctype.h> in the C locale, and the searches of
-- std::string that the code uses.
use Prim.Native.Char.{code}
use Prim.Native.Nat.{ℕ, ◌+◌}
use Prim.Native.String.{String}
use mathlib.Core.Path.{◌≡◌, refl}
use mathlib.Core.Bool.{Bool, true, false, ◌&&◌, ◌||◌}
use mathlib.Core.List.{List, [], ◌∷◌}
use native.Mathlib.Omega.{arith}
use libtabula.Prelude.Tests.{leb, ◌==◌, if◌then◌else◌}

abbrev pub Text : Type 0
Text = List ℕ

-- The bytes of an ASCII literal.
abbrev pub codes : String → Text
codes String.[] = []
codes (String.◌∷◌ c s) = code c ∷ codes s

unfoldable pub is_digit : ℕ → Bool
is_digit c = leb b'0' c && leb c b'9'

unfoldable pub is_upper : ℕ → Bool
is_upper c = leb b'A' c && leb c b'Z'

unfoldable pub is_lower : ℕ → Bool
is_lower c = leb b'a' c && leb c b'z'

unfoldable pub is_alnum : ℕ → Bool
unfolding is_digit is_upper is_lower
is_alnum c = is_digit c || is_upper c || is_lower c

-- Space, and the codes 9 to 13: tab, newline, vertical tab, form feed, return.
unfoldable pub is_space : ℕ → Bool
is_space c = c == 32 || (leb 9 c && leb c 13)

-- Equality of texts (std::string::compare() == 0).
unfoldable pub text_eq : Text → Text → Bool
text_eq [] [] = true
text_eq [] (d ∷ t) = false
text_eq (c ∷ s) [] = false
text_eq (c ∷ s) (d ∷ t) = (c == d) && text_eq s t

pub text_eq_refl : (s : Text) → text_eq s s ≡ true
unfolding text_eq
text_eq_refl [] = refl
text_eq_refl (c ∷ s) = ground (arith, text_eq_refl s)

pub text_eq→eq : (s t : Text) → text_eq s t ≡ true → s ≡ t
unfolding text_eq
text_eq→eq [] [] h = refl
text_eq→eq [] (d ∷ t) h = ground arith
text_eq→eq (c ∷ s) [] h = ground arith
text_eq→eq (c ∷ s) (d ∷ t) h = ground (arith, text_eq→eq s t)

-- tolower() and its effect on a whole text.
unfoldable pub to_lower : ℕ → ℕ
unfolding is_upper
to_lower c = if is_upper c then c + 32 else c

-- s.find(t) == 0.
unfoldable pub starts_with : Text → Text → Bool
starts_with [] s = true
starts_with (d ∷ t) [] = false
starts_with (d ∷ t) (c ∷ s) = (d == c) && starts_with t s

-- s.find(t) != npos.
unfoldable pub has_text : Text → Text → Bool
unfolding starts_with
has_text t [] = starts_with t []
has_text t (c ∷ s) = starts_with t (c ∷ s) || has_text t s

-- s.resize(s.find(b)), if there is a b.
unfoldable pub before : ℕ → Text → Text
before b [] = []
before b (c ∷ s) = let rest = before b s in if c == b then [] else c ∷ rest
