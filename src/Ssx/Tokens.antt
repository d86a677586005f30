-- ===== src/Ssx/Tokens.antt =====
-- ParseV2::tokenize() and File::split_path(), src/ssx/parsev2.cpp, and str_to_lwr(),
-- src/utility.cpp.
pub mod Words
pub mod Kept
use libtabula.Prelude.{ℕ, zero, suc, Bool, List, [], ◌∷◌, ◌==◌, if◌then◌else◌, length, map}
use libtabula.Prelude.Bytes.{Text, is_space, to_lower}

unfoldable pub str_to_lwr : Text → Text
unfolding to_lower
str_to_lwr s = map to_lower s

-- The two inner loops: the part up to a separator, what follows it, and what is left behind
-- separators.
module _ (is_sep : ℕ → Bool) where
  unfoldable pub part : Text → Text
  part [] = []
  part (c ∷ s) = let more = part s in if is_sep c then [] else c ∷ more

  unfoldable pub behind : Text → Text
  behind [] = []
  behind (c ∷ s) = let later = behind s in if is_sep c then c ∷ s else later

  unfoldable pub skip : Text → Text
  skip [] = []
  skip (c ∷ s) = let later = skip s in if is_sep c then later else c ∷ s

  -- The outer loop. Each of its turns moves on by a character at least, so the length of the text
  -- is fuel enough.
  unfoldable pub parts : ℕ → Text → List Text
  unfolding part behind skip
  parts zero s = []
  parts (suc fuel) [] = []
  parts (suc fuel) (c ∷ s) = part (c ∷ s) ∷ parts fuel (skip (behind (c ∷ s)))

unfoldable pub tokenize : Text → List Text
unfolding skip parts
tokenize line = parts is_space (length line) (skip is_space line)

unfoldable pub split_path : Text → List Text
unfolding parts
split_path path = parts (λ c. c == b'/') (length path) path
