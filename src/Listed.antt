-- ===== src/Listed.antt =====
-- Values written into a query: the manipulators of src/manip.cpp on a Query and on its parameters,
-- and the lists of values and of equalities of src/vallist.h and src/vallist.cpp. The escaping of
-- strings is an argument, since the driver chooses it.
pub mod Params
pub mod Sparse
pub mod Literals
pub mod Pairs
pub mod Tests
use libtabula.Prelude.{
  ℕ, ◌+◌, ◌==◌, Bool, true, false, List, [], ◌∷◌, ◌++◌, Option, none, some, if◌then◌else◌, ◌>>=◌,
}
use libtabula.Prelude.Bytes.{Text}
use libtabula.Adapter.{SqlTypeAdapter, of_text, set_processed, copied, quoted, escaped}

-- The manipulators.
pub data Manip : Type 0 where
  quote quote_only quote_double_only escape do_nothing ignore : Manip

unfoldable pub surround : ℕ → Bool → Text → Text
surround mark true s = mark ∷ (s ++ mark ∷ [])
surround mark false s = s

module _ (escape_string : Text → Text) where
  abbrev pub bytes_of : SqlTypeAdapter → Text
  bytes_of a = a.buffer.bytes

  unfoldable pub if_escaped : SqlTypeAdapter → Text
  if_escaped a = if escaped a then escape_string (bytes_of a) else bytes_of a

  -- What operator << writes into a Query behind a manipulator. ignore is for parameters only, and
  -- leaves a value as it is.
  unfoldable pub written : Manip → SqlTypeAdapter → Text
  unfolding surround if_escaped
  written quote a = surround b'\'' (quoted a) (if_escaped a)
  written quote_only a = surround b'\'' (quoted a) (bytes_of a)
  written quote_double_only a = surround b'"' (quoted a) (bytes_of a)
  written escape a = if_escaped a
  written do_nothing a = bytes_of a
  written ignore a = bytes_of a

  -- What operator << hands to the parameters of a query, where quotes always come with escapes.
  unfoldable pub prepared : Manip → SqlTypeAdapter → SqlTypeAdapter
  unfolding surround
  prepared quote a =
      if quoted a
      then of_text (surround b'\'' true (escape_string (bytes_of a))) true
      else set_processed a
  prepared quote_only a =
      if quoted a then of_text (surround b'\'' true (bytes_of a)) true else set_processed a
  prepared quote_double_only a =
      if quoted a then of_text (surround b'"' true (bytes_of a)) true else set_processed a
  prepared escape a =
      if escaped a then of_text (escape_string (bytes_of a)) true else set_processed a
  prepared do_nothing a = set_processed a
  prepared ignore a = a

  -- The parameter that the list gets: push_back() makes a copy, which has no mark.
  unfoldable pub as_param : Manip → SqlTypeAdapter → SqlTypeAdapter
  unfolding prepared copied
  as_param m a = copied (prepared m a)

unfoldable pub head_flag : List Bool → Option Bool
head_flag [] = none
head_flag (b ∷ bs) = some b

-- A sequence as a list prints it; none is where the code reads past the end of a sequence.
module _ {A : Type 0} (show : A → Text) (delim : Text) where
  unfoldable pub value_list_from : A → List A → Text
  value_list_from a [] = show a
  value_list_from a (b ∷ l) = show a ++ (delim ++ value_list_from b l)

  -- value_list_ba.
  unfoldable pub value_list : List A → Option Text
  unfolding value_list_from
  value_list [] = none
  value_list (a ∷ l) = some (value_list_from a l)

  unfoldable pub next_delim : Option Bool → Option Text
  next_delim none = none
  next_delim (some true) = some delim
  next_delim (some false) = some []

  unfoldable pub show_if : Bool → A → Text
  show_if true a = show a
  show_if false a = []

  -- value_list_b, from a flag for the first value.
  unfoldable pub value_list_b_from : List Bool → A → List A → Option Text
  unfolding show_if next_delim head_flag
  value_list_b_from [] a l = none
  value_list_b_from (f ∷ fs) a [] = some (show_if f a)
  value_list_b_from (f ∷ fs) a (b ∷ l) = do
    d ← next_delim (head_flag fs)
    rest ← value_list_b_from fs b l
    some (show_if f a ++ (d ++ rest))

  unfoldable pub value_list_b : List Bool → List A → Option Text
  unfolding value_list_b_from
  value_list_b fields [] = none
  value_list_b fields (a ∷ l) = value_list_b_from fields a l

-- equal_list_ba and equal_list_b, over the names and the values; they end with the shorter sequence.
module _ {A B : Type 0} (show_name : A → Text) (show_value : B → Text) (delim equl : Text) where
  unfoldable pub equality : A → B → Text
  equality a b = show_name a ++ (equl ++ show_value b)

  unfoldable pub equality_if : Bool → A → B → Text
  unfolding equality
  equality_if true a b = equality a b
  equality_if false a b = []

  unfoldable pub equal_list_from : A → B → List A → List B → Text
  unfolding equality
  equal_list_from a b [] rest = equality a b
  equal_list_from a b (c ∷ more) [] = equality a b
  equal_list_from a b (c ∷ more) (d ∷ rest) =
      equality a b ++ (delim ++ equal_list_from c d more rest)

  unfoldable pub equal_list : List A → List B → Option Text
  unfolding equal_list_from
  equal_list (a ∷ more) (b ∷ rest) = some (equal_list_from a b more rest)
  equal_list [] rest = none
  equal_list (a ∷ more) [] = none

  -- equal_list_b, from a flag for the first pair.
  unfoldable pub equal_list_b_from : List Bool → A → B → List A → List B → Option Text
  unfolding equality next_delim head_flag
  equal_list_b_from [] a b more rest = none
  equal_list_b_from (f ∷ fs) a b [] rest = some (equality_if f a b)
  equal_list_b_from (f ∷ fs) a b (c ∷ more) [] = some (equality_if f a b)
  equal_list_b_from (f ∷ fs) a b (c ∷ more) (e ∷ rest) = do
    d ← next_delim show_name delim (head_flag fs)
    later ← equal_list_b_from fs c e more rest
    some (equality_if f a b ++ (d ++ later))

  unfoldable pub equal_list_b : List Bool → List A → List B → Option Text
  unfolding equal_list_b_from
  equal_list_b fields (a ∷ more) (b ∷ rest) = equal_list_b_from fields a b more rest
  equal_list_b fields [] rest = none
  equal_list_b fields (a ∷ more) [] = none

-- create_vector() from its 13 flags: it returns when the flag at the place `size` is in.
unfoldable pub push_flags : ℕ → ℕ → List Bool → List Bool
push_flags k size [] = []
push_flags k size (t ∷ ts) =
    let more = push_flags (k + 1) size ts in if size == k then t ∷ [] else t ∷ more

unfoldable pub create_vector : ℕ → List Bool → List Bool
unfolding push_flags
create_vector size ts = push_flags 1 size ts
