-- ===== src/Rows/Lists.antt =====
-- The lists of a row: value_list(), field_list() and equal_list() of src/row.h and src/row.cpp, and the
-- functions of src/vallist.h that make a list with flags. `show` and `show_name` print a value and a
-- name with the manipulator of the list.
use libtabula.Prelude.{
  ℕ, ◌≡◌, ◌≤◌, ap, Bool, true, false, List, [], ◌∷◌, Option, none, some, if◌then◌else◌, length,
  replicate, get_elem?, arith,
}
use libtabula.Prelude.Bytes.{Text}
use libtabula.Listed.{
  value_list, value_list_from, value_list_b, create_vector, equal_list, equal_list_b,
}
use libtabula.Listed.Sparse.{selected, led, value_list_b-selected}
use libtabula.Rows.{
  Row, place, field_index, names_place, size, field_num, Flags, flags, bad_name, past_end,
  create_by_names,
}
use libtabula.Rows.Marks.{Marks, is_marked, all_known, until_empty, create_by_names-Marks}

-- A list that is printed, BadFieldName, or a read or a write out of bounds.
pub data Listing : Type 0 where
  printed : Text → Listing
  bad_field : Text → Listing
  undefined : Listing

abbrev pub listing : Option Text → Listing
listing none = undefined
listing (some t) = printed t

-- The flags are set for the fields that are among the marked names, and for no others.
abbrev pub Picks : List Text → List Text → List Bool → Type 0
Picks names marks w =
    (i : ℕ)
    → get_elem? w i ≡ (
        if is_marked (field_index names) i marks
        then some true
        else get_elem? (replicate (length names) false) i)

module _ {A : Type 0} (show : A → Text) where
  -- value_list(s, d, m, t0, ...) for a sequence.
  unfoldable pub list_by_flags : Text → List Bool → List A → Listing
  list_by_flags d ts s = listing (value_list_b show d (create_vector (length s) ts) s)

  abbrev pub list_flagged : Text → List A → Flags → Listing
  list_flagged d s (flags vb) = listing (value_list_b show d vb s)
  list_flagged d s (bad_name n) = bad_field n
  list_flagged d s past_end = undefined

  -- Row::value_list() of all values, by flags, and by field names.
  unfoldable pub row_value_list : Text → Row A → Listing
  row_value_list d r = listing (value_list show d r.data_)

  unfoldable pub row_value_list_flags : Text → List Bool → Row A → Listing
  unfolding size
  row_value_list_flags d ts r = listing (value_list_b show d (create_vector (size r) ts) r.data_)

  unfoldable pub row_value_list_names : Text → Text → List Text → Row A → Listing
  unfolding field_num size
  row_value_list_names d s0 ss r =
      list_flagged d r.data_ (create_by_names (λ s. field_num r s) (size r) s0 ss)

  -- Row::field_list() of all names, and by flags; a null pointer has no names.
  module _ (show_name : Text → Text) where
    abbrev pub over_names : (List Text → Listing) → Option (List Text) → Listing
    over_names f none = undefined
    over_names f (some names) = f names

    unfoldable pub row_field_list : Text → Row A → Listing
    row_field_list d r = over_names (λ names. listing (value_list show_name d names)) r.field_names

    unfoldable pub row_field_list_flags : Text → List Bool → Row A → Listing
    row_field_list_flags d ts r =
        over_names
          (λ names. listing (value_list_b show_name d (create_vector (length names) ts) names))
          r.field_names

    -- Row::equal_list().
    unfoldable pub row_equal_list : Text → Text → Row A → Listing
    row_equal_list d e r =
        over_names (λ names. listing (equal_list show_name show d e names r.data_)) r.field_names

  -- equal_list(s1, s2, d, e, m, t0, ...) for two sequences.
  unfoldable pub equal_by_flags :
      {B : Type 0} → (B → Text) → Text → Text → List Bool → List B → List A → Listing
  equal_by_flags show_name d e ts s1 s2 =
      listing (equal_list_b show_name show d e (create_vector (length s1) ts) s1 s2)

  -- What the flags select of a row: a list, which starts with a delimiter if the first flag is not set.
  abbrev pub chosen_values : Text → Bool → List Bool → A → List A → Text
  chosen_values d true fs a l = value_list_from show d a (selected fs l)
  chosen_values d false fs a l = led show d (selected fs l)

  flagged-chosen :
      (d : Text) (f : Bool) (fs : List Bool) (a : A) (l : List A)
      → length l ≤ length fs
      → list_flagged d (a ∷ l) (flags (f ∷ fs)) ≡ printed (chosen_values d f fs a l)
  unfolding value_list
  flagged-chosen d true fs a l h = ap listing (value_list_b-selected show d fs a l h).0
  flagged-chosen d false fs a l h = ap listing (value_list_b-selected show d fs a l h).1

  by_flags :
      (d : Text) (r : Row A) (names : List Text) (a : A) (l : List A) (s0 : Text) (ss : List Text)
      (f : Bool) (fs : List Bool)
      → r.initialized ≡ true
      → r.field_names ≡ some names
      → r.data_ ≡ a ∷ l
      → length names ≡ length r.data_
      → create_by_names (λ s. place (field_index names s)) (length names) s0 ss ≡ flags (f ∷ fs)
      → length l ≤ length fs
      → row_value_list_names d s0 ss r ≡ printed (chosen_values d f fs a l)
  unfolding row_value_list_names field_num names_place size
  by_flags d r names a l s0 ss f fs on named values many e h =
      rw (on, named, ← many, e, values) (flagged-chosen d f fs a l h)

  -- From the flags of create_vector() to the list.
  listed_by :
      (d : Text) (r : Row A) (names : List Text) (a : A) (l : List A) (s0 : Text) (ss : List Text)
      (w : List Bool)
      → r.initialized ≡ true
      → r.field_names ≡ some names
      → r.data_ ≡ a ∷ l
      → length names ≡ length r.data_
      → create_by_names (λ s. place (field_index names s)) (length names) s0 ss ≡ flags w
      → length w ≡ length names
      → Picks names (s0 ∷ until_empty ss) w
      → (f : Bool) × (fs : List Bool) × (Picks names (s0 ∷ until_empty ss) (f ∷ fs)
          × (row_value_list_names d s0 ss r ≡ printed (chosen_values d f fs a l)))
  listed_by d r names a l s0 ss [] on named values many e n at =
      absurd (omega (arith, n, many, ap (λ m. length m) values))
  listed_by d r names a l s0 ss (f ∷ fs) on named values many e n at = (
    f,
    fs,
    (
      at,
      by_flags d r names a l s0 ss f fs on named values many e
          (omega (arith, n, many, ap (λ m. length m) values)),
    ),
  )

  -- The values of a row whose fields are named, if each name is the name of a field; the names count up
  -- to the first that is empty. The values are printed in the order of the row, whatever the order of
  -- the names is, with delimiters in between, and one in front of them all unless the first field is
  -- among those named. No flag is read that is not there.
  pub row_value_list_names-chosen :
      (d : Text) (r : Row A) (names : List Text) (a : A) (l : List A) (s0 : Text) (ss : List Text)
      → r.initialized ≡ true
      → r.field_names ≡ some names
      → r.data_ ≡ a ∷ l
      → length names ≡ length r.data_
      → all_known (field_index names) (length names) (s0 ∷ until_empty ss) ≡ true
      → (f : Bool) × (fs : List Bool) × (Picks names (s0 ∷ until_empty ss) (f ∷ fs)
          × (row_value_list_names d s0 ss r ≡ printed (chosen_values d f fs a l)))
  unfolding Marks
  row_value_list_names-chosen d r names a l s0 ss on named values many known =
      let (w, (e, (n, at))) = (create_by_names-Marks names s0 ss).0 known in
      listed_by d r names a l s0 ss w on named values many e n at
