-- ===== src/Rows.antt =====
-- Rows and their field names: FieldNames of src/field_names.cpp, Row of src/row.h and src/row.cpp,
-- ResultBase::field_num() of src/result.cpp, and create_vector() by field names of src/vallist.cpp. A
-- row is a record; what its values are does not matter here.
pub mod Lookup
pub mod Marks
pub mod Lists
pub mod Tests
use libtabula.Prelude.{
  ℕ, suc, ◌-◌, ◌^◌, Bool, true, false, ◌&&◌, List, [], ◌∷◌, Option, none, some, if◌then◌else◌, ltb,
  leb, length, map, get_elem?, set, replicate,
}
use libtabula.Prelude.Int.{ℤ, pos, negsuc}
use libtabula.Prelude.Bytes.{Text, to_lower, text_eq}

-- str_to_lwr().
unfoldable pub lower : Text → Text
lower s = map to_lower s

-- FieldNames::operator []: the place of a name, or the number of names.
unfoldable pub index_from : Text → List Text → ℕ
index_from temp1 [] = 0
index_from temp1 (n ∷ names) =
    let later = index_from temp1 names in if text_eq (lower n) temp1 then 0 else suc later

unfoldable pub field_index : List Text → Text → ℕ
unfolding index_from lower
field_index names s = index_from (lower s) names

pub record Row (V : Type 0) : Type 0 where
  pub data_ : List V
  pub field_names : Option (List Text)
  pub initialized : Bool
  pub throws : Bool

-- The place of a field, or BadFieldName.
pub data Place : Type 0 where
  place : ℕ → Place
  unknown : Text → Place

-- A value, the empty value, BadIndex with the place and the size, or BadFieldName.
pub data Access (V : Type 0) : Type 0 where
  value : V → Access V
  empty_value : Access V
  bad_index : ℕ → ℕ → Access V
  bad_field_name : Text → Access V
  undefined : Access V

unfoldable pub names_place : Option (List Text) → Bool → Text → Place
names_place (some names) throws name = place (field_index names name)
names_place none throws name = if throws then unknown name else place 0

-- ResultBase::field_num().
unfoldable pub result_field_num : List Text → Bool → Text → Place
result_field_num names throws i =
    if leb (length names) (field_index names i) && throws
    then unknown i
    else place (field_index names i)

module _ {V : Type 0} where
  unfoldable pub size : Row V → ℕ
  size r = if r.initialized then length r.data_ else 0

  unfoldable pub element : Option V → Access V
  element none = undefined
  element (some v) = value v

  unfoldable pub at : Row V → ℕ → Access V
  unfolding size element
  at r i = if ltb i (size r) then element (get_elem? r.data_ i) else bad_index i (size r)

  unfoldable pub field_num : Row V → Text → Place
  unfolding names_place
  field_num r name = names_place r.field_names r.throws name

  -- Row::operator [] for an int, which is cast to 64 bits without a sign.
  unfoldable pub by_place : Row V → ℤ → Access V
  unfolding at
  by_place r (pos n) = at r n
  by_place r (negsuc n) = at r (2 ^ 64 - suc n)

  unfoldable pub at_place : Row V → Text → Place → Access V
  unfolding at
  at_place r field (unknown n) = bad_field_name n
  at_place r field (place si) =
      if ltb si (size r) then at r si else if r.throws then bad_field_name field else empty_value

  -- Row::operator [] for a name.
  unfoldable pub by_name : Row V → Text → Access V
  unfolding field_num at_place
  by_name r field = at_place r field (field_num r field)

-- The flags of create_vector() by names, BadFieldName, or a flag that is set outside of the vector.
pub data Flags : Type 0 where
  flags : List Bool → Flags
  bad_name : Text → Flags
  past_end : Flags

unfoldable pub set_flag : Place → List Bool → Flags
set_flag (unknown n) v = bad_name n
set_flag (place i) v = if ltb i (length v) then flags (set v i true) else past_end

unfoldable pub mark_more : (Text → Place) → List Text → Flags → Flags
unfolding set_flag
mark_more num [] v = v
mark_more num ([] ∷ ss) (flags v) = flags v
mark_more num ((c ∷ s) ∷ ss) (flags v) = mark_more num ss (set_flag (num (c ∷ s)) v)
mark_more num (s ∷ ss) (bad_name n) = bad_name n
mark_more num (s ∷ ss) past_end = past_end

-- create_vector() for a container of `many` values, from its first name and the other twelve.
unfoldable pub create_by_names : (Text → Place) → ℕ → Text → List Text → Flags
unfolding mark_more
create_by_names num many s0 ss = mark_more num ss (set_flag (num s0) (replicate many false))
