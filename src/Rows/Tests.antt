-- ===== src/Rows/Tests.antt =====
-- Tests of rows, and their theorems at concrete inputs.
use libtabula.Prelude.{
  ℕ, ◌-◌, ◌^◌, ◌≡◌, ◌≤◌, ◌<◌, refl, Bool, true, false, List, [], ◌∷◌, some, get_elem?, arith,
}
use libtabula.Prelude.Int.{pos, negsuc}
use libtabula.Prelude.Bytes.{Text, codes, to_lower, is_upper, text_eq}
use libtabula.Rows.{
  field_num, names_place, Row, place, value, bad_index, by_place, by_name, field_index,
  create_by_names, index_from, lower, result_field_num, past_end, mark_more, set_flag,
}
use libtabula.Rows.Lookup.{Answers, by_name-Answers, by_place-bounds}
use libtabula.Listed.{value_list_b, value_list_b_from, show_if, next_delim}
use libtabula.Rows.Lists.{
  Picks, printed, undefined, row_value_list_names, chosen_values, row_value_list_names-chosen,
}
use libtabula.Rows.Marks.{Marks, create_by_names-Marks}

abbrev names : List Text
names = codes "id" ∷ codes "Name" ∷ codes "name" ∷ []

abbrev row : Row ℕ
row = record { data_ = 7 ∷ 8 ∷ 9 ∷ []; field_names = some names; initialized = true; throws = true }

by_name-Answers_example : Answers row names (codes "NAME") (by_name row (codes "NAME"))
by_name-Answers_example = by_name-Answers row names (codes "NAME") refl refl refl

by_place-bounds_case :
    (1 < 3 → (v : ℕ) × ((get_elem? (7 ∷ 8 ∷ 9 ∷ []) 1 ≡ some v) × (by_place row (pos 1) ≡ value v)))
    × ((3 ≤ 1 → by_place row (pos 1) ≡ bad_index 1 3)
        × (by_place row (negsuc 1) ≡ bad_index (2 ^ 64 - 2) 3))
by_place-bounds_case = by_place-bounds row 1 refl (omega arith) (omega arith)

create_by_names-Marks_case :
    Marks (field_index names) 3 (codes "ID" ∷ codes "name" ∷ []) (false ∷ false ∷ false ∷ []) (
      create_by_names
        (λ s. place (field_index names s))
        3
        (codes "ID")
        (codes "name" ∷ [] ∷ codes "age" ∷ []))
create_by_names-Marks_case =
    create_by_names-Marks names (codes "ID") (codes "name" ∷ [] ∷ codes "age" ∷ [])

-- The second of the three fields has the name, but for case.
field_index_case : field_index names (codes "NAME") ≡ 1
unfolding field_index index_from lower to_lower is_upper text_eq
field_index_case = refl

-- Without exceptions, the place of a name that is not there is the number of names, not -1.
result_field_num_case : result_field_num names false (codes "age") ≡ place 3
unfolding result_field_num field_index index_from lower to_lower is_upper text_eq
result_field_num_case = refl

-- A name that is no field sets a flag outside of the vector.
create_by_names_case :
    create_by_names (λ s. place (field_index names s)) 3 (codes "age") [] ≡ past_end
unfolding create_by_names mark_more set_flag field_index index_from lower to_lower is_upper text_eq
create_by_names_case = refl

-- The second and the third value of the row, with a delimiter in front, since the first is not named.
row_value_list_names-chosen_example :
    (f : Bool) × (fs : List Bool) × (Picks names (codes "NAME" ∷ []) (f ∷ fs)
      × (row_value_list_names (λ v. v ∷ []) (codes ",") (codes "NAME") [] row
          ≡ printed (chosen_values (λ v. v ∷ []) (codes ",") f fs 7 (8 ∷ 9 ∷ []))))
unfolding field_index index_from lower to_lower is_upper text_eq
row_value_list_names-chosen_example =
    row_value_list_names-chosen (λ v. v ∷ []) (codes ",") row names 7 (8 ∷ 9 ∷ []) (codes "NAME") []
      refl refl refl refl refl

-- A name that is no field sets a flag outside of the vector, and is not BadFieldName.
row_value_list_names_case :
    row_value_list_names (λ v. v ∷ []) (codes ",") (codes "age") [] row ≡ undefined
unfolding row_value_list_names field_num names_place create_by_names mark_more set_flag field_index
    index_from lower to_lower is_upper text_eq
row_value_list_names_case = refl

-- The name is found but for case, and the value has a delimiter in front.
row_value_list_names_case2 :
    row_value_list_names (λ v. v ∷ []) (codes ",") (codes "name") [] row ≡ printed (44 ∷ 8 ∷ [])
unfolding row_value_list_names field_num names_place create_by_names mark_more set_flag field_index
    index_from lower to_lower is_upper text_eq value_list_b value_list_b_from show_if next_delim
row_value_list_names_case2 = refl
