-- ===== src/Results/Tests.antt =====
-- Tests of result sets, and their theorems at concrete inputs: a result set of two fields, whose API
-- is the rows that are left and the lengths of the last one.
use libtabula.Prelude.{
  ℕ, ◌-◌, ◌≡◌, ◌≤◌, ◌<◌, refl, Bool, true, false, List, [], ◌∷◌, ◌++◌, Option, none, some, length,
  replicate, map, arith,
}
use libtabula.Prelude.Bytes.{Text, codes}
use libtabula.Rows.{Row}
use libtabula.Results.{
  Field, ResultApi, RowValue, ResultBase, stored, overrun, empty_row, result_base, fetch_fields,
  fields_from, values, store_query_result,
}
use libtabula.Results.Filled.{Gives, stored_row, store_query_result-Gives}
use libtabula.Results.Loops.{store_if, chosen, over, store_if-chosen}

abbrev Cursor : Type 0
Cursor = List (Field ℕ) × (List ℕ × List (List (Option Text)))

abbrev cell_length : Option Text → ℕ
cell_length none = 0
cell_length (some t) = length t

abbrev next_field : Cursor → Option (Field ℕ) × Cursor
next_field ([], r) = (none, ([], r))
next_field (f ∷ fs, r) = (some f, (fs, r))

abbrev next_row : Cursor → Option (List (Option Text)) × Cursor
next_row (fs, (ls, [])) = (none, (fs, (ls, [])))
next_row (fs, (ls, r ∷ rows)) = (some r, (fs, (map cell_length r, rows)))

abbrev api : ResultApi Cursor Text ℕ
api = record {
  num_fields = λ s. length s.0;
  fetch_field = next_field;
  field_seek = λ i s. s;
  fetch_row = next_row;
  fetch_lengths = λ s. some s.1.0;
  bytes = λ p n. p;
}

abbrev fields : List (Field ℕ)
fields =
    record { name = codes "id"; table = codes "t"; type = 3 }
    ∷ record { name = codes "note"; table = codes "t"; type = 9 }
    ∷ []

abbrev cursor : Cursor
cursor =
    (fields, ([], (some (codes "1") ∷ none ∷ []) ∷ (some (codes "2") ∷ some (codes "x") ∷ []) ∷ []))

abbrev behind : Cursor
behind = ([], cursor.1)

abbrev first_values : List (RowValue ℕ)
first_values =
    record { text = codes "1"; type = 3; is_null = false }
    ∷ record { text = codes "NULL"; type = 9; is_null = true }
    ∷ []

abbrev second_values : List (RowValue ℕ)
second_values =
    record { text = codes "2"; type = 3; is_null = false }
    ∷ record { text = codes "x"; type = 9; is_null = false }
    ∷ []

abbrev result : ResultBase ℕ
result = record {
  fields_ = fields;
  names_ = codes "id" ∷ codes "note" ∷ [];
  types_ = 3 ∷ 9 ∷ [];
  current_field = 0;
  throws = false;
}

result_base_case : result_base api (λ t. t) false cursor ≡ (result, behind)
unfolding result_base fetch_fields fields_from
result_base_case = refl

cursor-Gives : Gives api (λ t. t) (3 ∷ 9 ∷ []) (first_values ∷ second_values ∷ []) behind
unfolding Gives values
cursor-Gives =
    (_, _, _, (refl, (refl, (refl, (refl, (_, _, _, (refl, (refl, (refl, (refl, (_, refl)))))))))))

-- Two rows, of which the result says three: the third is empty.
store_query_result-Gives_example :
    (2 ≤ 3
      → (store_query_result api (λ t. t) false false 3 cursor).1
        ≡ stored (
            map (stored_row api (λ t. t) result) (first_values ∷ second_values ∷ [])
            ++ replicate (3 - 2) empty_row))
    × (3 < 2 → (store_query_result api (λ t. t) false false 3 cursor).1 ≡ overrun)
unfolding result_base fetch_fields fields_from
store_query_result-Gives_example =
    store_query_result-Gives api (λ t. t) false false 3 cursor (first_values ∷ second_values ∷ [])
      cursor-Gives

-- A condition on a row: it has a null value in its second place.
abbrev noted : Row (RowValue ℕ) → Bool
noted r = second r.data_
  where
    second : List (RowValue ℕ) → Bool
    second (a ∷ v ∷ vs) = v.is_null
    second (a ∷ []) = false
    second [] = false

store_if-chosen_example :
    store_if api (λ t. t) false true result 3 noted [] (some behind)
    ≡ over api
        (λ t. t)
        false
        true
        result
        ([] ++ chosen api (λ t. t) false true result noted (first_values ∷ second_values ∷ []))
store_if-chosen_example =
    store_if-chosen api (λ t. t) false true result 3 noted [] (first_values ∷ second_values ∷ [])
      behind cursor-Gives (omega arith)

store_if_case :
    chosen api (λ t. t) false true result noted (first_values ∷ second_values ∷ [])
    ≡ stored_row api (λ t. t) result first_values ∷ []
store_if_case = refl
