-- ===== src/Listed/Tests.antt =====
-- Tests of the manipulators and of the lists, and their theorems at concrete inputs.
use libtabula.Prelude.{
  ◌≡◌, ◌≤◌, ◌<◌, refl, Bool, true, false, List, [], ◌∷◌, ◌++◌, none, some, arith,
}
use libtabula.Prelude.Bytes.{Text, codes}
use libtabula.Escape.{escape_string_generic}
use libtabula.Adapter.{SqlTypeAdapter, of_text}
use libtabula.Listed.{
  quote, written, value_list_from, value_list, value_list_b, create_vector, equal_list,
  equal_list_b,
}
use libtabula.Listed.Literals.{read_literals, text_value, read_literals-value_list}
use libtabula.Listed.Sparse.{value_list_b-selected, value_list_b-create_vector}
use libtabula.Listed.Pairs.{zip_pairs, show_pair, equal_lists-zip}

abbrev as_text : Text → Text
as_text t = t

read_literals-value_list_example :
    read_literals 1 (
      value_list_from
        (λ u. written escape_string_generic quote (text_value u))
        (codes ",")
        (codes "O'Neil")
        (codes "b" ∷ [])
      ++ codes ")")
    ≡ some (codes "O'Neil" ∷ codes "b" ∷ [], codes ")")
read_literals-value_list_example =
    read_literals-value_list (codes "O'Neil") (codes "b" ∷ []) (codes ")") refl

-- The list of which the first value is left out starts with a delimiter.
value_list_b-selected_case :
    (value_list_b as_text
        (codes ",")
        (true ∷ false ∷ true ∷ [])
        (codes "a" ∷ codes "b" ∷ codes "c" ∷ [])
      ≡ value_list as_text (codes ",") (codes "a" ∷ codes "c" ∷ []))
    × (value_list_b as_text
          (codes ",")
          (false ∷ false ∷ true ∷ [])
          (codes "a" ∷ codes "b" ∷ codes "c" ∷ [])
        ≡ some (codes ",c"))
value_list_b-selected_case =
    value_list_b-selected as_text (codes ",") (false ∷ true ∷ []) (codes "a")
      (codes "b" ∷ codes "c" ∷ []) (omega arith)

abbrev twelve : List Bool
twelve = true ∷ true ∷ true ∷ true ∷ true ∷ true ∷ true ∷ true ∷ true ∷ true ∷ true ∷ true ∷ []

abbrev thirteen_more : List Text
thirteen_more =
    codes "b"
    ∷ codes "c"
    ∷ codes "d"
    ∷ codes "e"
    ∷ codes "f"
    ∷ codes "g"
    ∷ codes "h"
    ∷ codes "i"
    ∷ codes "j"
    ∷ codes "k"
    ∷ codes "l"
    ∷ codes "m"
    ∷ codes "n"
    ∷ []

value_list_b-create_vector_case :
    (13 < 13
      → (s : Text) × (value_list_b as_text
            (codes ",")
            (create_vector 14 (true ∷ twelve))
            (codes "a" ∷ thirteen_more)
          ≡ some s))
    × (13 ≤ 13
        → value_list_b as_text
            (codes ",")
            (create_vector 14 (true ∷ twelve))
            (codes "a" ∷ thirteen_more)
          ≡ none)
value_list_b-create_vector_case =
    value_list_b-create_vector as_text (codes ",") true twelve (codes "a") thirteen_more refl

abbrev quote_text : SqlTypeAdapter
quote_text = of_text (codes "it's") false

abbrev names : List Text
names = codes "a" ∷ codes "b" ∷ []

abbrev values : List Text
values = codes "1" ∷ codes "2" ∷ codes "3" ∷ []

equal_lists-zip_case :
    (equal_list as_text as_text (codes " and ") (codes " = ") names values
      ≡ value_list
          (show_pair as_text as_text (codes " and ") (codes " = "))
          (codes " and ")
          (zip_pairs names values))
    × (equal_list_b as_text as_text (codes " and ") (codes " = ") (false ∷ true ∷ []) names values
        ≡ value_list_b
            (show_pair as_text as_text (codes " and ") (codes " = "))
            (codes " and ")
            (false ∷ true ∷ [])
            (zip_pairs names values))
equal_lists-zip_case =
    equal_lists-zip as_text as_text (codes " and ") (codes " = ") (false ∷ true ∷ []) names values
