-- ===== src/Listed/Pairs.antt =====
-- Lists of equalities as lists of pairs.
use libtabula.Prelude.{◌≡◌, refl, ap, ◌∙◌, Bool, true, false, List, [], ◌∷◌, ◌++◌, some, ◌>>=◌}
use libtabula.Prelude.Bytes.{Text}
use libtabula.Listed.{
  value_list_from, value_list, next_delim, show_if, value_list_b_from, value_list_b, equality,
  equality_if, equal_list_from, equal_list, equal_list_b_from, equal_list_b,
}

-- The pairs of two sequences, as far as both go.
abbrev pub zip_pairs : {A B : Type 0} → List A → List B → List (A × B)
zip_pairs [] m = []
zip_pairs (a ∷ l) [] = []
zip_pairs (a ∷ l) (b ∷ m) = (a, b) ∷ zip_pairs l m

module _ {A B : Type 0} (show_name : A → Text) (show_value : B → Text) (delim equl : Text) where
  -- A pair as an equality.
  abbrev pub show_pair : A × B → Text
  show_pair p = equality show_name show_value delim equl p.0 p.1

  from-zip :
      (a : A) (b : B) (l : List A) (m : List B)
      → equal_list_from show_name show_value delim equl a b l m
        ≡ value_list_from show_pair delim (a, b) (zip_pairs l m)
  unfolding equal_list_from value_list_from
  from-zip a b [] m = refl
  from-zip a b (c ∷ l) [] = refl
  from-zip a b (c ∷ l) (d ∷ m) = ap (λ s. show_pair (a, b) ++ (delim ++ s)) (from-zip c d l m)

  equal_list-zip :
      (l : List A) (m : List B)
      → equal_list show_name show_value delim equl l m ≡ value_list show_pair delim (zip_pairs l m)
  unfolding equal_list value_list
  equal_list-zip [] m = refl
  equal_list-zip (a ∷ l) [] = refl
  equal_list-zip (a ∷ l) (b ∷ m) = ap some (from-zip a b l m)

  equality_if-pair :
      (f : Bool) (a : A) (b : B)
      → equality_if show_name show_value delim equl f a b ≡ show_if show_pair delim f (a, b)
  unfolding equality_if show_if
  equality_if-pair true a b = refl
  equality_if-pair false a b = refl

  from_b-zip :
      (fs : List Bool) (a : A) (b : B) (l : List A) (m : List B)
      → equal_list_b_from show_name show_value delim equl fs a b l m
        ≡ value_list_b_from show_pair delim fs (a, b) (zip_pairs l m)
  unfolding equal_list_b_from value_list_b_from next_delim
  from_b-zip [] a b l m = refl
  from_b-zip (f ∷ fs) a b [] m = ap some (equality_if-pair f a b)
  from_b-zip (f ∷ fs) a b (c ∷ l) [] = ap some (equality_if-pair f a b)
  from_b-zip (f ∷ []) a b (c ∷ l) (e ∷ m) = refl
  from_b-zip (f ∷ true ∷ fs) a b (c ∷ l) (e ∷ m) =
      ap (λ r. r >>= λ s. some (equality_if show_name show_value delim equl f a b ++ (delim ++ s)))
        (from_b-zip (true ∷ fs) c e l m)
      ∙ ap
          (λ t. value_list_b_from show_pair delim (true ∷ fs) (c, e) (zip_pairs l m) >>= λ s.
            some (t ++ (delim ++ s)))
          (equality_if-pair f a b)
  from_b-zip (f ∷ false ∷ fs) a b (c ∷ l) (e ∷ m) =
      ap (λ r. r >>= λ s. some (equality_if show_name show_value delim equl f a b ++ s))
        (from_b-zip (false ∷ fs) c e l m)
      ∙ ap
          (λ t. value_list_b_from show_pair delim (false ∷ fs) (c, e) (zip_pairs l m) >>= λ s.
            some (t ++ s))
          (equality_if-pair f a b)

  -- A list of equalities, whole or with flags, is the list of values of the pairs, as far as both
  -- sequences go, each printed as an equality; also where a sequence is empty or flags are missing.
  pub equal_lists-zip :
      (fields : List Bool) (l : List A) (m : List B)
      → (equal_list show_name show_value delim equl l m
          ≡ value_list show_pair delim (zip_pairs l m))
        × (equal_list_b show_name show_value delim equl fields l m
            ≡ value_list_b show_pair delim fields (zip_pairs l m))
  unfolding equal_list_b value_list_b
  equal_lists-zip fields [] m = (equal_list-zip [] m, refl)
  equal_lists-zip fields (a ∷ l) [] = (equal_list-zip (a ∷ l) [], refl)
  equal_lists-zip fields (a ∷ l) (b ∷ m) =
      (equal_list-zip (a ∷ l) (b ∷ m), from_b-zip fields a b l m)
