-- ===== src/Sets.antt =====
-- Set of src/myset.h: the parser of a list of elements, set2container(), the set that it fills, and
-- the printer. A std::set<std::string> is the list of its elements in their order.
pub mod Lost
pub mod Tests
use libtabula.Prelude.{ℕ, Bool, true, false, ◌&&◌, List, [], ◌∷◌, ◌++◌, ◌==◌, ltb, if◌then◌else◌}
use libtabula.Prelude.Bytes.{Text, text_eq}

-- std::string's <.
unfoldable pub text_lt : Text → Text → Bool
text_lt s [] = false
text_lt [] (d ∷ t) = true
text_lt (c ∷ s) (d ∷ t) = let rest = text_lt s t in if c == d then rest else ltb c d

-- insert() of a std::set.
unfoldable pub insert : Text → List Text → List Text
unfolding text_lt
insert t [] = t ∷ []
insert t (u ∷ l) =
    let rest = insert t l in
    if text_eq t u then u ∷ l else if text_lt t u then t ∷ (u ∷ l) else u ∷ rest

-- The final element, if any.
unfoldable pub final : Text → List Text
final [] = []
final (c ∷ temp) = (c ∷ temp) ∷ []

-- What a character adds to the element, and what it inserts. `skip` is true behind a comma, where
-- the next character is passed over.
unfoldable pub next_temp : Bool → ℕ → Text → Text
next_temp true c temp = temp
next_temp false c temp = if c == b',' then [] else temp ++ c ∷ []

unfoldable pub inserting : Bool → ℕ → Text → List Text → List Text
inserting true c temp rest = rest
inserting false c temp rest = if c == b',' then temp ∷ rest else rest

unfoldable pub next_skip : Bool → ℕ → Bool
next_skip true c = false
next_skip false c = c == b','

-- set2container(): the calls of insert(), in order.
unfoldable pub set2container : Bool → Text → Text → List Text
unfolding final next_temp inserting next_skip
set2container skip temp [] = final temp
set2container skip temp (c ∷ str) =
    let rest = set2container (next_skip skip c) (next_temp skip c temp) str in
    if c == 0 then final temp else inserting skip c temp rest

unfoldable pub insert_all : List Text → List Text → List Text
unfolding insert
insert_all [] set = set
insert_all (t ∷ ts) set = insert_all ts (insert t set)

-- The constructors of Set from a text.
unfoldable pub of_text : Text → List Text
unfolding set2container insert_all
of_text str = insert_all (set2container false [] str) []

-- operator << and str().
unfoldable pub print : List Text → Text
print [] = []
print (t ∷ []) = t
print (t ∷ u ∷ l) = t ++ (b',' ∷ print (u ∷ l))
