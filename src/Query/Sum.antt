-- ===== src/Query/Sum.antt =====
-- The sum of two lists of parameters.
use libtabula.Prelude.{
  ℕ, zero, suc, ◌≡◌, refl, List, [], ◌∷◌, ◌++◌, map, Option, none, some, length, get_elem?,
  append-nil, ap, sym, ◌∙◌,
}
use libtabula.Adapter.{SqlTypeAdapter, copied}
use libtabula.Query.{Params, add, rest_of}

abbrev pub copied? : Option SqlTypeAdapter → Option SqlTypeAdapter
copied? none = none
copied? (some a) = some (copied a)

abbrev pub or_from : Option SqlTypeAdapter → Option SqlTypeAdapter → Option SqlTypeAdapter
or_from none b = b
or_from (some a) b = some a

or_from-none : (a : Option SqlTypeAdapter) → or_from a none ≡ a
or_from-none none = refl
or_from-none (some a) = refl

get_elem?-map :
    (xs : List SqlTypeAdapter) (n : ℕ) → get_elem? (map copied xs) n ≡ copied? (get_elem? xs n)
get_elem?-map [] n = refl
get_elem?-map (x ∷ xs) zero = refl
get_elem?-map (x ∷ xs) (suc n) = get_elem?-map xs n

rest_of_zero : (ys : List SqlTypeAdapter) → rest_of 0 ys ≡ map copied ys
unfolding rest_of
rest_of_zero [] = refl
rest_of_zero (y ∷ ys) = ap (λ l. copied y ∷ l) (rest_of_zero ys)

sum_at :
    (xs ys : List SqlTypeAdapter) (n : ℕ)
    → get_elem? (map copied xs ++ rest_of (length xs) ys) n
      ≡ copied? (or_from (get_elem? xs n) (get_elem? ys n))
unfolding rest_of
sum_at [] ys n = ap (λ l. get_elem? l n) (rest_of_zero ys) ∙ get_elem?-map ys n
sum_at (x ∷ xs) [] zero = refl
sum_at (x ∷ xs) [] (suc n) =
    rw append-nil (get_elem?-map xs n ∙ ap copied? (sym (or_from-none (get_elem? xs n))))
sum_at (x ∷ xs) (y ∷ ys) zero = refl
sum_at (x ∷ xs) (y ∷ ys) (suc n) = sum_at xs ys n

-- In the sum of two lists every place has a copy of the first list's parameter, or of the second's
-- where the first has none, and the sum is bound as the first is.
pub get_elem?-add :
    (p other : Params) (n : ℕ)
    → (get_elem? (add p other).items n
        ≡ copied? (or_from (get_elem? p.items n) (get_elem? other.items n)))
      × ((add p other).bound ≡ p.bound)
unfolding add
get_elem?-add p other n = (sum_at p.items other.items n, refl)
