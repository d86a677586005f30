-- ===== src/Query/Names.antt =====
-- The access to the parameters of a template by name: SQLQueryParms::operator[] of src/qparms.cpp over
-- the map parsed_nums_ of the query, and the parameters that are written through it.
use libtabula.Prelude.{
  ℕ, zero, suc, ◌+◌, ◌-◌, ◌≡◌, ◌≢◌, ◌<◌, refl, sym, ap, ◌∙◌, Bool, true, false, not, ◌&&◌, map,
  List, [], ◌∷◌, ◌++◌, Option, none, some, ltb, if◌then◌else◌, length, get_elem?, set, replicate,
  arith, Bool-cases, inl, inr, length-append, All, get_elem?-set_self, get_elem?-set_ne,
}
use libtabula.Prelude.Int.{ℤ, pos, negsuc}
use libtabula.Prelude.Bytes.{Text, text_eq, text_eq_refl, text_eq→eq}
use libtabula.Adapter.{SqlTypeAdapter, of_text, copied}
use libtabula.Query.{Params, grow}
use libtabula.Query.Parse.{put_num}

-- parsed_nums_[str], which enters a name that is not there with the number 0.
unfoldable pub num_of : Text → List (Text × ℤ) → ℤ × List (Text × ℤ)
num_of str [] = (pos 0, (str, pos 0) ∷ [])
num_of str ((k, n) ∷ nums) =
    let (found, later) = num_of str nums in
    if text_eq k str then (n, (k, n) ∷ nums) else (found, (k, n) ∷ later)

-- The number as a position, where a negative one becomes a position behind any vector's size.
abbrev pub position : ℤ → Option ℕ
position (pos n) = some n
position (negsuc n) = none

-- What an access by name ends with: the parameters and the map, ObjectNotInitialized without a query,
-- or no result, for a position that no vector has.
pub data Access : Type 0 where
  written : Params → List (Text × ℤ) → Access
  object_not_initialized too_long : Access

-- The assignment takes the value, and clears the mark.
abbrev pub write_at : Bool → SqlTypeAdapter → List (Text × ℤ) → Params → Option ℕ → Access
write_at moved a nums p none = too_long
write_at moved a nums p (some n) =
    written (record (grow moved n p) { items = set (grow moved n p).items n (copied a) }) nums

-- parms["name"] = a.
unfoldable pub write_named : Bool → Text → SqlTypeAdapter → List (Text × ℤ) → Params → Access
unfolding num_of grow
write_named moved str a nums p =
    if p.bound
    then write_at moved a (num_of str nums).1 p (position (num_of str nums).0)
    else object_not_initialized

num_of-put_num :
    (str : Text) (n : ℤ) (nums : List (Text × ℤ))
    → num_of str (put_num str n nums) ≡ (n, put_num str n nums)
unfolding num_of put_num
num_of-put_num str n [] = rw (text_eq_refl str) refl
num_of-put_num str n ((k, m) ∷ nums) = elim (Bool-cases (text_eq k str)) [
  | inl same ↦ rw (same, same) refl
  | inr other ↦
      rw (other, other)
        (ap (λ (r : ℤ × List (Text × ℤ)). (r.0, (k, m) ∷ r.1)) (num_of-put_num str n nums))
]

text_eq-false : (k str : Text) → k ≢ str → text_eq k str ≡ false
text_eq-false k str h = elim (Bool-cases (text_eq k str)) [
  | inl same ↦ absurd (h (text_eq→eq k str same))
  | inr other ↦ other
]

num_of_unknown :
    (str : Text) (nums : List (Text × ℤ))
    → All (λ e. e.0 ≢ str) nums
    → num_of str nums ≡ (pos 0, nums ++ (str, pos 0) ∷ [])
unfolding num_of
num_of_unknown str [] h = refl
num_of_unknown str ((k, m) ∷ nums) (h, hs) =
    rw (text_eq-false k str h)
      (ap (λ (r : ℤ × List (Text × ℤ)). (r.0, (k, m) ∷ r.1)) (num_of_unknown str nums hs))

-- A parameter that is moved loses its mark.
abbrev pub kept : Bool → Option SqlTypeAdapter → Option SqlTypeAdapter
kept moved none = none
kept moved (some a) = some (if moved then copied a else a)

-- The parameter n has the value of `a`, without its mark, and the other parameters that there were are
-- as they were, but that they lose their marks if the vector grew in new memory.
pub Places : Bool → Params → ℕ → SqlTypeAdapter → Params → Type 0
Places moved p n a p' =
    (get_elem? p'.items n ≡ some (copied a))
    × ((j : ℕ)
        → j ≢ n
        → j < length p.items
        → get_elem? p'.items j ≡ kept (moved && not (ltb n (length p.items))) (get_elem? p.items j))

get_elem?-append :
    (xs ys : List SqlTypeAdapter) (j : ℕ) → j < length xs → get_elem? (xs ++ ys) j ≡ get_elem? xs j
get_elem?-append [] ys j h = absurd (omega (arith, h))
get_elem?-append (x ∷ xs) ys zero h = refl
get_elem?-append (x ∷ xs) ys (suc j) h = get_elem?-append xs ys j (omega (arith, h))

length-replicate : (n : ℕ) (a : SqlTypeAdapter) → length (replicate n a) ≡ n
length-replicate zero a = refl
length-replicate (suc n) a = ap suc (length-replicate n a)

abbrev moved_items : Bool → List SqlTypeAdapter → List SqlTypeAdapter
moved_items moved xs = if moved then map copied xs else xs

get_elem?-map :
    (xs : List SqlTypeAdapter) (j : ℕ) → get_elem? (map copied xs) j ≡ kept true (get_elem? xs j)
get_elem?-map [] j = refl
get_elem?-map (x ∷ xs) zero = refl
get_elem?-map (x ∷ xs) (suc j) = get_elem?-map xs j

kept_in_place : (o : Option SqlTypeAdapter) → kept false o ≡ o
kept_in_place none = refl
kept_in_place (some a) = refl

get_elem?-moved :
    (moved : Bool) (xs : List SqlTypeAdapter) (j : ℕ)
    → get_elem? (moved_items moved xs) j ≡ kept moved (get_elem? xs j)
get_elem?-moved true xs j = get_elem?-map xs j
get_elem?-moved false xs j = sym (kept_in_place (get_elem? xs j))

length-map : (xs : List SqlTypeAdapter) → length (map copied xs) ≡ length xs
length-map [] = refl
length-map (x ∷ xs) = ap suc (length-map xs)

length-moved : (moved : Bool) (xs : List SqlTypeAdapter) → length (moved_items moved xs) ≡ length xs
length-moved true xs = length-map xs
length-moved false xs = refl

and_false : (b : Bool) → (b && false) ≡ false
and_false true = refl
and_false false = refl

and_true : (b : Bool) → (b && true) ≡ b
and_true true = refl
and_true false = refl

grow-Places :
    (moved : Bool) (n : ℕ) (a : SqlTypeAdapter) (p : Params)
    → Places moved p n a
        (record (grow moved n p) { items = set (grow moved n p).items n (copied a) })
unfolding Places grow
grow-Places moved n a p = elim (Bool-cases (ltb n (length p.items))) [
  | inl inside ↦
      rw (inside, and_false moved)
        (
          get_elem?-set_self p.items n (copied a) (ground (arith, inside)),
          λ j other h.
              get_elem?-set_ne p.items (copied a) (λ e. other (sym e))
              ∙ sym (kept_in_place (get_elem? p.items j)),
        )
  | inr outside ↦
      let more = replicate (n + 1 - length p.items) (of_text [] false) in
      let old = moved_items moved p.items in
      let long : n < length (old ++ more) = ground (
        arith,
        outside,
        length-append old more,
        length-moved moved p.items,
        length-replicate (n + 1 - length p.items) (of_text [] false),
      ) in
      rw (outside, and_true moved)
        (
          get_elem?-set_self (old ++ more) n (copied a) long,
          λ j other h.
              get_elem?-set_ne (old ++ more) (copied a) (λ e. other (sym e))
              ∙ get_elem?-append old more j (omega (arith, h, length-moved moved p.items))
              ∙ get_elem?-moved moved p.items j,
        )
]

-- Writing a parameter by its name, of parameters that are bound to a query, writes the parameter with
-- the number that the template declares for the name last. A name that the template does not declare
-- is entered with the number zero, and the first parameter is written. The value is written without
-- its mark. The other parameters stay, and lose their marks if the vector grows in new memory.
pub write_named-Places :
    (moved : Bool) (str : Text) (a : SqlTypeAdapter) (n : ℕ) (nums : List (Text × ℤ)) (p : Params)
    → p.bound ≡ true
    → ((p' : Params) × (write_named moved str a (put_num str (pos n) nums) p
          ≡ written p' (put_num str (pos n) nums))
        × Places moved p n a p')
      × (All (λ e. e.0 ≢ str) nums
          → (p' : Params) × (write_named moved str a nums p
              ≡ written p' (nums ++ (str, pos 0) ∷ []))
            × Places moved p 0 a p')
unfolding write_named
write_named-Places moved str a n nums p bound = (
  (
    record (grow moved n p) { items = set (grow moved n p).items n (copied a) },
    rw (bound, num_of-put_num str (pos n) nums) refl,
    grow-Places moved n a p,
  ),
  λ h. (
    record (grow moved 0 p) { items = set (grow moved 0 p).items 0 (copied a) },
    rw (bound, num_of_unknown str nums h) refl,
    grow-Places moved 0 a p,
  ),
)
