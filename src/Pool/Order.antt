-- ===== src/Pool/Order.antt =====
-- The order on pool entries, and what std::max_element finds by it.
use libtabula.Prelude.{
  ℕ, suc, ◌∙◌, ap, ◌+◌, ◌≡◌, refl, true, false, List, [], ◌∷◌, some, inl, inr, arith, get_elem?,
  All, if◌then◌else◌, Bool-cases,
}
use libtabula.Pool.{ConnectionInfo, less, max_element, max_element_from}

-- The order is a strict weak order, as std::max_element demands: it is irreflexive and transitive,
-- and so is the relation "neither is less".
pub less_strict :
    (a b c : ConnectionInfo)
    → (less a a ≡ false)
      × (less a b ≡ true → less b c ≡ true → less a c ≡ true)
      × (less b a ≡ false → less c b ≡ false → less c a ≡ false)
unfolding less
less_strict a b c = (ground arith, ground arith, ground arith)

less_back : (a b c : ConnectionInfo) → less a b ≡ true → less c b ≡ false → less c a ≡ false
unfolding less
less_back a b c h k = ground arith

less_step :
    (largest x r : ConnectionInfo)
    → less r (if less largest x then x else largest) ≡ false
    → (less r largest ≡ false) × (less r x ≡ false)
less_step largest x r h = elim (Bool-cases (less largest x)) [
  | inl more ↦ (less_back largest x r more (rw more at h), (rw more at h))
  | inr same ↦ ((rw same at h), (less_strict x largest r).2 same (rw same at h))
]

-- `x` is not less than any entry of the list.
abbrev pub IsMax : ConnectionInfo → List ConnectionInfo → Type 0
IsMax x = All (λ y. less x y ≡ false)

-- The result is not less than the element it started from, nor than any that it passed.
max_element_from-IsMax :
    (at : ℕ) (largest : ConnectionInfo) (i : ℕ) (xs : List ConnectionInfo)
    → (less (max_element_from at largest i xs).1 largest ≡ false)
      × IsMax (max_element_from at largest i xs).1 xs
unfolding max_element_from
max_element_from-IsMax at largest i [] = ((less_strict largest largest largest).0, tt)
max_element_from-IsMax at largest i (x ∷ xs) =
    let ih =
      max_element_from-IsMax (if less largest x then i else at)
        (if less largest x then x else largest) (suc i) xs in
    let last = less_step largest x (max_element_from at largest i (x ∷ xs)).1 ih.0 in
    (last.0, (last.1, ih.1))

-- The place is that of the element, if `xs` is what `all` holds from place `i` on.
max_element_from_place :
    (all : List ConnectionInfo) (at : ℕ) (largest : ConnectionInfo) (i : ℕ)
    (xs : List ConnectionInfo)
    → get_elem? all at ≡ some largest
    → ((j : ℕ) → get_elem? all (i + j) ≡ get_elem? xs j)
    → get_elem? all (max_element_from at largest i xs).0 ≡ some (max_element_from at largest i xs).1
unfolding max_element_from
max_element_from_place all at largest i [] e h = e
max_element_from_place all at largest i (x ∷ xs) e h =
    max_element_from_place all (if less largest x then i else at)
      (if less largest x then x else largest) (suc i) xs start
      (λ j. ap (get_elem? all) (omega arith) ∙ h (suc j))
  where
    start :
        get_elem? all (if less largest x then i else at)
        ≡ some (if less largest x then x else largest)
    start = elim (Bool-cases (less largest x)) [
      | inl more ↦ rw more (ap (get_elem? all) (omega arith) ∙ h 0)
      | inr same ↦ rw same e
    ]

-- std::max_element fails on the empty list only. It returns a place that the list has, with the
-- entry there, and no entry is larger.
pub max_element-IsMax :
    (x : ConnectionInfo) (xs : List ConnectionInfo)
    → (at : ℕ) × (i : ConnectionInfo) × (max_element (x ∷ xs) ≡ some (at, i))
      × (get_elem? (x ∷ xs) at ≡ some i)
      × IsMax i (x ∷ xs)
unfolding max_element
max_element-IsMax x xs =
    let r = max_element_from 0 x 1 xs in
    let m = max_element_from-IsMax 0 x 1 xs in
    (
      r.0,
      r.1,
      refl,
      max_element_from_place (x ∷ xs) 0 x 1 xs refl
          (λ j. ap (get_elem? (x ∷ xs)) {y = suc j} (omega arith)),
      m,
    )
