-- ===== src/Rows/Lookup.antt =====
-- The look-up of a field by its name or its place.
use libtabula.Prelude.{
  ℕ, zero, suc, ◌-◌, ◌^◌, ◌≡◌, ◌≢◌, ◌≤◌, ◌<◌, ◌⊎◌, inl, inr, refl, sym, ap, subst, ◌∙◌, true, false,
  List, [], ◌∷◌, ◌++◌, some, if◌then◌else◌, if_either, ltb, length, All, arith, get_elem?,
  append-nil, length-append,
}
use libtabula.Prelude.Int.{pos, negsuc}
use libtabula.Prelude.Bytes.{Text, text_eq, text_eq_refl, text_eq→eq}
use libtabula.Rows.{
  lower, index_from, field_index, Row, place, Access, value, empty_value, bad_index, bad_field_name,
  names_place, size, element, at, field_num, by_place, at_place, by_name,
}

-- The names that differ from one, whatever their case.
abbrev pub AllDiffer : Text → List Text → Type 0
AllDiffer low names = All (λ n. lower n ≢ low) names

-- A place with a name before which all others differ, or the end if all of them differ.
pub record Finding (names : List Text) (low : Text) (i : ℕ) : Type 0 where
  pub before : List Text
  pub after : List Text
  pub names_eq : names ≡ before ++ after
  pub place_eq : i ≡ length before
  pub differ : AllDiffer low before
  pub here : (after ≡ []) ⊎ ((n : Text) × (rest : List Text) × (after ≡ n ∷ rest) × (lower n ≡ low))

text_eq-false : (s t : Text) → text_eq s t ≡ false → s ≢ t
text_eq-false s t h e = absurd (cc (h, text_eq_refl t, ap (λ u. text_eq u t) e))

index_from-Finding : (low : Text) (names : List Text) → Finding names low (index_from low names)
unfolding index_from
index_from-Finding low [] = record {
  before = [];
  after = [];
  names_eq = refl;
  place_eq = refl;
  differ = tt;
  here = inl refl;
}
index_from-Finding low (n ∷ names) =
    if_either (λ i. Finding (n ∷ names) low i) (text_eq (lower n) low) 0
      (suc (index_from low names))
      (λ same. record {
        before = [];
        after = n ∷ names;
        names_eq = refl;
        place_eq = refl;
        differ = tt;
        here = inr (n, names, refl, text_eq→eq (lower n) low same);
      })
      (λ other.
        let f = index_from-Finding low names in
        record {
          before = n ∷ f.before;
          after = f.after;
          names_eq = ap (λ l. n ∷ l) f.names_eq;
          place_eq = ap suc f.place_eq;
          differ = (text_eq-false (lower n) low other, f.differ);
          here = f.here;
        })

-- The name of a field is looked up without regard to case: the first that is the same is found, and
-- the number of names is the answer if all of them differ.
pub field_index-Finding :
    (names : List Text) (s : Text) → Finding names (lower s) (field_index names s)
unfolding field_index
field_index-Finding names s = index_from-Finding (lower s) names

module _ {V : Type 0} where
  value_here : (vs : List V) (n : ℕ) → n < length vs → (v : V) × (get_elem? vs n ≡ some v)
  value_here [] n h = absurd (omega (arith, h))
  value_here (v ∷ vs) zero h = (v, refl)
  value_here (v ∷ vs) (suc n) h = value_here vs n (omega (arith, h))

  pub at-in :
      (r : Row V) (n : ℕ)
      → r.initialized ≡ true
      → n < length r.data_
      → (v : V) × ((get_elem? r.data_ n ≡ some v) × (at r n ≡ value v))
  unfolding at size element
  at-in r n on h =
      let (v, e) = value_here r.data_ n h in
      let sized : ltb n (length r.data_) ≡ true = ground (arith, h) in
      (v, (e, rw (on, sized, e) refl))

  pub at-out :
      (r : Row V) (n : ℕ)
      → r.initialized ≡ true
      → length r.data_ ≤ n
      → at r n ≡ bad_index n (length r.data_)
  unfolding at size
  at-out r n on h =
      let sized : ltb n (length r.data_) ≡ false = ground (arith, h) in rw (on, sized) refl

  -- What a row answers for a name: the value at the place of the first name that is the same, or that
  -- there is none.
  pub Answers : Row V → List Text → Text → Access V → Type 0
  Answers r names s a =
      (AllDiffer (lower s) names × (a ≡ (if r.throws then bad_field_name s else empty_value)))
      ⊎ ((i : ℕ) × (v : V) × (Finding names (lower s) i)
          × (i < length names)
          × (get_elem? r.data_ i ≡ some v)
          × (a ≡ value v))

  named :
      (r : Row V) (names : List Text) (s : Text)
      → r.field_names ≡ some names
      → by_name r s ≡ at_place r s (place (field_index names s))
  unfolding by_name field_num names_place
  named r names s h = rw h refl

  found :
      (r : Row V) (names : List Text) (s : Text) (i : ℕ)
      → r.initialized ≡ true
      → i < length r.data_
      → at_place r s (place i) ≡ at r i
  unfolding at_place size
  found r names s i on h =
      let sized : ltb i (length r.data_) ≡ true = ground (arith, h) in rw (on, sized) refl

  missing :
      (r : Row V) (s : Text) (i : ℕ)
      → r.initialized ≡ true
      → length r.data_ ≤ i
      → at_place r s (place i) ≡ (if r.throws then bad_field_name s else empty_value)
  unfolding at_place size
  missing r s i on h =
      let sized : ltb i (length r.data_) ≡ false = ground (arith, h) in rw (on, sized) refl

  at_place-Answers :
      (r : Row V) (names : List Text) (s : Text) (i : ℕ)
      → r.initialized ≡ true
      → length names ≡ length r.data_
      → Finding names (lower s) i
      → Answers r names s (at_place r s (place i))
  unfolding Answers
  at_place-Answers r names s i on many f = elim f.here [
    | inl none_left ↦
        let whole : names ≡ f.before =
          f.names_eq ∙ ap (λ l. f.before ++ l) none_left ∙ append-nil f.before in
        let end : length r.data_ ≤ i = omega (arith, many, f.place_eq, ap (λ l. length l) whole) in
        inl (subst (AllDiffer (lower s)) (sym whole) f.differ, missing r s i on end)
    | inr (n, rest, more, same) ↦
        let inside : i < length names = omega (
          arith,
          f.place_eq,
          ap (λ l. length l) (f.names_eq ∙ ap (λ l. f.before ++ l) more),
          length-append f.before (n ∷ rest),
        ) in
        let (v, (e, a)) = at-in r i on (omega (arith, inside, many)) in
        inr (i, v, f, inside, e, found r names s i on (omega (arith, inside, many)) ∙ a)
  ]

  -- A row with as many values as field names answers a name with the value at the place of the first
  -- field whose name is the same but for case. If no field has the name, it throws BadFieldName or,
  -- without exceptions, answers with the empty value; it never throws BadIndex.
  pub by_name-Answers :
      (r : Row V) (names : List Text) (s : Text)
      → r.initialized ≡ true
      → r.field_names ≡ some names
      → length names ≡ length r.data_
      → Answers r names s (by_name r s)
  by_name-Answers r names s on h many =
      subst (Answers r names s) (sym (named r names s h))
        (at_place-Answers r names s (field_index names s) on many (field_index-Finding names s))

  -- A row answers a place from zero on that has a value with this value, any other one with BadIndex,
  -- as it does a place below zero, which the cast makes a place far behind the last.
  pub by_place-bounds :
      (r : Row V) (n : ℕ)
      → r.initialized ≡ true
      → length r.data_ < 2 ^ 63
      → n < 2 ^ 31
      → (n < length r.data_
          → (v : V) × ((get_elem? r.data_ n ≡ some v) × (by_place r (pos n) ≡ value v)))
        × ((length r.data_ ≤ n → by_place r (pos n) ≡ bad_index n (length r.data_))
            × (by_place r (negsuc n) ≡ bad_index (2 ^ 64 - suc n) (length r.data_)))
  unfolding by_place
  by_place-bounds r n on short int =
      (at-in r n on, (at-out r n on, at-out r (2 ^ 64 - suc n) on (omega (arith, short, int))))
