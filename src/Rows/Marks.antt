-- ===== src/Rows/Marks.antt =====
-- The flags that create_vector() makes of field names.
use libtabula.Prelude.{
  ℕ, zero, suc, ◌≡◌, ◌≢◌, ◌<◌, refl, sym, ap, ◌∙◌, Bool, true, false, ◌||◌, ◌&&◌, List, [], ◌∷◌,
  some, if◌then◌else◌, Bool-cases, inl, inr, ltb, ◌==◌, length, arith, get_elem?, set, length-set,
  false≢true, get_elem?-set_self, get_elem?-set_ne, replicate,
}
use libtabula.Prelude.Bytes.{Text}
use libtabula.Rows.{
  place, Flags, flags, past_end, set_flag, mark_more, create_by_names, field_index,
}

-- The names up to the first empty one.
abbrev pub until_empty : List Text → List Text
until_empty [] = []
until_empty ([] ∷ ss) = []
until_empty ((c ∷ s) ∷ ss) = (c ∷ s) ∷ until_empty ss

module _ (num : Text → ℕ) where
  -- Whether one of the names has a place.
  abbrev pub is_marked : ℕ → List Text → Bool
  is_marked i [] = false
  is_marked i (s ∷ ss) = (num s == i) || is_marked i ss

  -- Whether all names have places below a bound.
  abbrev pub all_known : ℕ → List Text → Bool
  all_known many [] = true
  all_known many (s ∷ ss) = ltb (num s) many && all_known many ss

  get_elem?-set :
      (v : List Bool) (k i : ℕ)
      → k < length v
      → get_elem? (set v k true) i ≡ (if k == i then some true else get_elem? v i)
  get_elem?-set v k i h = elim (Bool-cases (k == i)) [
    | inl same ↦
        let e : k ≡ i = ground (arith, same) in
        rw same (ap (λ j. get_elem? (set v k true) j) (sym e) ∙ get_elem?-set_self v k true h)
    | inr other ↦
        let e : k ≢ i = λ q. ground (arith, other, q) in rw other (get_elem?-set_ne v true e)
  ]

  -- The flags of names: those of `v`, and the flags of the places of the names are set; or, if a name
  -- has no place below `many`, a flag behind the last.
  unfoldable pub Marks : ℕ → List Text → List Bool → Flags → Type 0
  Marks many used v r =
      (all_known many used ≡ true
        → (w : List Bool) × ((r ≡ flags w)
            × ((length w ≡ many)
                × ((i : ℕ)
                    → get_elem? w i ≡ (if is_marked i used then some true else get_elem? v i)))))
      × (all_known many used ≡ false → r ≡ past_end)

  mark_more-past_end : (ss : List Text) → mark_more (λ s. place (num s)) ss past_end ≡ past_end
  unfolding mark_more
  mark_more-past_end [] = refl
  mark_more-past_end ([] ∷ ss) = refl
  mark_more-past_end ((c ∷ s) ∷ ss) = refl

  after_mark :
      (many k i : ℕ) (later : Bool) (v : List Bool)
      → k < length v
      → (if later then some true else get_elem? (set v k true) i)
        ≡ (if (k == i) || later then some true else get_elem? v i)
  after_mark many k i true v h = elim (Bool-cases (k == i)) [
    | inl same ↦ rw same refl
    | inr other ↦ rw other refl
  ]
  after_mark many k i false v h = get_elem?-set v k i h ∙ no_later (k == i)
    where
      no_later :
          (b : Bool)
          → (if b then some true else get_elem? v i)
            ≡ (if b || false then some true else get_elem? v i)
      no_later true = refl
      no_later false = refl

  step :
      (many : ℕ) (s : Text) (used : List Text) (v : List Bool) (next : Flags → Flags)
      → length v ≡ many
      → next past_end ≡ past_end
      → ((w : List Bool) → length w ≡ many → Marks many used w (next (flags w)))
      → Marks many (s ∷ used) v (next (set_flag (place (num s)) v))
  unfolding Marks set_flag
  step many s used v next size stays later = elim (Bool-cases (ltb (num s) many)) [
    | inl inside ↦
        let k : num s < length v = ground (arith, inside, size) in
        let inside_v : ltb (num s) (length v) ≡ true = ground (arith, k) in
        let (known, unknown) = later (set v (num s) true) (length-set v (num s) true ∙ size) in
        rw (inside_v, inside)
          (
            λ all.
                let (w, (e, (n, at))) = known all in
                (w, (e, (n, λ i. at i ∙ after_mark many (num s) i (is_marked i used) v k))),
            unknown,
          )
    | inr outside ↦
        let outside_v : ltb (num s) (length v) ≡ false = ground (arith, outside, size) in
        rw (outside_v, outside) (λ none_known. absurd (false≢true none_known), λ e. stays)
  ]

  mark_more-Marks :
      (many : ℕ) (ss : List Text) (v : List Bool)
      → length v ≡ many
      → Marks many (until_empty ss) v (mark_more (λ s. place (num s)) ss (flags v))
  unfolding mark_more Marks
  mark_more-Marks many [] v h =
      (λ all. (v, (refl, (h, λ i. refl))), λ e. absurd (false≢true (sym e)))
  mark_more-Marks many ([] ∷ ss) v h =
      (λ all. (v, (refl, (h, λ i. refl))), λ e. absurd (false≢true (sym e)))
  mark_more-Marks many ((c ∷ s) ∷ ss) v h =
      step many (c ∷ s) (until_empty ss) v (mark_more (λ s. place (num s)) ss) h
        (mark_more-past_end ss) (mark_more-Marks many ss)

length-replicate : (n : ℕ) → length (replicate n false) ≡ n
length-replicate zero = refl
length-replicate (suc n) = ap suc (length-replicate n)

-- The flags that create_vector() makes of field names, the first one and those up to an empty one, are
-- as many as there are fields, and those at the places of the names are set, the others not. If a
-- name is not the name of a field, a flag behind the last is set.
pub create_by_names-Marks :
    (names : List Text) (s0 : Text) (ss : List Text)
    → Marks
        (field_index names)
        (length names)
        (s0 ∷ until_empty ss)
        (replicate (length names) false)
        (create_by_names (λ s. place (field_index names s)) (length names) s0 ss)
unfolding create_by_names
create_by_names-Marks names s0 ss =
    step (field_index names) (length names) s0 (until_empty ss) (replicate (length names) false)
      (mark_more (λ s. place (field_index names s)) ss) (length-replicate (length names))
      (mark_more-past_end (field_index names) ss)
      (mark_more-Marks (field_index names) (length names) ss)
