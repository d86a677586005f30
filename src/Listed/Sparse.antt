-- ===== src/Listed/Sparse.antt =====
-- Lists of which some values are left out.
use libtabula.Prelude.{
  ℕ, ◌+◌, ◌≡◌, ◌≤◌, ◌<◌, refl, sym, ap, subst, ◌∙◌, Bool, true, false, List, [], ◌∷◌, ◌++◌, Option,
  none, some, if◌then◌else◌, length, ◌==◌, arith, ◌>>=◌, append-nil, leb, Bool-cases, inl, inr, ◌-◌,
}
use libtabula.Prelude.Bytes.{Text}
use libtabula.Listed.{
  value_list_from, value_list, next_delim, show_if, value_list_b_from, value_list_b, push_flags,
  create_vector,
}

-- The values whose flags are set.
abbrev pub selected : {A : Type 0} → List Bool → List A → List A
selected {A} [] l = []
selected {A} (f ∷ fs) [] = []
selected {A} (true ∷ fs) (a ∷ l) = a ∷ selected fs l
selected {A} (false ∷ fs) (a ∷ l) = selected fs l

module _ {A : Type 0} (show : A → Text) (delim : Text) where
  -- Each value behind a delimiter.
  abbrev pub led : List A → Text
  led [] = []
  led (a ∷ l) = delim ++ (show a ++ led l)

  value_list_from-led : (a : A) (l : List A) → value_list_from show delim a l ≡ show a ++ led l
  unfolding value_list_from
  value_list_from-led a [] = sym (append-nil (show a))
  value_list_from-led a (b ∷ l) = ap (λ s. show a ++ (delim ++ s)) (value_list_from-led b l)

  selected-nil : (fs : List Bool) → selected {A = A} fs [] ≡ []
  selected-nil [] = refl
  selected-nil (f ∷ fs) = refl

  from-led :
      (f : Bool) (fs : List Bool) (a : A) (l : List A)
      → length l ≤ length fs
      → value_list_b_from show delim (f ∷ fs) a l
        ≡ some (show_if show delim f a ++ led (selected fs l))
  unfolding value_list_b_from show_if
  from-led f fs a [] h = ap some (
      sym (append-nil (show_if show delim f a))
      ∙ ap (λ m. show_if show delim f a ++ led m) (sym (selected-nil fs)))
  from-led f [] a (b ∷ l) h = absurd (omega (arith, h))
  from-led f (true ∷ fs) a (b ∷ l) h =
      ap (λ r. r >>= λ rest. some (show_if show delim f a ++ (delim ++ rest)))
        (from-led true fs b l (omega (arith, h)))
  from-led f (false ∷ fs) a (b ∷ l) h =
      ap (λ r. r >>= λ rest. some (show_if show delim f a ++ rest))
        (from-led false fs b l (omega (arith, h)))

  -- A list with a flag for each value: if the first flag is set, what is printed is the list of the
  -- values whose flags are set; if it is not, each of these values stands behind a delimiter, the
  -- first one, too.
  pub value_list_b-selected :
      (fs : List Bool) (a : A) (l : List A)
      → length l ≤ length fs
      → (value_list_b show delim (true ∷ fs) (a ∷ l) ≡ value_list show delim (a ∷ selected fs l))
        × (value_list_b show delim (false ∷ fs) (a ∷ l) ≡ some (led (selected fs l)))
  unfolding value_list_b value_list show_if
  value_list_b-selected fs a l h = (
    from-led true fs a l h ∙ ap some (sym (value_list_from-led a (selected fs l))),
    from-led false fs a l h,
  )

  -- With fewer flags than values, a flag is read that is not there.
  value_list_b_from-short :
      (f : Bool) (fs : List Bool) (a : A) (l : List A)
      → length fs < length l
      → value_list_b_from show delim (f ∷ fs) a l ≡ none
  unfolding value_list_b_from next_delim
  value_list_b_from-short f fs a [] h = absurd (omega (arith, h))
  value_list_b_from-short f [] a (b ∷ l) h = refl
  value_list_b_from-short f (g ∷ fs) a (b ∷ l) h =
      ap
        (λ r. next_delim show delim (some g) >>= λ d.
          r >>= λ rest. some (show_if show delim f a ++ (d ++ rest)))
        (value_list_b_from-short g fs b l (omega (arith, h)))
      ∙ no_rest g
    where
      no_rest :
          (g : Bool)
          → (next_delim show delim (some g) >>= λ d.
              none >>= λ rest. some (show_if show delim f a ++ (d ++ rest)))
            ≡ none
      no_rest true = refl
      no_rest false = refl

  length-push_flags :
      (k size : ℕ) (ts : List Bool)
      → k ≤ size
      → length (push_flags k size ts)
        ≡ (if leb (length ts) (size + 1 - k) then length ts else size + 1 - k)
  unfolding push_flags
  length-push_flags k size [] h = ground arith
  length-push_flags k size (t ∷ ts) h = elim (Bool-cases (size == k)) [
    | inl end ↦ rw end (ground arith)
    | inr more ↦ rw more (ground (arith, length-push_flags (k + 1) size ts))
  ]

  -- The flags of create_vector() for m + 1 values.
  create_vector-cons :
      (t : Bool) (ts : List Bool) (m : ℕ)
      → (gs : List Bool) × ((create_vector (m + 1) (t ∷ ts) ≡ t ∷ gs)
          × (length gs ≡ (if leb (length ts) m then length ts else m)))
  unfolding create_vector push_flags
  create_vector-cons t ts m = elim (Bool-cases (m + 1 == 1)) [
    | inl one ↦ ([], (rw one, ground arith))
    | inr more ↦
        (push_flags 2 (m + 1) ts, (rw more, ground (arith, length-push_flags 2 (m + 1) ts)))
  ]

  Long : ℕ → Option Text → Type 0
  Long n r = (n < 13 → (s : Text) × (r ≡ some s)) × (13 ≤ n → r ≡ none)

  with_flags :
      (t : Bool) (gs : List Bool) (a : A) (l : List A)
      → length gs ≡ (if leb 12 (length l) then 12 else length l)
      → Long (length l) (value_list_b_from show delim (t ∷ gs) a l)
  unfolding Long
  with_flags t gs a l h = (
    λ short. (
      show_if show delim t a ++ led (selected gs l),
      from-led t gs a l (ground (arith, h, short)),
    ),
    λ long. value_list_b_from-short t gs a l (ground (arith, h, long)),
  )

  -- The list that is made with the flags of create_vector(), for as many values as there are: all is
  -- well up to 13 values, and from 14 on a flag is read that is not there.
  pub value_list_b-create_vector :
      (t : Bool) (ts : List Bool) (a : A) (l : List A)
      → length ts ≡ 12
      → (length l < 13
          → (s : Text) × (value_list_b show delim (create_vector (length l + 1) (t ∷ ts)) (a ∷ l)
              ≡ some s))
        × (13 ≤ length l
            → value_list_b show delim (create_vector (length l + 1) (t ∷ ts)) (a ∷ l) ≡ none)
  unfolding value_list_b Long
  value_list_b-create_vector t ts a l h =
      let (gs, (same, many)) = create_vector-cons t ts (length l) in
      let twelve : length gs ≡ (if leb 12 (length l) then 12 else length l) =
        many ∙ ap (λ n. if leb n (length l) then n else length l) h in
      subst (λ fs. Long (length l) (value_list_b show delim fs (a ∷ l))) (sym same)
        (with_flags t gs a l twelve)
