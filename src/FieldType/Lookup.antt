-- ===== src/FieldType/Lookup.antt =====
-- What the look-up of a type finds.
use libtabula.Prelude.{
  ℕ, ◌≡◌, Bool, true, false, ◌&&◌, ◌||◌, List, [], ◌∷◌, Option, none, some, ◌==◌, All, false≢true,
  sym, Bool-cases, inl, inr, arith,
}
use libtabula.Adapter.{Base}
use libtabula.FieldType.{Annotated, covers, same_base, if_best, look_up, annotate, types, base_code}

-- A candidate for a type: the same base, and the same flags or some of them.
abbrev pub fits : Base → ℕ → Annotated → Bool
fits b flags cand = same_base b cand && (flags == cand.flags || covers flags cand.flags)

-- What is found fits, if there is something; there is nothing only if no candidate fits.
abbrev pub Found : Base → ℕ → List Annotated → Option Annotated → Type 0
Found b flags cands none = All (λ c. fits b flags c ≡ false) cands
Found b flags cands (some c) = fits b flags c ≡ true

Found-cons :
    (b : Base) (flags : ℕ) (c : Annotated) (cands : List Annotated) (o : Option Annotated)
    → fits b flags c ≡ false
    → Found b flags cands o
    → Found b flags (c ∷ cands) o
Found-cons b flags c cands none no_fit h = (no_fit, h)
Found-cons b flags c cands (some d) no_fit h = h

abbrev Got : Base → ℕ → Option Annotated → Type 0
Got b flags none = true ≡ false
Got b flags (some c) = fits b flags c ≡ true

Got-if_best :
    (b : Base) (flags : ℕ) (best : Bool) (c : Annotated) (later : Option Annotated)
    → fits b flags c ≡ true
    → Got b flags later
    → Got b flags (if_best best c later)
unfolding if_best
Got-if_best b flags true c later f h = f
Got-if_best b flags false c later f h = h

Got-Found :
    (b : Base) (flags : ℕ) (cands : List Annotated) (o : Option Annotated)
    → Got b flags o
    → Found b flags cands o
Got-Found b flags cands none h = absurd (false≢true (sym h))
Got-Found b flags cands (some c) h = h

-- From a guess that fits, something is found, and it fits.
look_up-some :
    (b : Base) (flags : ℕ) (cands : List Annotated) (guess : Annotated)
    → fits b flags guess ≡ true
    → Got b flags (look_up b flags cands (some guess))
unfolding look_up
look_up-some b flags [] guess h = h
look_up-some b flags (c ∷ cands) guess h =
    let kept = look_up-some b flags cands guess h in
    let taken : fits b flags c ≡ true → Got b flags (look_up b flags cands (some c)) =
      λ f. look_up-some b flags cands c f in
    elim (Bool-cases (same_base b c)) [
      | inr other ↦ rw other kept
      | inl same ↦ elim (Bool-cases (flags == c.flags)) [
        | inl exact ↦
            let f : fits b flags c ≡ true = ground (arith, same, exact) in
            rw (same, exact) (Got-if_best b flags c.best_guess c _ f (taken f))
        | inr inexact ↦ elim (Bool-cases (covers flags c.flags)) [
          | inl some_flags ↦
              rw (same, inexact, some_flags) (taken (ground (arith, same, some_flags)))
          | inr no_fit ↦ rw (same, inexact, no_fit) kept
        ]
      ]
    ]

look_up-none :
    (b : Base) (flags : ℕ) (cands : List Annotated)
    → Found b flags cands (look_up b flags cands none)
unfolding look_up
look_up-none b flags [] = tt
look_up-none b flags (c ∷ cands) =
    let kept : fits b flags c ≡ false → Found b flags (c ∷ cands) (look_up b flags cands none) =
      λ f. Found-cons b flags c cands _ f (look_up-none b flags cands) in
    let taken : fits b flags c ≡ true → Got b flags (look_up b flags cands (some c)) =
      λ f. look_up-some b flags cands c f in
    elim (Bool-cases (same_base b c)) [
      | inr other ↦ rw other (kept (ground (arith, other)))
      | inl same ↦ elim (Bool-cases (flags == c.flags)) [
        | inl exact ↦
            let f : fits b flags c ≡ true = ground (arith, same, exact) in
            rw (same, exact)
              (Got-Found b flags (c ∷ cands) _ (Got-if_best b flags c.best_guess c _ f (taken f)))
        | inr inexact ↦ elim (Bool-cases (covers flags c.flags)) [
          | inl some_flags ↦
              rw (same, inexact, some_flags)
                (Got-Found b flags (c ∷ cands) _ (taken (ground (arith, same, some_flags))))
          | inr no_fit ↦ rw (same, inexact, no_fit) (kept (ground (arith, same, inexact, no_fit)))
        ]
      ]
    ]

-- annotate() of a type that is not ft_unsupported finds an entry of the table with the same base
-- whose flags are the type's or some of them, and fails only if the table has no such entry.
pub annotate-Found :
    (b : Base) (flags : ℕ) → (base_code b == 0) ≡ false → Found b flags types (annotate b flags)
unfolding annotate
annotate-Found b flags supported = rw supported (look_up-none b flags types)
