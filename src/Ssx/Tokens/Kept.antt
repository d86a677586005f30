-- ===== src/Ssx/Tokens/Kept.antt =====
-- The characters of the parts that a text is split into are the text's.
use libtabula.Prelude.{ℕ, zero, suc, Bool, [], ◌∷◌, All, Bool-cases, inl, inr, length}
use libtabula.Prelude.Bytes.{Text, is_space}
use libtabula.Ssx.Tokens.{part, behind, skip, parts, tokenize}

module _ {κ} (P : ℕ → Type κ) (is_sep : ℕ → Bool) where
  part-All : (s : Text) → All P s → All P (part is_sep s)
  unfolding part
  part-All [] h = tt
  part-All (c ∷ s) h = elim (Bool-cases (is_sep c)) [
    | inl sep ↦ rw sep tt
    | inr other ↦ rw other (h.0, part-All s h.1)
  ]

  behind-All : (s : Text) → All P s → All P (behind is_sep s)
  unfolding behind
  behind-All [] h = tt
  behind-All (c ∷ s) h = elim (Bool-cases (is_sep c)) [
    | inl sep ↦ rw sep h
    | inr other ↦ rw other (behind-All s h.1)
  ]

  skip-All : (s : Text) → All P s → All P (skip is_sep s)
  unfolding skip
  skip-All [] h = tt
  skip-All (c ∷ s) h = elim (Bool-cases (is_sep c)) [
    | inl sep ↦ rw sep (skip-All s h.1)
    | inr other ↦ rw other h
  ]

  parts-All : (fuel : ℕ) (s : Text) → All P s → All (All P) (parts is_sep fuel s)
  unfolding parts
  parts-All zero s h = tt
  parts-All (suc fuel) [] h = tt
  parts-All (suc fuel) (c ∷ s) h = (
    part-All (c ∷ s) h,
    parts-All fuel (skip is_sep (behind is_sep (c ∷ s)))
        (skip-All (behind is_sep (c ∷ s)) (behind-All (c ∷ s) h)),
  )

pub tokenize-All {κ} : (P : ℕ → Type κ) (line : Text) → All P line → All (All P) (tokenize line)
unfolding tokenize
tokenize-All P line h =
    parts-All P is_space (length line) (skip is_space line) (skip-All P is_space line h)
