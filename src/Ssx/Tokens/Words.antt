-- ===== src/Ssx/Tokens/Words.antt =====
-- What tokenize() finds.
use libtabula.Prelude.{
  ℕ, zero, suc, ◌≤◌, ◌≡◌, refl, subst, length-append, ap, ◌∙◌, false, List, [], ◌∷◌, ◌++◌, arith,
  length, All, Bool-cases, inl, inr, if◌then◌else◌, append-nil,
}
use libtabula.Prelude.Bytes.{Text, is_space}
use libtabula.Ssx.Tokens.{part, behind, skip, parts, tokenize}

-- A text that is not empty and has no white space.
abbrev pub IsWord : Text → Type 0
IsWord s = (1 ≤ length s) × All (λ c. is_space c ≡ false) s

-- A text without its white space, and the texts of a list one behind the other.
abbrev pub without_space : Text → Text
without_space [] = []
without_space (c ∷ s) = if is_space c then without_space s else c ∷ without_space s

abbrev pub concat : List Text → Text
concat [] = []
concat (s ∷ l) = s ++ concat l

-- The words of a list, each one behind a space.
abbrev pub spaced : List Text → Text
spaced [] = []
spaced (s ∷ l) = 32 ∷ (s ++ spaced l)

length-skip : (s : Text) → length (skip is_space s) ≤ length s
unfolding skip
length-skip [] = omega arith
length-skip (c ∷ s) = ground (arith, length-skip s)

length-behind : (s : Text) → length (behind is_space s) ≤ length s
unfolding behind
length-behind [] = omega arith
length-behind (c ∷ s) = ground (arith, length-behind s)

skip-without_space : (s : Text) → without_space (skip is_space s) ≡ without_space s
unfolding skip
skip-without_space [] = refl
skip-without_space (c ∷ s) = elim (Bool-cases (is_space c)) [
  | inl space ↦ rw space (skip-without_space s)
  | inr other ↦ rw (other, other)
]

part-behind : (s : Text) → part is_space s ++ without_space (behind is_space s) ≡ without_space s
unfolding part behind
part-behind [] = refl
part-behind (c ∷ s) = elim (Bool-cases (is_space c)) [
  | inl space ↦ rw (space, space)
  | inr other ↦ rw other (ap (λ t. c ∷ t) (part-behind s))
]

part-All : (s : Text) → All (λ c. is_space c ≡ false) (part is_space s)
unfolding part
part-All [] = tt
part-All (c ∷ s) = elim (Bool-cases (is_space c)) [
  | inl space ↦ rw space tt
  | inr other ↦ rw other (other, part-All s)
]

-- A text that does not start with white space.
abbrev IsTrimmed : Text → Type 0
IsTrimmed [] = Unit
IsTrimmed (c ∷ s) = is_space c ≡ false

skip-IsTrimmed : (s : Text) → IsTrimmed (skip is_space s)
unfolding skip
skip-IsTrimmed [] = tt
skip-IsTrimmed (c ∷ s) = elim (Bool-cases (is_space c)) [
  | inl space ↦ rw space (skip-IsTrimmed s)
  | inr other ↦ rw other other
]

part_one : (c : ℕ) (s : Text) → is_space c ≡ false → 1 ≤ length (part is_space (c ∷ s))
unfolding part
part_one c s h = rw h (omega arith)

length-behind_word :
    (c : ℕ) (s : Text) → is_space c ≡ false → length (behind is_space (c ∷ s)) ≤ length s
unfolding behind
length-behind_word c s h = rw h (length-behind s)

parts-IsWord : (fuel : ℕ) (s : Text) → IsTrimmed s → All IsWord (parts is_space fuel s)
unfolding parts
parts-IsWord zero s h = tt
parts-IsWord (suc fuel) [] h = tt
parts-IsWord (suc fuel) (c ∷ s) h =
    let rest = behind is_space (c ∷ s) in
    (
      (part_one c s h, part-All (c ∷ s)),
      parts-IsWord fuel (skip is_space rest) (skip-IsTrimmed rest),
    )

concat-parts :
    (fuel : ℕ) (s : Text)
    → IsTrimmed s
    → length s ≤ fuel
    → concat (parts is_space fuel s) ≡ without_space s
unfolding parts
concat-parts zero [] t h = refl
concat-parts zero (c ∷ s) t h = absurd (omega arith)
concat-parts (suc fuel) [] t h = refl
concat-parts (suc fuel) (c ∷ s) t h =
    let rest = behind is_space (c ∷ s) in
    let short : length (skip is_space rest) ≤ fuel =
      omega (arith, length-skip rest, length-behind_word c s t) in
    ap (λ l. part is_space (c ∷ s) ++ l)
      (concat-parts fuel (skip is_space rest) (skip-IsTrimmed rest) short)
    ∙ ap (λ l. part is_space (c ∷ s) ++ l) (skip-without_space rest)
    ∙ part-behind (c ∷ s)

-- Each token is a word, not empty and without white space, and the tokens one behind the other are
-- the line without its white space.
pub tokenize-IsWord :
    (line : Text) → All IsWord (tokenize line) × (concat (tokenize line) ≡ without_space line)
unfolding tokenize
tokenize-IsWord line =
    let rest = skip is_space line in
    (
      parts-IsWord (length line) rest (skip-IsTrimmed line),
      concat-parts (length line) rest (skip-IsTrimmed line) (length-skip line)
          ∙ skip-without_space line,
    )

part-append : (w rest : Text) → All (λ c. is_space c ≡ false) w → part is_space (w ++ 32 ∷ rest) ≡ w
unfolding part is_space
part-append [] rest h = refl
part-append (c ∷ w) rest h = rw (h.0) (ap (λ t. c ∷ t) (part-append w rest h.1))

part_all : (w : Text) → All (λ c. is_space c ≡ false) w → part is_space w ≡ w
unfolding part
part_all [] h = refl
part_all (c ∷ w) h = rw (h.0) (ap (λ t. c ∷ t) (part_all w h.1))

behind-append :
    (w rest : Text) → All (λ c. is_space c ≡ false) w → behind is_space (w ++ 32 ∷ rest) ≡ 32 ∷ rest
unfolding behind is_space
behind-append [] rest h = refl
behind-append (c ∷ w) rest h = rw (h.0) (behind-append w rest h.1)

behind_all : (w : Text) → All (λ c. is_space c ≡ false) w → behind is_space w ≡ []
unfolding behind
behind_all [] h = refl
behind_all (c ∷ w) h = rw (h.0) (behind_all w h.1)

part-spaced : (w : Text) (l : List Text) → IsWord w → part is_space (w ++ spaced l) ≡ w
part-spaced w [] h = ap (part is_space) (append-nil w) ∙ part_all w h.1
part-spaced w (v ∷ l) h = part-append w (v ++ spaced l) h.1

behind-spaced : (w : Text) (l : List Text) → IsWord w → behind is_space (w ++ spaced l) ≡ spaced l
behind-spaced w [] h = ap (behind is_space) (append-nil w) ∙ behind_all w h.1
behind-spaced w (v ∷ l) h = behind-append w (v ++ spaced l) h.1

skip-word : (w : Text) (l : List Text) → IsWord w → skip is_space (w ++ spaced l) ≡ w ++ spaced l
unfolding skip
skip-word [] l h = absurd (omega (arith, h.0))
skip-word (c ∷ w) l h = rw (h.1.0)

skip-spaced : (w : Text) (l : List Text) → IsWord w → skip is_space (spaced (w ∷ l)) ≡ w ++ spaced l
unfolding skip is_space
skip-spaced w l h = skip-word w l h

parts_step :
    (fuel : ℕ) (w : Text) (l : List Text)
    → IsWord w
    → parts is_space (suc fuel) (w ++ spaced l) ≡ w ∷ parts is_space fuel (skip is_space (spaced l))
unfolding parts
parts_step fuel [] l h = absurd (omega (arith, h.0))
parts_step fuel (c ∷ w) l h = rw (part-spaced (c ∷ w) l h, behind-spaced (c ∷ w) l h)

parts_nil : (fuel : ℕ) → parts is_space fuel [] ≡ []
unfolding parts
parts_nil zero = refl
parts_nil (suc fuel) = refl

parts-words :
    (fuel : ℕ) (w : Text) (l : List Text)
    → All IsWord (w ∷ l)
    → length (w ++ spaced l) ≤ fuel
    → parts is_space fuel (w ++ spaced l) ≡ w ∷ l
unfolding skip
parts-words zero w l h k = absurd (omega (arith, h.0.0, length-append w (spaced l)))
parts-words (suc fuel) w [] h k = parts_step fuel w [] h.0 ∙ ap (λ r. w ∷ r) (parts_nil fuel)
parts-words (suc fuel) w (v ∷ l) h k =
    let shorter : length (v ++ spaced l) ≤ fuel =
      omega (arith, h.0.0, length-append w (spaced (v ∷ l))) in
    parts_step fuel w (v ∷ l) h.0
    ∙ ap (λ s. w ∷ parts is_space fuel s) (skip-spaced v l h.1.0)
    ∙ ap (λ r. w ∷ r) (parts-words fuel v l h.1 shorter)

tokenize_words :
    (line w : Text) (l : List Text)
    → All IsWord (w ∷ l)
    → skip is_space line ≡ w ++ spaced l
    → tokenize line ≡ w ∷ l
unfolding tokenize
tokenize_words line w l h e =
    ap (parts is_space (length line)) e
    ∙ parts-words (length line) w l h (subst (λ s. length s ≤ length line) e (length-skip line))

-- Words that are printed one behind the other with a space between them, with or without a tab
-- before the first one, are the tokens of that line.
pub tokenize-spaced :
    (w : Text) (l : List Text)
    → All IsWord (w ∷ l)
    → (tokenize (w ++ spaced l) ≡ w ∷ l) × (tokenize (9 ∷ (w ++ spaced l)) ≡ w ∷ l)
unfolding skip is_space
tokenize-spaced w l h = (
  tokenize_words (w ++ spaced l) w l h (skip-word w l h.0),
  tokenize_words (9 ∷ (w ++ spaced l)) w l h (skip-word w l h.0),
)
