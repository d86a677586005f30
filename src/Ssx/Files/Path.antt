-- ===== src/Ssx/Files/Path.antt =====
-- The search path of included files.
use libtabula.Prelude.{
  ◌≡◌, refl, sym, ap, ◌∙◌, false, List, [], ◌∷◌, ◌++◌, ◌⊎◌, inl, inr, Option, none, some,
  Bool-cases, Option-cases, arith, false≢true,
}
use libtabula.Prelude.Bytes.{Text, text_eq, text_eq→eq, text_eq_refl, codes}
use libtabula.Ssx.Tokens.{split_path}
use libtabula.Ssx.Paths.{
  in_directory, mem_text, add_once, add_parts, directory_of, add_directory_to_search_path, open_any,
  search,
}

-- No directory stands in the list twice.
abbrev pub Distinct : List Text → Type 0
Distinct [] = Unit
Distinct (s ∷ l) = (mem_text s l ≡ false) × Distinct l

mem_text-append :
    (s t : Text) (l : List Text)
    → mem_text s l ≡ false
    → text_eq t s ≡ false
    → mem_text s (l ++ t ∷ []) ≡ false
unfolding mem_text
mem_text-append s t [] h k = rw k
mem_text-append s t (u ∷ l) h k = ground (arith, mem_text-append s t l)

text_eq-false : (s t : Text) → text_eq s t ≡ false → text_eq t s ≡ false
text_eq-false s t h = elim (Bool-cases (text_eq t s)) [
  | inl same ↦
      let e : t ≡ s = text_eq→eq t s same in
      absurd (false≢true (sym h ∙ ap (text_eq s) e ∙ text_eq_refl s))
  | inr other ↦ other
]

mem_text-head :
    (s u : Text) (l : List Text)
    → mem_text s (u ∷ l) ≡ false
    → (text_eq u s ≡ false) × (mem_text s l ≡ false)
unfolding mem_text
mem_text-head s u l h = (ground arith, ground arith)

Distinct-append :
    (d : Text) (l : List Text) → Distinct l → mem_text d l ≡ false → Distinct (l ++ d ∷ [])
unfolding mem_text
Distinct-append d [] h k = (refl, tt)
Distinct-append d (u ∷ l) h k =
    let apart = mem_text-head d u l k in
    (mem_text-append u d l h.0 (text_eq-false u d apart.0), Distinct-append d l h.1 apart.1)

-- The list as it was, or with one more directory at its end.
abbrev pub Grown : List Text → List Text → Type 0
Grown before after =
    Distinct after
    × ((after ≡ before) ⊎ ((d : Text) × ((mem_text d before ≡ false) × (after ≡ before ++ d ∷ []))))

add_once-Grown : (d : Text) (l : List Text) → Distinct l → Grown l (add_once d l)
unfolding add_once
add_once-Grown d l h = elim (Bool-cases (mem_text d l)) [
  | inl there ↦ rw there (h, inl refl)
  | inr fresh ↦ rw fresh (Distinct-append d l h fresh, inr (d, (fresh, refl)))
]

add_parts-Grown : (ps l : List Text) → Distinct l → Grown l (add_parts ps l)
unfolding add_parts
add_parts-Grown [] l h = (h, inl refl)
add_parts-Grown (only ∷ []) l h = (h, inl refl)
add_parts-Grown (first ∷ last ∷ []) l h = elim (Bool-cases (text_eq first (codes "."))) [
  | inl dot ↦ rw dot (h, inl refl)
  | inr other ↦ rw other (add_once-Grown first l h)
]
add_parts-Grown (first ∷ next ∷ p ∷ more) l h =
    add_once-Grown (directory_of first (next ∷ p ∷ more)) l h

-- From a search path without repetitions, a file that is opened leaves one without repetitions: it
-- is the same, or has one new directory behind the others, whose order stays.
pub add_directory_to_search_path-Grown :
    (filepath : Text) (l : List Text)
    → Distinct l
    → Grown l (add_directory_to_search_path filepath l)
unfolding add_directory_to_search_path
add_directory_to_search_path-Grown filepath l h = add_parts-Grown (split_path filepath) l h

module _ (open_file : Text → Option (List Text)) where
  -- The names that are tried for a file.
  abbrev pub candidates : Text → List Text → List Text
  candidates name [] = []
  candidates name (d ∷ l) = in_directory d name ∷ candidates name l

  -- The file is one of the candidates, and none before that one can be opened.
  abbrev pub FirstOf : List Text → Option (List Text) → Type 0
  FirstOf [] found = found ≡ none
  FirstOf (c ∷ cs) found =
      ((open_file c ≡ none) × FirstOf cs found)
      ⊎ ((raws : List Text) × ((open_file c ≡ some raws) × (found ≡ some raws)))

  open_any-FirstOf :
      (name : Text) (l : List Text) → FirstOf (candidates name l) (open_any open_file name l)
  unfolding open_any
  open_any-FirstOf name [] = refl
  open_any-FirstOf name (d ∷ l) = elim (Option-cases (open_file (in_directory d name))) [
    | inl lost ↦ rw (lost) (inl (refl, open_any-FirstOf name l))
    | inr (raws, there) ↦ rw there (inr (raws, (refl, refl)))
  ]

  -- What the constructor of File reads is the first file that can be opened of the name itself and
  -- the name in each directory of the search path, in its order; it fails only if none can be opened.
  pub search-FirstOf :
      (name : Text) (l : List Text) → FirstOf (name ∷ candidates name l) (search open_file name l)
  unfolding search
  search-FirstOf name l = elim (Option-cases (open_file name)) [
    | inl lost ↦ rw (lost) (inl (refl, open_any-FirstOf name l))
    | inr (raws, there) ↦ rw there (inr (raws, (refl, refl)))
  ]
