-- ===== src/Sets/Lost.antt =====
-- What set2container() makes of the text of a set.
use libtabula.Prelude.{
  ℕ, ◌≡◌, ◌≢◌, refl, sym, ap, ◌∙◌, true, false, List, [], ◌∷◌, ◌++◌, ◌==◌, All, arith, append_assoc,
  append-nil, length,
}
use libtabula.Prelude.Bytes.{Text}
use libtabula.Sets.{final, next_temp, inserting, next_skip, set2container, print}

-- An element: it is not empty, and has no comma and no NUL.
pub record IsElement (t : Text) : Type 0 where
  pub first : ℕ
  pub rest : Text
  pub text_eq_cons : t ≡ first ∷ rest
  pub plain : All (λ c. (c ≢ 0) × (c ≢ b',')) t

-- All but the first character.
abbrev pub tail : Text → Text
tail [] = []
tail (c ∷ s) = s

-- The elements without their first characters; the last one counts only if something is left.
abbrev pub beheaded : List Text → List Text
beheaded [] = []
beheaded (t ∷ []) = final (tail t)
beheaded (t ∷ u ∷ l) = tail t ∷ beheaded (u ∷ l)

-- The elements with a comma and another character between them.
abbrev pub print_wide : ℕ → List Text → Text
print_wide c [] = []
print_wide c (t ∷ []) = t
print_wide c (t ∷ u ∷ l) = t ++ (b',' ∷ c ∷ print_wide c (u ∷ l))

taken :
    (temp t s : Text)
    → All (λ c. (c ≢ 0) × (c ≢ b',')) t
    → set2container false temp (t ++ s) ≡ set2container false (temp ++ t) s
unfolding set2container next_temp inserting next_skip
taken temp [] s h = ap (λ u. set2container false u s) (sym (append-nil temp))
taken temp (c ∷ t) s ((no_nul, no_comma), h) =
    let nul : (c == 0) ≡ false = ground (arith, no_nul) in
    let comma : (c == b',') ≡ false = ground (arith, no_comma) in
    rw (nul, comma)
      (taken (temp ++ c ∷ []) t s h
        ∙ ap (λ u. set2container false u s) (append_assoc temp (c ∷ []) t))

-- Behind a comma, the first character of an element is passed over.
behind_comma :
    (t s : Text) → IsElement t → set2container true [] (t ++ s) ≡ set2container false (tail t) s
unfolding set2container next_temp inserting next_skip
behind_comma [] s e = absurd (omega (arith, ap (λ l. length l) e.text_eq_cons))
behind_comma (c ∷ t) s e =
    let nul : (c == 0) ≡ false = ground (arith, e.plain.0.0) in rw nul (taken [] t s e.plain.1)

at_comma : (temp s : Text) → set2container false temp (b',' ∷ s) ≡ temp ∷ set2container true [] s
unfolding set2container next_temp inserting next_skip
at_comma temp s = refl

alone : (temp : Text) → set2container false temp [] ≡ final temp
unfolding set2container
alone temp = refl

later :
    (t : Text) (l : List Text)
    → All IsElement (t ∷ l)
    → set2container true [] (print (t ∷ l)) ≡ beheaded (t ∷ l)
unfolding print
later t [] (e, h) =
    ap (set2container true []) (sym (append-nil t)) ∙ behind_comma t [] e ∙ alone (tail t)
later t (u ∷ l) (e, h) =
    behind_comma t (b',' ∷ print (u ∷ l)) e
    ∙ at_comma (tail t) (print (u ∷ l))
    ∙ ap (λ r. tail t ∷ r) (later u l h)

final-element : (t : Text) → IsElement t → final t ≡ t ∷ []
unfolding final
final-element [] e = absurd (omega (arith, ap (λ l. length l) e.text_eq_cons))
final-element (c ∷ t) e = refl

printed :
    (t : Text) (l : List Text)
    → All IsElement (t ∷ l)
    → set2container false [] (print (t ∷ l)) ≡ t ∷ beheaded l
unfolding print
printed t [] (e, h) =
    ap (set2container false []) (sym (append-nil t))
    ∙ taken [] t [] e.plain
    ∙ alone t
    ∙ final-element t e
printed t (u ∷ l) (e, h) =
    taken [] t (b',' ∷ print (u ∷ l)) e.plain
    ∙ at_comma t (print (u ∷ l))
    ∙ ap (λ r. t ∷ r) (later u l h)

passed_over : (c : ℕ) (s : Text) → c ≢ 0 → set2container true [] (c ∷ s) ≡ set2container false [] s
unfolding set2container next_temp inserting next_skip
passed_over c s h = let nul : (c == 0) ≡ false = ground (arith, h) in rw nul refl

wide :
    (c : ℕ) (t : Text) (l : List Text)
    → c ≢ 0
    → All IsElement (t ∷ l)
    → set2container false [] (print_wide c (t ∷ l)) ≡ t ∷ l
wide c t [] h (e, k) =
    ap (set2container false []) (sym (append-nil t))
    ∙ taken [] t [] e.plain
    ∙ alone t
    ∙ final-element t e
wide c t (u ∷ l) h (e, k) =
    taken [] t (b',' ∷ c ∷ print_wide c (u ∷ l)) e.plain
    ∙ at_comma t (c ∷ print_wide c (u ∷ l))
    ∙ ap (λ r. t ∷ r) (passed_over c (print_wide c (u ∷ l)) h ∙ wide c u l h k)

-- Elements without commas and NULs that are not empty are all read back if a comma and one more
-- character part them. Of the text that a set prints, where there is the comma only, each element but
-- the first is read without its first character, and the last one is not read at all if it has no
-- other.
pub set2container-print :
    (c : ℕ) (t : Text) (l : List Text)
    → c ≢ 0
    → All IsElement (t ∷ l)
    → (set2container false [] (print_wide c (t ∷ l)) ≡ t ∷ l)
      × (set2container false [] (print (t ∷ l)) ≡ t ∷ beheaded l)
set2container-print c t l h k = (wide c t l h k, printed t l k)
