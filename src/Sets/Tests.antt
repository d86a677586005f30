-- ===== src/Sets/Tests.antt =====
-- Tests of sets, and their theorem at a concrete input.
use libtabula.Prelude.{ℕ, ◌≡◌, ◌≢◌, refl, false, [], ◌∷◌, arith}
use libtabula.Prelude.Bytes.{codes, text_eq}
use libtabula.Sets.{
  set2container, print, of_text, insert_all, insert, final, next_temp, inserting, next_skip,
  text_lt,
}
use libtabula.Sets.Lost.{IsElement, set2container-print}

two_letters : (a b : ℕ) → a ≢ 0 → a ≢ b',' → b ≢ 0 → b ≢ b',' → IsElement (a ∷ b ∷ [])
two_letters a b h k m n = record {
  first = a;
  rest = b ∷ [];
  text_eq_cons = refl;
  plain = ((h, k), ((m, n), tt));
}

set2container-print_example :
    (set2container false [] (codes "ab, cd") ≡ codes "ab" ∷ codes "cd" ∷ [])
    × (set2container false [] (codes "ab,cd") ≡ codes "ab" ∷ codes "d" ∷ [])
unfolding print final
set2container-print_example =
    set2container-print 32 (codes "ab") (codes "cd" ∷ []) (λ e. absurd (omega (arith, e)))
      (
        two_letters b'a' b'b' (λ e. absurd (omega (arith, e))) (λ e. absurd (omega (arith, e)))
            (λ e. absurd (omega (arith, e))) (λ e. absurd (omega (arith, e))),
        (
          two_letters b'c' b'd' (λ e. absurd (omega (arith, e))) (λ e. absurd (omega (arith, e)))
              (λ e. absurd (omega (arith, e))) (λ e. absurd (omega (arith, e))),
          tt,
        ),
      )

-- The set is ordered and has each element once.
of_text_case : of_text (codes "b, a, b") ≡ codes "a" ∷ codes "b" ∷ []
unfolding of_text set2container insert_all insert final next_temp inserting next_skip text_lt
    text_eq
of_text_case = refl
