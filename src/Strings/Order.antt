-- ===== src/Strings/Order.antt =====
-- What the comparisons of strings compare.
use libtabula.Prelude.{
  ℕ, zero, suc, ◌≡◌, ◌≢◌, ◌↔◌, ◌≤◌, ◌<◌, refl, sym, ap, ◌∙◌, true, false, [], ◌∷◌, none, some, ltb,
  leb, if◌then◌else◌, length, arith, false≢true, get_elem?,
}
use libtabula.Prelude.Bytes.{Text, before}
use libtabula.Strings.{
  String, Sign, below, same, above, strncmp, size, bytes_of, first_is_nul, compare_c, max,
  compare_string, is_same, equals, at, char_at, bad_index, char_of,
}

abbrev pub flip : Sign → Sign
flip below = above
flip same = same
flip above = below

strncmp-flip : (n : ℕ) (s t : Text) → strncmp n t s ≡ flip (strncmp n s t)
unfolding strncmp
strncmp-flip zero s t = refl
strncmp-flip (suc n) [] [] = refl
strncmp-flip (suc n) [] (d ∷ t) = ground arith
strncmp-flip (suc n) (c ∷ s) [] = ground arith
strncmp-flip (suc n) (c ∷ s) (d ∷ t) = ground (arith, strncmp-flip n s t)

-- The texts are the same up to their first NULs.
strncmp-before :
    (n : ℕ) (s t : Text)
    → length s ≤ n
    → length t ≤ n
    → (strncmp n s t ≡ same) ↔ (before 0 s ≡ before 0 t)
unfolding strncmp before
strncmp-before n [] [] h k = (λ e. refl, λ e. strncmp_nil n)
  where
    strncmp_nil : (n : ℕ) → strncmp n [] [] ≡ same
    strncmp_nil zero = refl
    strncmp_nil (suc n) = refl
strncmp-before zero [] (d ∷ t) h k = absurd (omega (arith, k))
strncmp-before zero (c ∷ s) t h k = absurd (omega (arith, h))
strncmp-before (suc n) [] (d ∷ t) h k = ground arith
strncmp-before (suc n) (c ∷ s) [] h k = ground arith
strncmp-before (suc n) (c ∷ s) (d ∷ t) h k =
    ground (arith, strncmp-before n s t (omega (arith, h)) (omega (arith, k)))

-- A string whose first character is not a NUL.
abbrev pub LeadsPlain : String → Type 0
LeadsPlain s = get_elem? (bytes_of s) 0 ≢ some 0

compare_string-strncmp :
    (s t : String)
    → LeadsPlain s
    → compare_string s t ≡ strncmp (max (size s) (size t)) (bytes_of s) (bytes_of t)
unfolding compare_string compare_c size strncmp
compare_string-strncmp (some b) (some c) h = refl
compare_string-strncmp none (some c) h = against c.bytes
  where
    against :
        (t : Text) → (if first_is_nul t then same else below) ≡ strncmp (max 0 (length t)) [] t
    against [] = refl
    against (d ∷ t) = ground arith
compare_string-strncmp none none h = refl
compare_string-strncmp (some b) none h = alone b.bytes h
  where
    alone :
        (s : Text)
        → get_elem? s 0 ≢ some 0
        → (if ltb 0 (length s) then above else same) ≡ strncmp (max (length s) 0) s []
    alone [] h = refl
    alone (c ∷ s) h = ground (arith, h)

is_same-same : (x : Sign) → (is_same x ≡ true) ↔ (x ≡ same)
is_same-same below = (λ e. absurd (false≢true e), λ e. ap is_same e)
is_same-same same = (λ e. refl, λ e. refl)
is_same-same above = (λ e. absurd (false≢true e), λ e. ap is_same e)

size-length : (s : String) → size s ≡ length (bytes_of s)
unfolding size
size-length none = refl
size-length (some b) = refl

-- Strings that do not start with a NUL are equal exactly if they have the same characters up to their
-- first NULs, a string without a buffer being an empty one; and comparing them the other way round
-- gives the opposite sign.
pub equals-before :
    (s t : String)
    → LeadsPlain s
    → LeadsPlain t
    → ((equals s t ≡ true) ↔ (before 0 (bytes_of s) ≡ before 0 (bytes_of t)))
      × (compare_string t s ≡ flip (compare_string s t))
unfolding equals
equals-before s t h k =
    let n = max (size s) (size t) in
    let long_s : length (bytes_of s) ≤ n = ground (arith, size-length s) in
    let long_t : length (bytes_of t) ≤ n = ground (arith, size-length t) in
    let (to, from) = strncmp-before n (bytes_of s) (bytes_of t) long_s long_t in
    let same_iff = is_same-same (compare_string s t) in
    let same_as = compare_string-strncmp s t h in
    let swapped : max (size t) (size s) ≡ n = ground arith in
    (
      (λ e. to (sym same_as ∙ same_iff.0 e), λ e. same_iff.1 (same_as ∙ from e)),
      compare_string-strncmp t s k
          ∙ ap (λ m. strncmp m (bytes_of t) (bytes_of s)) swapped
          ∙ strncmp-flip n (bytes_of s) (bytes_of t)
          ∙ ap flip (sym same_as),
    )

elements : (s : Text) (i : ℕ) → i < length s → (c : ℕ) × (get_elem? s i ≡ some c)
elements [] i h = absurd (omega (arith, h))
elements (c ∷ s) zero h = (c, refl)
elements (c ∷ s) (suc i) h = elements s i (omega (arith, h))

-- A position is answered with its character if the string has one there, and with BadIndex, the
-- position and the size otherwise.
pub at-bounds :
    (s : String) (pos : ℕ)
    → (pos < size s → (c : ℕ) × ((get_elem? (bytes_of s) pos ≡ some c) × (at s pos ≡ char_at c)))
      × (size s ≤ pos → at s pos ≡ bad_index pos (size s))
unfolding at char_of
at-bounds s pos = (
  λ h.
      let (c, e) = elements (bytes_of s) pos (omega (arith, h, size-length s)) in
      let inside : leb (size s) pos ≡ false = ground (arith, h) in (c, (e, rw (inside, e) refl)),
  λ h. let outside : leb (size s) pos ≡ true = ground (arith, h) in rw outside refl,
)
