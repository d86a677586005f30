-- ===== src/Query/Parse/Wide.antt =====
-- Positions that do not fit the signed char that holds them.
use libtabula.Prelude.{
  ℕ, ◌-◌, ◌%◌, ◌<◌, ◌≤◌, ◌≡◌, refl, false, [], ◌∷◌, ◌++◌, none, some, ◌==◌, ◌||◌, arith, ◌∙◌, ap,
}
use libtabula.Prelude.Int.{negsuc}
use libtabula.Prelude.Bytes.{Text}
use libtabula.Query.Parse.{
  Template, undefined, go_on, to_schar, named, maybe_named, add_elem, parse, c_str,
}
use libtabula.Query.Parse.Fuel.{parse_from, parse-parse_from}
use libtabula.Query.Parse.Print.{double_percent, slot_text, starts_by}
use libtabula.Query.Parse.RoundTrip.{slot_of, parse_from-double_percent, parse_from-param}

-- The positions 128 to 255, 384 to 511 and so on.
abbrev pub IsWide : ℕ → Type 0
IsWide n = (n < 1000) × (128 ≤ n % 256)

to_schar_wide : (n : ℕ) → IsWide n → to_schar n ≡ negsuc (255 - n % 256)
unfolding to_schar
to_schar_wide n h = ground arith

-- A template whose first parameter has a position that does not fit a signed char and a name makes
-- the parser write in front of its vector of names.
pub parse_wide_named :
    (before name rest : Text) (position : ℕ) (t : Template)
    → let text = double_percent before ++ slot_text (slot_of before position 32 (some name)) rest in
      IsWide position → c_str text ≡ text → parse text t ≡ undefined
unfolding maybe_named named
parse_wide_named before name rest position t wide whole =
    let slot = slot_of before position 32 (some name) in
    parse-parse_from _ t
    ∙ ap (λ s. parse_from [] s t) whole
    ∙ parse_from-double_percent [] before (slot_text slot rest) t
    ∙ parse_from-param slot rest t wide.0 refl (λ _. refl)
    ∙ rw (to_schar_wide position wide)

-- Without a name the parameter gets the negative number that marks the end of a template, so that
-- an expansion skips it.
pub parse_wide_unnamed :
    (before rest : Text) (position : ℕ) (t : Template)
    → let text = double_percent before ++ slot_text (slot_of before position 32 none) rest in
      IsWide position
      → starts_by (λ c. c == b':' || (c == b'q' || c == b'Q')) rest ≡ false
      → c_str text ≡ text
      → parse text t
        ≡ parse_from [] rest (record t {
          elems =
              t.elems
              ++ record { before = before; option = 32; num = negsuc (255 - position % 256) } ∷ [];
        })
unfolding maybe_named add_elem
parse_wide_unnamed before rest position t wide plain whole =
    let slot = slot_of before position 32 none in
    parse-parse_from _ t
    ∙ ap (λ s. parse_from [] s t) whole
    ∙ parse_from-double_percent [] before (slot_text slot rest) t
    ∙ parse_from-param slot rest t wide.0 refl (λ _. not_option rest plain)
    ∙ rw (to_schar_wide position wide) (skip rest plain)
  where
    not_option :
        (s : Text)
        → starts_by (λ c. c == b':' || (c == b'q' || c == b'Q')) s ≡ false
        → starts_by (λ c. c == b'q' || c == b'Q') s ≡ false
    not_option [] h = refl
    not_option (c ∷ s) h = ground arith

    skip :
        (s : Text)
        → starts_by (λ c. c == b':' || (c == b'q' || c == b'Q')) s ≡ false
        → go_on parse_from (maybe_named before 32 (negsuc (255 - position % 256)) s t)
          ≡ parse_from [] s (record t {
            elems =
                t.elems
                ++ record { before = before; option = 32; num = negsuc (255 - position % 256) }
                  ∷ [];
          })
    skip [] h = refl
    skip (c ∷ s) h = let no : (c == b':') ≡ false = ground arith in rw no
