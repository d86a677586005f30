-- ===== src/Ssx/Files/OneLine.antt =====
-- A line that is generated, and what Line::parse() makes of its tokens.
use libtabula.Prelude.{
  ◌≡◌, ◌≢◌, refl, ap, ◌∙◌, Bool, true, false, List, [], ◌∷◌, All, All-map, All-append, ◌==◌, arith,
  ℕ,
}
use libtabula.Prelude.Bytes.{Text, codes, is_space, before, text_eq, to_lower, is_upper}
use libtabula.Ssx.{
  Table, Style, camel_case_lower, camel_case_upper, overloaded, stroustrup, unknown, Line,
  accessor_style, exception_on_schema_mismatch, header_extension, implementation_extension, field,
  table, Place, ok,
}
use libtabula.Ssx.Tokens.{str_to_lwr}
use libtabula.Ssx.Tokens.Words.{IsWord, spaced}
use libtabula.Ssx.Options.{
  parse_type, style_name, style_option, parse_bool, named_option, parse_option,
}
use libtabula.Ssx.Lines.{or_name, table_with}
use libtabula.Ssx.Lines.Printed.{parse_field-tokens, parse_table-tokens}
use libtabula.Ssx.Files.{
  State, Includer, trim_comment, one, parse_line, parse_directive, other_directive, as_table,
  as_field, as_line, note_directive,
}
use libtabula.Ssx.Lines.Names.{is_plain, IsName, IsReadable}
use libtabula.Ssx.Files.Readable.{canonical, first_token, more_tokens}

plain_char :
    (c : ℕ)
    → is_plain c ≡ true
    → (is_space c ≡ false) × (((c == b'#') ≡ false) × ((c == 0) ≡ false))
unfolding is_plain is_space
plain_char c h = (ground arith, (ground arith, ground arith))

pub IsName-IsWord : (s : Text) → IsName s → IsWord s
IsName-IsWord s h = (h.0, All-map s (λ c p. (plain_char c p).0) h.1)

-- A text that trim_comment() leaves as it is.
abbrev pub IsKept : Text → Type 0
IsKept = All (λ c. ((c == b'#') ≡ false) × ((c == 0) ≡ false))

before-IsKept : (b : ℕ) (s : Text) → All (λ c. (c == b) ≡ false) s → before b s ≡ s
unfolding before
before-IsKept b [] h = refl
before-IsKept b (c ∷ s) h = rw (h.0) (ap (λ t. c ∷ t) (before-IsKept b s h.1))

pub trim_comment-IsKept : (s : Text) → IsKept s → trim_comment s ≡ s
unfolding trim_comment
trim_comment-IsKept s h =
    ap (before b'#') (before-IsKept 0 s (All-map s (λ c p. p.1) h))
    ∙ before-IsKept b'#' s (All-map s (λ c p. p.0) h)

pub IsName-IsKept : (s : Text) → IsName s → IsKept s
IsName-IsKept s h = All-map s (λ c p. (plain_char c p).1) h.1

pub spaced-IsKept : (l : List Text) → All IsName l → IsKept (spaced l)
spaced-IsKept [] h = tt
spaced-IsKept (s ∷ l) h =
    ((refl, refl), All-append _ s (spaced l) (IsName-IsKept s h.0) (spaced-IsKept l h.1))

-- What last_tld_was_table is behind a line.
abbrev pub seen_after : Line → Bool → Bool
seen_after (field f) seen = seen
seen_after (table t) seen = true
seen_after (accessor_style v s) seen = false
seen_after (exception_on_schema_mismatch v b) seen = false
seen_after (header_extension v) seen = false
seen_after (implementation_extension v) seen = false

abbrev pub is_field : Line → Bool
is_field (field f) = true
is_field (table t) = false
is_field (accessor_style v s) = false
is_field (exception_on_schema_mismatch v b) = false
is_field (header_extension v) = false
is_field (implementation_extension v) = false

or_name-IsName : (name s : Text) → IsName s → or_name name s ≡ s
unfolding or_name
or_name-IsName name [] h = absurd (omega (arith, h.0))
or_name-IsName name (c ∷ s) h = refl

table_same :
    (t : Table) → IsName t.alias → IsName t.filebase → table_with t.name t.alias t.filebase ≡ t
unfolding table_with
table_same t h k = rw (or_name-IsName t.name t.alias h, or_name-IsName t.name t.filebase k)

parse_type-style_name :
    (s : Style) (place : Place) → s ≢ unknown → parse_type (style_name s) place ≡ ok s
unfolding parse_type style_name text_eq
parse_type-style_name camel_case_lower place h = refl
parse_type-style_name camel_case_upper place h = refl
parse_type-style_name overloaded place h = refl
parse_type-style_name stroustrup place h = refl
parse_type-style_name unknown place h = absurd (h refl)

parse_option-tokens :
    (include : Includer) (place : Place) (st : State) (name value : Text) (l : Line)
    → named_option name value place ≡ ok l
    → parse_line include (codes "option") (name ∷ value ∷ []) false place st
      ≡ ok (one l, record st { last_tld_was_table = false })
unfolding parse_line parse_directive other_directive as_line note_directive parse_option str_to_lwr
    to_lower is_upper text_eq
parse_option-tokens include place st name value l h = rw h

-- A line that fits where it stands is read from the tokens that are printed for it.
pub parse_line-tokens :
    (include : Includer) (place : Place) (st : State) (l : Line)
    → IsReadable l
    → (is_field l ≡ true → st.last_tld_was_table ≡ true)
    → parse_line include (first_token l) (more_tokens l) (is_field l) place st
      ≡ ok
          (one (canonical l), record st { last_tld_was_table = seen_after l st.last_tld_was_table })
unfolding canonical named_option style_option parse_bool parse_line parse_directive other_directive
    as_line as_field as_table note_directive str_to_lwr to_lower is_upper text_eq
parse_line-tokens include place st (field f) h k = rw (k refl, parse_field-tokens f place)
parse_line-tokens include place st (table t) h k = rw (parse_table-tokens t place) (
    ap (λ u. ok (one (table u), record st { last_tld_was_table = true }))
      (table_same t h.1.0 h.1.1))
parse_line-tokens include place st (accessor_style v s) h k =
    parse_option-tokens include place st (codes "accessor_style") (style_name s)
      (accessor_style (style_name s) s) (rw (parse_type-style_name s place h))
parse_line-tokens include place st (exception_on_schema_mismatch v true) h k =
    parse_option-tokens include place st (codes "exception_on_schema_mismatch") (codes "true") _
      refl
parse_line-tokens include place st (exception_on_schema_mismatch v false) h k =
    parse_option-tokens include place st (codes "exception_on_schema_mismatch") (codes "false") _
      refl
parse_line-tokens include place st (header_extension v) h k =
    parse_option-tokens include place st (codes "header_extension") v (header_extension v) refl
parse_line-tokens include place st (implementation_extension v) h k =
    parse_option-tokens include place st (codes "implementation_extension") v
      (implementation_extension v) refl

abbrev pub seen_last : Bool → List Line → Bool
seen_last seen [] = seen
seen_last seen (l ∷ ls) = seen_last (seen_after l seen) ls
