-- ===== src/Ssx/Files/Ordered.antt =====
-- What the lines that the parser returns look like.
use libtabula.Prelude.{
  ◌≡◌, refl, sym, ◌∙◌, Bool, true, false, List, [], ◌∷◌, All, false≢true, append-nil, subst,
}
use libtabula.Prelude.Bytes.{Text, codes, text_eq, text_eq→eq}
use libtabula.Ssx.{
  Line, accessor_style, exception_on_schema_mismatch, header_extension, implementation_extension,
  field, table, Place, Result, stream_error, parse_error, error, Error,
}
use libtabula.Ssx.Tokens.{str_to_lwr}
use libtabula.Ssx.Lines.Names.{IsName, IsAccepted}
use libtabula.Ssx.Lines.{parse_field, parse_table}
use libtabula.Ssx.Options.{parse_option}
use libtabula.Ssx.Lines.Accepted.{
  ReadableOption, parse_option-Readable, parse_field-Readable, parse_table-Readable, Blames, Never,
}
use libtabula.Ssx.Sound.{Sound, Sound-bind, Sound-weaken, Sound-if, Sound-allow}
use libtabula.Ssx.Files.{
  State, Includer, hoist, parse_include, include_lines, as_line, as_table, as_field, note_directive,
  other_directive, parse_directive, parse_line,
}
use libtabula.Ssx.Files.Post.{Post, PostParsed, Post-le}

-- The flag that is noted for a directive that is not 'table' is not more than it was.
noted_le :
    (directive : Text) (subdirective : Bool) (st : State)
    → text_eq directive (codes "table") ≡ false
    → (note_directive directive subdirective st).last_tld_was_table ≡ true
    → st.last_tld_was_table ≡ true
unfolding note_directive
noted_le directive true st h e = e
noted_le directive false st h e = absurd (false≢true (sym h ∙ e))

one_option-Post :
    (seen : Bool) (st : State) (l : Line)
    → ReadableOption l
    → st.last_tld_was_table ≡ false
    → Post seen (l ∷ [], st)
one_option-Post seen st (field f) h k = absurd (false≢true h.1)
one_option-Post seen st (table t) h k = absurd (false≢true h.1)
one_option-Post seen st (accessor_style v s) h k =
    ((h.0, tt), (tt, λ e. absurd (false≢true (sym k ∙ e))))
one_option-Post seen st (exception_on_schema_mismatch v b) h k =
    ((h.0, tt), (tt, λ e. absurd (false≢true (sym k ∙ e))))
one_option-Post seen st (header_extension v) h k =
    ((h.0, tt), (tt, λ e. absurd (false≢true (sym k ∙ e))))
one_option-Post seen st (implementation_extension v) h k =
    ((h.0, tt), (tt, λ e. absurd (false≢true (sym k ∙ e))))

noted_top :
    (directive : Text) (subdirective : Bool) (st : State)
    → text_eq directive (codes "table") ≡ false
    → subdirective ≡ false
    → (note_directive directive subdirective st).last_tld_was_table ≡ false
unfolding note_directive
noted_top directive true st h e = absurd (false≢true (sym e))
noted_top directive false st h e = h

-- The lines that name an included file.
abbrev pub Includes : Text → List Text → Text → Type 0
Includes first more name = (str_to_lwr first ≡ codes "include") × (more ≡ name ∷ [])

module _ (E : Error → Type 0) (D : Type 0) where
  -- What is asked of the parser of an included file.
  abbrev pub SoundInclude : Includer → Text → Type 0
  SoundInclude include name =
      (st : State) → Sound E D (Post st.last_tld_was_table) (include name st)

  module _ (place : Place) (blame : (e : Error) → Blames place e → E e) where
    allow {ℓ} :
        {A : Type ℓ} (P : A → Type 0) (r : Result A)
        → Sound (Blames place) Never P r
        → Sound E D P r
    allow P r h = Sound-allow _ E Never D P r blame (λ n. absurd (false≢true (sym n))) h

    as_line-Post :
        (seen : Bool) (st : State) (r : Result Line)
        → Sound E D (λ l. Post seen (l ∷ [], st)) r
        → Sound E D (PostParsed seen) (as_line st r)
    unfolding as_line hoist
    as_line-Post seen st r h = Sound-bind E D _ (PostParsed seen) r _ h λ l p. p

    as_table-Post :
        (seen : Bool) (st : State) (tl : List Text) (subdirective : Bool)
        → All IsName tl
        → Sound E D (PostParsed seen) (as_table st tl subdirective place)
    unfolding as_table
    as_table-Post seen st tl b h = as_line-Post seen st _ (
        Sound-bind E D (λ t. IsAccepted (table t) × (b ≡ false)) _ (parse_table tl b place) _
          (allow (λ t. IsAccepted (table t) × (b ≡ false)) (parse_table tl b place)
            (parse_table-Readable tl b place h))
          λ t r. ((r.0, tt), (tt, λ e. refl)))

    as_field-Post :
        (seen : Bool) (st : State) (tl : List Text) (subdirective : Bool)
        → All IsName tl
        → (st.last_tld_was_table ≡ true → seen ≡ true)
        → Sound E D (PostParsed seen) (as_field st tl subdirective place)
    unfolding as_field parse_error
    as_field-Post seen st tl b h k =
        Sound-if E D _ st.last_tld_was_table _ _
          (λ e. as_line-Post seen st _ (
            Sound-bind E D (λ f. IsAccepted (field f) × (b ≡ true)) _ (parse_field tl b place) _
              (allow (λ f. IsAccepted (field f) × (b ≡ true)) (parse_field tl b place)
                (parse_field-Readable tl b place h))
              λ f r. ((r.0, tt), ((k e, tt), λ e. k e))))
          λ e. blame _ (refl, refl)

    option-Post :
        (seen : Bool) (st : State) (tl : List Text) (subdirective : Bool)
        → All IsName tl
        → (subdirective ≡ false → st.last_tld_was_table ≡ false)
        → Sound E D (PostParsed seen) (as_line st (parse_option tl subdirective place))
    option-Post seen st tl b h k = as_line-Post seen st _ (
        Sound-weaken E D (λ l. ReadableOption l × (b ≡ false)) _ (parse_option tl b place)
          (λ l r. one_option-Post seen st l r.0 (k r.1))
          (allow (λ l. ReadableOption l × (b ≡ false)) (parse_option tl b place)
            (parse_option-Readable tl b place h)))

    include-Post :
        (include : Includer) (seen : Bool) (st : State) (first : Text) (more : List Text)
        (subdirective : Bool)
        → ((name : Text) → more ≡ name ∷ [] → SoundInclude include name)
        → (st.last_tld_was_table ≡ true → seen ≡ true)
        → Sound E D (PostParsed seen) (parse_include include (first ∷ more) subdirective place st)
    unfolding parse_include include_lines parse_error hoist
    include-Post include seen st d [] b h k = blame _ (refl, refl)
    include-Post include seen st d (name ∷ v ∷ tl) b h k = blame _ (refl, refl)
    include-Post include seen st d (name ∷ []) true h k = blame _ (refl, refl)
    include-Post include seen st d (name ∷ []) false h k =
        Sound-bind E D _ (PostParsed seen) (include name st) _ (h name refl st) λ r p.
          subst (λ ls. Post seen (ls, r.1)) (sym (append-nil r.0))
            (Post-le st.last_tld_was_table seen r k p)

    other_directive-Post :
        (include : Includer) (first : Text) (more : List Text) (subdirective : Bool) (st : State)
        → ((name : Text) → Includes first more name → SoundInclude include name)
        → All IsName (first ∷ more)
        → text_eq (str_to_lwr first) (codes "table") ≡ false
        → Sound E D (PostParsed st.last_tld_was_table) (
            other_directive include
              (str_to_lwr first)
              (first ∷ more)
              subdirective
              place
              (note_directive (str_to_lwr first) subdirective st))
    unfolding other_directive stream_error error
    other_directive-Post include first more b st i h other =
        let directive = str_to_lwr first in
        let tl = first ∷ more in
        let seen = st.last_tld_was_table in
        let noted = note_directive directive b st in
        let le = noted_le directive b st other in
        Sound-if E D _ (text_eq directive (codes "field")) _ _
          (λ e. as_field-Post seen noted tl b h le)
          λ e.
            Sound-if E D _ (text_eq directive (codes "include")) _ _
              (λ e.
                include-Post include seen noted first more b
                  (λ name same. i name (text_eq→eq directive (codes "include") e, same)) le)
              λ e.
                Sound-if E D _ (text_eq directive (codes "option")) _ _
                  (λ e. option-Post seen noted tl b h (noted_top directive b st other))
                  λ e. blame _ tt

    pub parse_line-Post :
        (include : Includer) (first : Text) (more : List Text) (subdirective : Bool) (st : State)
        → ((name : Text) → Includes first more name → SoundInclude include name)
        → All IsName (first ∷ more)
        → Sound E D
            (PostParsed st.last_tld_was_table)
            (parse_line include first more subdirective place st)
    unfolding parse_line parse_directive
    parse_line-Post include first more b st i h =
        let directive = str_to_lwr first in
        Sound-if E D _ (text_eq directive (codes "table")) _ _
          (λ e.
            as_table-Post st.last_tld_was_table (note_directive directive b st) (first ∷ more) b h)
          λ e. other_directive-Post include first more b st i h e
