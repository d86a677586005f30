-- ===== src/Ssx/Files/Bound.antt =====
-- The bound on the includes: a higher one changes nothing, and a file that includes itself passes
-- each one.
use libtabula.Prelude.{
  arith, ◌≡◌, refl, sym, ap, Bool, true, false, List, [], ◌∷◌, ℕ, ◌+◌, suc, zero, some, Option,
  none, if◌then◌else◌, subst,
}
use libtabula.Prelude.Bytes.{Text, codes, text_eq, to_lower, is_upper}
use libtabula.Ssx.{Line, Place, Result, ok, failed, too_deep, ◌>>=◌}
use libtabula.Ssx.Tokens.{str_to_lwr, tokenize}
use libtabula.Ssx.Files.{
  State, Includer, trim_comment, is_subdirective, fails_on, parse_include, include_lines,
  other_directive, parse_directive, parse_line, take_tokens, parse_lines, opened, parse_file,
  note_directive,
}
use libtabula.Ssx.Paths.{search, add_directory_to_search_path}

-- The second result is the first one, if the bound was enough for that.
abbrev pub Kept {ℓ} : {A : Type ℓ} → Result A → Result A → Type ℓ
Kept (ok a) r = r ≡ ok a
Kept (failed e) r = r ≡ failed e
Kept too_deep r = Unit

Kept-refl {ℓ} : {A : Type ℓ} (r : Result A) → Kept r r
Kept-refl (ok a) = refl
Kept-refl (failed e) = refl
Kept-refl too_deep = tt

Kept-bind {ℓ κ} :
    {A : Type ℓ} {B : Type κ} (r s : Result A) (f g : A → Result B)
    → Kept r s
    → ((a : A) → Kept (f a) (g a))
    → Kept (r >>= f) (s >>= g)
Kept-bind (ok a) s f g h k = subst (λ t. Kept (f a) (t >>= g)) (sym h) (k a)
Kept-bind (failed e) s f g h k = ap (λ t. t >>= g) h
Kept-bind too_deep s f g h k = tt

Kept-if {ℓ} :
    {A : Type ℓ} (b : Bool) (r s t u : Result A)
    → Kept r t
    → Kept s u
    → Kept (if b then r else s) (if b then t else u)
Kept-if true r s t u h k = h
Kept-if false r s t u h k = k

module _ (f g : Includer) (kept : (name : Text) (st : State) → Kept (f name st) (g name st)) where
  parse_include-Kept :
      (tl : List Text) (b : Bool) (place : Place) (st : State)
      → Kept (parse_include f tl b place st) (parse_include g tl b place st)
  unfolding parse_include include_lines
  parse_include-Kept [] b place st = Kept-refl (parse_include f [] b place st)
  parse_include-Kept (d ∷ []) b place st = Kept-refl (parse_include f (d ∷ []) b place st)
  parse_include-Kept (d ∷ n ∷ v ∷ tl) b place st =
      Kept-refl (parse_include f (d ∷ n ∷ v ∷ tl) b place st)
  parse_include-Kept (d ∷ name ∷ []) true place st =
      Kept-refl (parse_include f (d ∷ name ∷ []) true place st)
  parse_include-Kept (d ∷ name ∷ []) false place st =
      Kept-bind (f name st) (g name st) _ _ (kept name st) λ r. refl

  parse_line-Kept :
      (first : Text) (more : List Text) (b : Bool) (place : Place) (st : State)
      → Kept (parse_line f first more b place st) (parse_line g first more b place st)
  unfolding parse_line parse_directive other_directive
  parse_line-Kept first more b place st =
      let directive = str_to_lwr first in
      Kept-if (text_eq directive (codes "table")) _ _ _ _ (Kept-refl _) (
        Kept-if (text_eq directive (codes "field")) _ _ _ _ (Kept-refl _) (
          Kept-if (text_eq directive (codes "include")) _ _ _ _
            (parse_include-Kept (first ∷ more) b place (note_directive directive b st))
            (Kept-if (text_eq directive (codes "option")) _ _ _ _ (Kept-refl _) (Kept-refl _))))

  take_tokens-Kept :
      (ts : List Text) (b : Bool) (place : Place) (st : State)
      (r s : State → Result (List Line × State))
      → ((st : State) → Kept (r st) (s st))
      → Kept (take_tokens f ts b place st r) (take_tokens g ts b place st s)
  unfolding take_tokens
  take_tokens-Kept [] b place st r s h = h st
  take_tokens-Kept (first ∷ more) b place st r s h =
      Kept-bind (parse_line f first more b place st) (parse_line g first more b place st) _ _
        (parse_line-Kept first more b place st) λ p. Kept-bind (r p.1) (s p.1) _ _ (h p.1) λ q. refl

  parse_lines-Kept :
      (name : Text) (n : ℕ) (raws : List Text) (st : State)
      → Kept (parse_lines f name n raws st) (parse_lines g name n raws st)
  unfolding parse_lines
  parse_lines-Kept name n [] st = refl
  parse_lines-Kept name n (raw ∷ raws) st =
      Kept-if (fails_on raw) _ _ _ _ (Kept-refl (ok ([], st))) (
        take_tokens-Kept (tokenize (trim_comment raw)) _ _ st _ _
          λ s. parse_lines-Kept name (n + 1) raws s)

  opened-Kept :
      (name : Text) (st : State) (found : Option (List Text))
      → Kept (opened f name st found) (opened g name st found)
  unfolding opened
  opened-Kept name st none = Kept-refl (opened f name st none)
  opened-Kept name st (some raws) =
      parse_lines-Kept name 1 raws
        (record st { search_path = add_directory_to_search_path name st.search_path })

module _ (open_file : Text → Option (List Text)) where
  -- What a file is parsed to within a bound on the includes, an error too, it is parsed to within
  -- each higher bound.
  pub parse_file-Kept :
      (depth more : ℕ) (name : Text) (st : State)
      → Kept (parse_file open_file depth name st) (parse_file open_file (depth + more) name st)
  unfolding parse_file
  parse_file-Kept zero more name st = tt
  parse_file-Kept (suc depth) more name st =
      let sum : suc (depth + more) ≡ suc depth + more = omega arith in
      subst (λ d. Kept (parse_file open_file (suc depth) name st) (parse_file open_file d name st))
        sum
        (opened-Kept (parse_file open_file depth) (parse_file open_file (depth + more))
          (parse_file-Kept depth more) name st (search open_file name st.search_path))

  -- A file whose first line includes it is parsed to nothing within any bound: the constructor calls
  -- itself without end.
  pub parse_file-too_deep :
      (depth : ℕ) (name raw : Text) (raws : List Text) (st : State)
      → open_file name ≡ some (raw ∷ raws)
      → fails_on raw ≡ false
      → is_subdirective (trim_comment raw) ≡ false
      → tokenize (trim_comment raw) ≡ codes "include" ∷ name ∷ []
      → parse_file open_file depth name st ≡ too_deep
  unfolding parse_file opened search parse_lines take_tokens parse_line parse_directive
      other_directive parse_include include_lines str_to_lwr to_lower is_upper text_eq
  parse_file-too_deep zero name raw raws st found h sub ts = refl
  parse_file-too_deep (suc depth) name raw raws st found h sub ts = rw (
    found,
    h,
    ts,
    sub,
    parse_file-too_deep depth name raw raws
        (record {
          search_path = add_directory_to_search_path name st.search_path;
          last_tld_was_table = false;
        })
        found h sub ts,
  )
