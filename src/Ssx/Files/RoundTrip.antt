-- ===== src/Ssx/Files/RoundTrip.antt =====
-- A file that is generated from lines and parsed.
use libtabula.Prelude.{
  ◌≡◌, refl, false≢true, if◌then◌else◌, subst, sym, ap, ◌∙◌, Bool, true, false, List, [], ◌∷◌, ◌++◌,
  All, All-map, All-append, ℕ, ◌+◌, suc, some, map, Option,
}
use libtabula.Prelude.Bytes.{Text, is_space}
use libtabula.Ssx.{
  Line, accessor_style, exception_on_schema_mismatch, header_extension, implementation_extension,
  field, table, ok,
}
use libtabula.Ssx.Tokens.{tokenize}
use libtabula.Ssx.Tokens.Words.{IsWord, spaced, tokenize-spaced}
use libtabula.Ssx.Files.{
  State, Includer, is_subdirective, fails_on, hoist, take_tokens, parse_lines, parse_file,
  generate_line, generate, opened,
}
use libtabula.Ssx.Paths.{add_directory_to_search_path, search}
use libtabula.Ssx.Lines.Names.{IsReadable}
use libtabula.Ssx.Files.Readable.{
  canonical, InOrder, first_token, more_tokens, print-spaced, tokens-IsName,
}
use libtabula.Ssx.Files.OneLine.{
  seen_last, IsName-IsWord, IsKept, trim_comment-IsKept, IsName-IsKept, spaced-IsKept, seen_after,
  is_field, parse_line-tokens,
}

abbrev indent : Line → Text → Text
indent l s = if is_field l then 9 ∷ s else s

generate_line-spaced :
    (l : Line) → generate_line l ≡ indent l (first_token l ++ spaced (more_tokens l))
unfolding generate_line
generate_line-spaced (field f) = ap (λ s. 9 ∷ s) (print-spaced (field f))
generate_line-spaced (table t) = print-spaced (table t)
generate_line-spaced (accessor_style v s) = print-spaced (accessor_style v s)
generate_line-spaced (exception_on_schema_mismatch v b) =
    print-spaced (exception_on_schema_mismatch v b)
generate_line-spaced (header_extension v) = print-spaced (header_extension v)
generate_line-spaced (implementation_extension v) = print-spaced (implementation_extension v)

words : (l : Line) → IsReadable l → All IsWord (first_token l ∷ more_tokens l)
words l h = All-map (first_token l ∷ more_tokens l) IsName-IsWord (tokens-IsName l h)

generate_line-IsKept : (l : Line) → IsReadable l → IsKept (generate_line l)
generate_line-IsKept l h =
    let names = tokens-IsName l h in
    subst IsKept (sym (generate_line-spaced l)) (
      kept (is_field l) _ (
        All-append _ (first_token l) _ (IsName-IsKept (first_token l) names.0)
          (spaced-IsKept (more_tokens l) names.1)))
  where
    kept : (b : Bool) (s : Text) → IsKept s → IsKept (if b then 9 ∷ s else s)
    kept true s h = ((refl, refl), h)
    kept false s h = h

tokenize-generate_line :
    (l : Line) → IsReadable l → tokenize (generate_line l) ≡ first_token l ∷ more_tokens l
tokenize-generate_line l h =
    let both = tokenize-spaced (first_token l) (more_tokens l) (words l h) in
    ap tokenize (generate_line-spaced l) ∙ either (is_field l) _ both.0 both.1
  where
    either :
        (b : Bool) (s : Text) {ts : List Text}
        → tokenize s ≡ ts
        → tokenize (9 ∷ s) ≡ ts
        → tokenize (if b then 9 ∷ s else s) ≡ ts
    either true s h k = k
    either false s h k = h

is_subdirective-generate_line : (l : Line) → is_subdirective (generate_line l) ≡ is_field l
unfolding is_subdirective is_space
is_subdirective-generate_line l = ap is_subdirective (generate_line-spaced l) ∙ starts l
  where
    starts :
        (l : Line)
        → is_subdirective (indent l (first_token l ++ spaced (more_tokens l))) ≡ is_field l
    starts (field f) = refl
    starts (table t) = refl
    starts (accessor_style v s) = refl
    starts (exception_on_schema_mismatch v b) = refl
    starts (header_extension v) = refl
    starts (implementation_extension v) = refl

InOrder-head :
    (seen : Bool) (l : Line) (ls : List Line)
    → InOrder seen (l ∷ ls)
    → (is_field l ≡ true → seen ≡ true) × InOrder (seen_after l seen) ls
InOrder-head seen (field f) ls h = (λ e. h.0, h.1)
InOrder-head seen (table t) ls h = (λ e. absurd (false≢true e), h)
InOrder-head seen (accessor_style v s) ls h = (λ e. absurd (false≢true e), h)
InOrder-head seen (exception_on_schema_mismatch v b) ls h = (λ e. absurd (false≢true e), h)
InOrder-head seen (header_extension v) ls h = (λ e. absurd (false≢true e), h)
InOrder-head seen (implementation_extension v) ls h = (λ e. absurd (false≢true e), h)

-- Lines that getline() has room for.
abbrev pub Fits : List Line → Type 0
Fits = All (λ l. fails_on (generate_line l) ≡ false)

parse_lines-generate :
    (include : Includer) (name : Text) (n : ℕ) (ls : List Line) (st : State)
    → All IsReadable ls
    → Fits ls
    → InOrder st.last_tld_was_table ls
    → parse_lines include name n (generate ls) st
      ≡ ok (map canonical ls, record st { last_tld_was_table = seen_last st.last_tld_was_table ls })
unfolding parse_lines generate take_tokens hoist
parse_lines-generate include name n [] st h k o = refl
parse_lines-generate include name n (l ∷ ls) st h k o =
    let here = InOrder-head st.last_tld_was_table l ls o in
    let later =
      parse_lines-generate include name (n + 1) ls
        (record st { last_tld_was_table = seen_after l st.last_tld_was_table }) h.1 k.1 here.1 in
    rw (
      k.0,
      trim_comment-IsKept (generate_line l) (generate_line-IsKept l h.0),
      tokenize-generate_line l h.0,
      is_subdirective-generate_line l,
      parse_line-tokens include (record { file_name = name; line_number = n + 1 }) st l h.0 here.0,
      later,
    )

-- The lines that a file is generated from come back when it is parsed, each option with the value
-- that was printed, if they are readable, in order and short enough for getline(), and the file is
-- found: nothing is lost or added, whatever the bound on the includes.
pub parse_file-generate :
    (open_file : Text → Option (List Text)) (depth : ℕ) (name : Text) (ls : List Line) (st : State)
    → search open_file name st.search_path ≡ some (generate ls)
    → All IsReadable ls
    → Fits ls
    → InOrder st.last_tld_was_table ls
    → parse_file open_file (suc depth) name st
      ≡ ok (
        map canonical ls,
        record {
          search_path = add_directory_to_search_path name st.search_path;
          last_tld_was_table = seen_last st.last_tld_was_table ls;
        },
      )
unfolding parse_file opened
parse_file-generate open_file depth name ls st found h k o =
    let inside = record st { search_path = add_directory_to_search_path name st.search_path } in
    rw found (parse_lines-generate (parse_file open_file depth) name 1 ls inside h k o)
