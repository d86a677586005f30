-- ===== src/Ssx/Tests.antt =====
-- Files of SSQLS v2 lines that are parsed, and the theorems at them.
use libtabula.Prelude.{
  ◌≡◌, refl, true, false, List, [], ◌∷◌, ◌++◌, All, ℕ, ◌+◌, ◌<◌, Option, none, some, arith,
  if◌then◌else◌, map, inl, inr, replicate, Bool-cases, subst, sym, leb,
}
use libtabula.Prelude.Bytes.{Text, codes, text_eq, is_space, before, has_text, text_eq→eq}
use libtabula.Ssx.{
  Line, header_extension, table, field, ft_mediumint, ft_string, ok, failed, too_deep,
  camel_case_upper, accessor_style, file_exception, parse_exception, field_place, unknown_option,
  parse_error, stream_error,
}
use libtabula.Ssx.Tokens.{tokenize, split_path, part, behind, skip, parts}
use libtabula.Ssx.Tokens.Words.{IsWord, concat, without_space, tokenize-IsWord}
use libtabula.Ssx.Options.{parse_option}
use libtabula.Ssx.Lines.{parse_field, table_with, parse_table, print}
use libtabula.Ssx.Lines.Names.{is_plain, IsReadable}
use libtabula.Ssx.Lines.Accepted.{Never}
use libtabula.Ssx.Sound.{Sound}
use libtabula.Ssx.Paths.{in_directory, search, open_any, add_directory_to_search_path, mem_text}
use libtabula.Ssx.Files.{
  State, trim_comment, is_subdirective, fails_on, parse_file, parse_lines, generate, generate_line,
}
use libtabula.Ssx.Files.Readable.{canonical}
use libtabula.Ssx.Files.RoundTrip.{parse_file-generate}
use libtabula.Ssx.Files.Post.{Post}
use libtabula.Ssx.Files.Accepts.{Anything, NamesFile, parse_file-Post}
use libtabula.Ssx.Files.Depth.{Located, Ranked, parse_file-Located}
use libtabula.Ssx.Files.Bound.{Kept, parse_file-Kept, parse_file-too_deep}
use libtabula.Ssx.Files.Path.{
  Grown, FirstOf, candidates, add_directory_to_search_path-Grown, search-FirstOf,
}
use libtabula.Ssx.Files.Long.{parse_lines-long, fails_on-table}

-- Lines for a table with two columns.
abbrev stock : List Line
stock =
    accessor_style (codes "GetX") camel_case_upper
    ∷ table (record { name = codes "stock"; alias = codes "Stock"; filebase = codes "stock" })
    ∷ field (record {
      name = codes "num";
      type = ft_mediumint;
      is_autoinc = true;
      is_key = false;
      is_null = false;
      is_unsigned = true;
      alias = codes "n";
    })
    ∷ field (record {
      name = codes "item";
      type = ft_string;
      is_autoinc = false;
      is_key = false;
      is_null = true;
      is_unsigned = false;
      alias = [];
    })
    ∷ []

abbrev main_file : List Text
main_file =
    codes "# a comment"
    ∷ codes "include sub"
    ∷ codes "Table t ALIAS u # more"
    ∷ codes "  field f type INT is key extra"
    ∷ []

abbrev files : Text → Option (List Text)
files name =
    if text_eq name (codes "main")
    then some main_file
    else if text_eq name (codes "sub")
    then some (codes "option header_extension hh" ∷ [])
    else if text_eq name (codes "loop")
    then some (codes "include loop" ∷ [])
    else if text_eq name (codes "bad")
    then some (codes "option header_extension hh" ∷ codes " field f" ∷ [])
    else if text_eq name (codes "far")
    then some (replicate 100 b'#' ∷ codes "nonsense" ∷ [])
    else if text_eq name (codes "dir/stock")
    then some (generate stock)
    else none

abbrev start : State
start = record { search_path = codes "dir" ∷ []; last_tld_was_table = false }

abbrev main_lines : List Line
main_lines =
    header_extension (codes "hh")
    ∷ table (record { name = codes "t"; alias = codes "u"; filebase = codes "t" })
    ∷ field (record {
      name = codes "f";
      type = ft_mediumint;
      is_autoinc = false;
      is_key = true;
      is_null = false;
      is_unsigned = false;
      alias = [];
    })
    ∷ []

-- A file with an include, comments, upper case and a token that has no partner.
parse_main :
    parse_file files 2 (codes "main") start
    ≡ ok (main_lines, record { search_path = codes "dir" ∷ []; last_tld_was_table = true })
unfolding parse_file text_eq is_space parse_option parse_table parse_field has_text split_path
parse_main = refl

-- The first error stands in the first line, and is reported for line 2. An error that is made from
-- a stream is a file exception.
parse_wrong_place :
    parse_lines (λ name st. too_deep) (codes "f") 1 (codes "field f" ∷ []) start
    ≡ failed (parse_exception field_place (codes "f") 2)
unfolding parse_lines text_eq is_space parse_error
parse_wrong_place = refl

parse_wrong_option :
    parse_lines (λ name st. too_deep) (codes "f") 1 (codes "option speed 9" ∷ []) start
    ≡ failed (file_exception (unknown_option (codes "speed")))
unfolding parse_lines text_eq is_space parse_option stream_error
parse_wrong_option = refl

stock-IsReadable : All IsReadable stock
unfolding is_plain is_space
stock-IsReadable = ground arith

parse_file-generate_example :
    parse_file files 1 (codes "stock") start
    ≡ ok (
      map canonical stock,
      record {
        search_path = add_directory_to_search_path (codes "stock") (codes "dir" ∷ []);
        last_tld_was_table = true;
      },
    )
unfolding search open_any text_eq in_directory fails_on generate_line print
parse_file-generate_example =
    parse_file-generate files 0 (codes "stock") stock start refl stock-IsReadable
      (refl, (refl, (refl, (refl, tt)))) (refl, (refl, tt))

parse_file-Post_example :
    Sound (λ e. Anything) Anything (Post false) (parse_file files 2 (codes "main") start)
parse_file-Post_example = parse_file-Post files 2 (codes "main") start

tokenize-IsWord_case :
    All IsWord (tokenize (codes " field  f "))
    × (concat (tokenize (codes " field  f ")) ≡ without_space (codes " field  f "))
tokenize-IsWord_case = tokenize-IsWord (codes " field  f ")

parse_file-Kept_case :
    Kept (parse_file files 2 (codes "main") start) (parse_file files (2 + 5) (codes "main") start)
parse_file-Kept_case = parse_file-Kept files 2 5 (codes "main") start

parse_file-too_deep_example : parse_file files 7 (codes "loop") start ≡ too_deep
unfolding text_eq fails_on is_subdirective trim_comment before tokenize skip parts is_space part
    behind
parse_file-too_deep_example =
    parse_file-too_deep files 7 (codes "loop") (codes "include loop") [] start refl refl refl refl

add_directory_to_search_path-Grown_case :
    Grown (codes "dir" ∷ []) (add_directory_to_search_path (codes "a/b/f") (codes "dir" ∷ []))
unfolding mem_text
add_directory_to_search_path-Grown_case =
    add_directory_to_search_path-Grown (codes "a/b/f") (codes "dir" ∷ []) (refl, tt)

search-FirstOf_case :
    FirstOf files
      (codes "stock" ∷ candidates files (codes "stock") (codes "dir" ∷ []))
      (search files (codes "stock") (codes "dir" ∷ []))
search-FirstOf_case = search-FirstOf files (codes "stock") (codes "dir" ∷ [])

parse_lines-long_case :
    parse_lines
      (λ name st. too_deep)
      (codes "f")
      1
      ((codes "table t" ∷ []) ++ replicate 100 b'#' ∷ codes "nonsense" ∷ [])
      start
    ≡ parse_lines (λ name st. too_deep) (codes "f") 1 (codes "table t" ∷ []) start
parse_lines-long_case =
    parse_lines-long (λ name st. too_deep) (codes "f") 1 (codes "table t" ∷ []) (replicate 100 b'#')
      (codes "nonsense" ∷ []) start (omega arith)

fails_on-table_case : fails_on (generate_line (table (table_with (codes "stock") [] []))) ≡ leb 26 5
fails_on-table_case = fails_on-table (codes "stock") (omega arith)

-- A file system with one file, which includes another.
abbrev two_files : Text → Option (List Text)
two_files name =
    if text_eq name (codes "a")
    then some (codes "include b" ∷ [])
    else if text_eq name (codes "b")
    then some (codes "bad" ∷ [])
    else none

abbrev rank_of : Text → ℕ
rank_of name = if text_eq name (codes "a") then 1 else 0

-- A name with a directory is none of the two.
slashed : (d name : Text) → two_files (in_directory d name) ≡ none
unfolding in_directory text_eq
slashed [] name = refl
slashed (c ∷ []) name = ground arith
slashed (c ∷ e ∷ d) name = ground arith

open_any-none : (name : Text) (l : List Text) → open_any two_files name l ≡ none
unfolding open_any
open_any-none name [] = refl
open_any-none name (d ∷ l) = rw (slashed d name) (open_any-none name l)

Lower : Text → List Text → Type 0
Lower name raws =
    All
      (λ raw.
        (file : Text) → NamesFile (tokenize (trim_comment raw)) file → rank_of file < rank_of name)
      raws

a-Lower : (raws : List Text) → some (codes "include b" ∷ []) ≡ some raws → Lower (codes "a") raws
unfolding Lower text_eq tokenize skip parts is_space part behind trim_comment before
a-Lower raws e =
    let same : codes "include b" ∷ [] ≡ raws = cc in
    subst (Lower (codes "a")) same (
      λ file h. let b : file ≡ codes "b" = cc in subst (λ f. rank_of f < 1) (sym b) (omega arith),
      tt,
    )

b-Lower : (name : Text) (raws : List Text) → some (codes "bad" ∷ []) ≡ some raws → Lower name raws
unfolding Lower text_eq tokenize skip parts is_space part behind trim_comment before
b-Lower name raws e =
    let same : codes "bad" ∷ [] ≡ raws = cc in
    subst (Lower name) same (λ file h. let no_file : [] ≡ file ∷ [] = h.1 in cc, tt)

two_files-Ranked : Ranked two_files rank_of
unfolding search Lower
two_files-Ranked name path raws found = elim (Bool-cases (text_eq name (codes "a"))) [
  | inl a ↦
      subst (λ n. Lower n raws) (sym (text_eq→eq name (codes "a") a)) (a-Lower raws (rw a at found))
  | inr not_a ↦ elim (Bool-cases (text_eq name (codes "b"))) [
    | inl b ↦ b-Lower name raws (rw (not_a, b) at found)
    | inr not_b ↦ absurd (none_found (rw (not_a, not_b, open_any-none name path) at found))
  ]
]
  where
    none_found : {r : List Text} → none ≡ some r → ⊥
    none_found e = cc

parse_file-Located_example :
    Sound (Located two_files) Never (Post false) (parse_file two_files 2 (codes "a") start)
unfolding text_eq
parse_file-Located_example =
    parse_file-Located two_files rank_of two_files-Ranked 2 (codes "a") start (omega arith)
