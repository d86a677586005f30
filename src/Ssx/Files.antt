-- ===== src/Ssx/Files.antt =====
-- Files of SSQLS v2 lines: ParseV2::File, Line::parse() and the constructor of ParseV2,
-- src/ssx/parsev2.cpp, and generate_ssqls2(), src/ssx/genv2.cpp. The parameter `open_file` stands
-- for the file system: the lines of a file, if it can be opened.
pub mod Readable
pub mod OneLine
pub mod RoundTrip
pub mod Post
pub mod Ordered
pub mod Accepts
pub mod Depth
pub mod Bound
pub mod Path
pub mod Long
use libtabula.Prelude.{
  ℕ, zero, suc, ◌+◌, Bool, true, false, ◌||◌, List, [], ◌∷◌, ◌++◌, Option, none, some,
  if◌then◌else◌, leb, length,
}
use libtabula.Prelude.Bytes.{Text, codes, text_eq, before, is_space}
use libtabula.Ssx.{
  Line, field, table, field_place, include_arguments, include_subdirective, unrecognized,
  cannot_open, Place, Result, ok, failed, too_deep, ◌>>=◌, error, parse_error, stream_error,
}
use libtabula.Ssx.Tokens.{str_to_lwr, tokenize}
use libtabula.Ssx.Paths.{search, add_directory_to_search_path}
use libtabula.Ssx.Options.{parse_option}
use libtabula.Ssx.Lines.{parse_field, parse_table, print}

-- The static variables search_path_ and last_tld_was_table, which all files share.
pub record State : Type 0 where
  pub search_path : List Text
  pub last_tld_was_table : Bool

-- What File::read_line() makes of a line that getline() delivers, which ends at a NUL.
unfoldable pub trim_comment : Text → Text
unfolding before
trim_comment raw = before b'#' (before 0 raw)

unfoldable pub is_subdirective : Text → Bool
is_subdirective [] = false
is_subdirective (c ∷ s) = is_space c

-- getline() fails if there is no room for the line and a NUL in the 100 bytes of temp.
unfoldable pub fails_on : Text → Bool
fails_on raw = leb 100 (length raw)

-- Line::parse() yields a line, or the lines of an included file, which are hoisted.
pub data Parsed : Type 0 where
  one : Line → Parsed
  hoisted : List Line → Parsed

unfoldable pub hoist : Parsed → List Line → List Line
hoist (one l) more = l ∷ more
hoist (hoisted ls) more = ls ++ more

-- The change of last_tld_was_table that comes before a directive is understood.
unfoldable pub note_directive : Text → Bool → State → State
note_directive directive subdirective st =
    if subdirective
    then st
    else record st { last_tld_was_table = text_eq directive (codes "table") }

-- The constructor of Include, by the parser of a whole file that it is given.
abbrev pub Includer : Type 0
Includer = Text → State → Result (List Line × State)

include_lines : Result (List Line × State) → Result (Parsed × State)
include_lines r = do (ls, st) ← r; ok (hoisted ls, st)

unfoldable pub parse_include : Includer → List Text → Bool → Place → State → Result (Parsed × State)
unfolding include_lines
parse_include include (directive ∷ name ∷ []) subdirective place st =
    if subdirective then parse_error place include_subdirective else include_lines (include name st)
parse_include include tl subdirective place st = parse_error place include_arguments

as_line : State → Result Line → Result (Parsed × State)
as_line st r = do l ← r; ok (one l, st)

as_table : State → List Text → Bool → Place → Result (Parsed × State)
unfolding as_line
as_table st tl subdirective place =
    as_line st (do t ← parse_table tl subdirective place; ok (table t))

as_field : State → List Text → Bool → Place → Result (Parsed × State)
unfolding as_line
as_field st tl subdirective place =
    if st.last_tld_was_table
    then as_line st (do f ← parse_field tl subdirective place; ok (field f))
    else parse_error place field_place

-- The directives that are not 'table'.
other_directive : Includer → Text → List Text → Bool → Place → State → Result (Parsed × State)
unfolding as_field parse_include as_line
other_directive include directive tl subdirective place st =
    if text_eq directive (codes "field")
    then as_field st tl subdirective place
    else if text_eq directive (codes "include")
    then parse_include include tl subdirective place st
    else if text_eq directive (codes "option")
    then as_line st (parse_option tl subdirective place)
    else stream_error place (unrecognized directive)

parse_directive : Includer → Text → List Text → Bool → Place → State → Result (Parsed × State)
unfolding as_table other_directive note_directive
parse_directive include directive tl subdirective place st =
    let noted = note_directive directive subdirective st in
    if text_eq directive (codes "table")
    then as_table noted tl subdirective place
    else other_directive include directive tl subdirective place noted

-- Line::parse(), for the tokens `first ∷ more`.
unfoldable pub parse_line :
    Includer → Text → List Text → Bool → Place → State → Result (Parsed × State)
unfolding parse_directive str_to_lwr
parse_line include first more subdirective place st =
    parse_directive include (str_to_lwr first) (first ∷ more) subdirective place st

-- The rest of the loop's turn: nothing for a line without tokens.
unfoldable pub take_tokens :
    Includer
    → List Text
    → Bool
    → Place
    → State
    → (State → Result (List Line × State))
    → Result (List Line × State)
unfolding parse_line hoist
take_tokens include [] subdirective place st rest = rest st
take_tokens include (first ∷ more) subdirective place st rest = do
  (parsed, st₁) ← parse_line include first more subdirective place st
  (ls, st₂) ← rest st₁
  ok (hoist parsed ls, st₂)

-- The loop of the constructor, from a file whose line_number_ is n. It ends with the file, and at a
-- line that getline() fails on.
unfoldable pub parse_lines : Includer → Text → ℕ → List Text → State → Result (List Line × State)
unfolding take_tokens tokenize trim_comment is_subdirective fails_on
parse_lines include name n [] st = ok ([], st)
parse_lines include name n (raw ∷ raws) st =
    let rest = parse_lines include name (n + 1) raws in
    let line = trim_comment raw in
    let place : Place = record { file_name = name; line_number = n + 1 } in
    if fails_on raw
    then ok ([], st)
    else take_tokens include (tokenize line) (is_subdirective line) place st rest

opened : Includer → Text → State → Option (List Text) → Result (List Line × State)
unfolding parse_lines add_directory_to_search_path
opened include name st none = error (cannot_open name)
opened include name st (some raws) =
    parse_lines include name 1 raws
      (record st { search_path = add_directory_to_search_path name st.search_path })

module _ (open_file : Text → Option (List Text)) where
  -- The constructor of ParseV2. The bound is on the depth of the includes: no file includes another
  -- one at the bound 1.
  unfoldable pub parse_file : ℕ → Includer
  unfolding opened search
  parse_file zero name st = too_deep
  parse_file (suc depth) name st =
      opened (parse_file depth) name st (search open_file name st.search_path)

-- generate_ssqls2(): one line of the file for each line, and a tab before a field.
unfoldable pub generate_line : Line → Text
unfolding print
generate_line (field f) = 9 ∷ print (field f)
generate_line l = print l

unfoldable pub generate : List Line → List Text
unfolding generate_line
generate [] = []
generate (l ∷ ls) = generate_line l ∷ generate ls
