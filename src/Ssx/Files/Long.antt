-- ===== src/Ssx/Files/Long.antt =====
-- Lines that are too long for getline().
use libtabula.Prelude.{
  ◌≡◌, refl, ap, true, List, [], ◌∷◌, ◌++◌, ℕ, ◌+◌, ◌≤◌, length, length-append, leb, arith,
  if◌then◌else◌,
}
use libtabula.Prelude.Bytes.{Text, codes}
use libtabula.Ssx.{table, ok}
use libtabula.Ssx.Lines.{table_with, or_name, print, print_table, print_named}
use libtabula.Ssx.Files.{
  State, Includer, trim_comment, is_subdirective, fails_on, take_tokens, parse_lines, generate_line,
}
use libtabula.Ssx.Tokens.{tokenize}

-- A line of 100 characters or more and all that follows it are as if they were not there: the
-- parser returns what it returns for the lines before it, with no error.
pub parse_lines-long :
    (include : Includer) (name : Text) (n : ℕ) (raws : List Text) (long : Text) (more : List Text)
    (st : State)
    → 100 ≤ length long
    → parse_lines include name n (raws ++ long ∷ more) st ≡ parse_lines include name n raws st
unfolding parse_lines fails_on
parse_lines-long include name n [] long more st h =
    let fails : leb 100 (length long) ≡ true = ground arith in rw fails
parse_lines-long include name n (raw ∷ raws) long more st h =
    let same : parse_lines include name (n + 1) (raws ++ long ∷ more)
        ≡ parse_lines include name (n + 1) raws =
      λ i s. parse_lines-long include name (n + 1) raws long more s h i in
    ap
      (λ rest.
        if fails_on raw
        then ok ([], st)
        else take_tokens include (tokenize (trim_comment raw)) (is_subdirective (trim_comment raw))
            (record { file_name = name; line_number = n + 1 }) st rest)
      same

length-or_name : (name : Text) → length (or_name name []) ≡ length name
unfolding or_name
length-or_name name = refl

length-print_named :
    (attr value rest : Text)
    → 1 ≤ length value
    → length (print_named attr value rest) ≡ length attr + length value + length rest
unfolding print_named
length-print_named attr [] rest h = absurd (omega (arith, h))
length-print_named attr (c ∷ value) rest h =
    omega (arith, length-append attr (c ∷ (value ++ rest)), length-append value rest)

-- What is printed for a table that has no alias and no filebase has its name three times: it can be
-- read again exactly if the name has at most 25 characters.
pub fails_on-table :
    (name : Text)
    → 1 ≤ length name
    → fails_on (generate_line (table (table_with name [] []))) ≡ leb 26 (length name)
unfolding fails_on generate_line print print_table table_with or_name
fails_on-table name h =
    let inner = length-print_named (codes " filebase ") name [] h in
    let outer =
      length-print_named (codes " alias ") name (print_named (codes " filebase ") name []) h in
    ground (
      arith,
      length-append name
          (print_named (codes " alias ") name (print_named (codes " filebase ") name [])),
      inner,
      outer,
    )
