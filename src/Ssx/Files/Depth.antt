-- ===== src/Ssx/Files/Depth.antt =====
-- Errors of a file and the bound on the includes.
use libtabula.Prelude.{
  ◌≡◌, refl, ap, ◌∙◌, List, All, All-map, arith, ℕ, ◌+◌, ◌<◌, ◌≤◌, length, some, Option,
}
use libtabula.Prelude.Bytes.{Text}
use libtabula.Ssx.{Error, file_exception, parse_exception}
use libtabula.Ssx.Tokens.{tokenize}
use libtabula.Ssx.Lines.Accepted.{Blames, Never}
use libtabula.Ssx.Sound.{Sound}
use libtabula.Ssx.Files.{State, trim_comment, parse_file}
use libtabula.Ssx.Paths.{search}
use libtabula.Ssx.Files.Post.{Post}
use libtabula.Ssx.Files.Accepts.{NamesFile, Anything, parse_file-Sound}

module _ (open_file : Text → Option (List Text)) where
  -- The line that an error names is one behind a line of the file that it names.
  abbrev pub Located : Error → Type 0
  Located (file_exception m) = Anything
  Located (parse_exception m name k) =
      (path : List Text) × ((raws : List Text) × ((search open_file name path ≡ some raws)
          × ((2 ≤ k) × (k ≤ 1 + length raws))))

  located :
      (name : Text) (path raws : List Text)
      → search open_file name path ≡ some raws
      → (k : ℕ) → 2 ≤ k
      → k ≤ 1 + length raws
      → (e : Error) → Blames (record { file_name = name; line_number = k }) e
      → Located e
  located name path raws found k lo hi (file_exception m) b = refl
  located name path raws found k lo hi (parse_exception m file n) b = (
    path,
    (
      raws,
      (ap (λ f. search open_file f path) b.0 ∙ found, (omega (arith, b.1), omega (arith, b.1))),
    ),
  )

  -- The files that a file names have a lower rank, wherever it is found.
  abbrev pub Ranked : (Text → ℕ) → Type 0
  Ranked rank =
      (name : Text) (path raws : List Text)
      → search open_file name path ≡ some raws
      → All
          (λ raw.
            (file : Text) → NamesFile (tokenize (trim_comment raw)) file → rank file < rank name)
          raws

  -- If the includes have no cycle, so that each file has a rank above the files that it names, a bound
  -- above the rank is enough: the parser returns lines, or throws an error. An error that has a line
  -- has a line number from 2 to one more than the number of the lines of the file that it names.
  pub parse_file-Located :
      (rank : Text → ℕ)
      → Ranked rank
      → (depth : ℕ) (name : Text) (st : State) → rank name < depth
      → Sound Located Never (Post st.last_tld_was_table) (parse_file open_file depth name st)
  parse_file-Located rank ranked =
      parse_file-Sound open_file Located Never (λ d n. rank n < d)
        (λ n h. absurd (omega (arith, h))) (λ n. refl)
        λ d name path raws h found. (
          located name path raws found,
          All-map raws (λ raw lower file names. omega (arith, lower file names, h))
              (ranked name path raws found),
        )
