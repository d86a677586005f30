-- ===== src/Ssx/Files/Accepts.antt =====
-- What the lines of a file that is accepted look like.
use libtabula.Prelude.{
  length, ◌<◌, ◌≤◌, ◌≡◌, refl, sym, ap, Bool, true, false, List, [], ◌∷◌, ◌++◌, All, All-map, ◌==◌,
  arith, ℕ, ◌+◌, Bool-cases, inl, inr, suc, zero, some, Option, Option-cases, subst, append-nil,
}
use libtabula.Prelude.Bytes.{Text, is_space, before}
use libtabula.Ssx.{Line, Place, Result, error, Error, file_exception, cannot_open}
use libtabula.Ssx.Tokens.{tokenize}
use libtabula.Ssx.Tokens.Words.{IsWord, tokenize-IsWord}
use libtabula.Ssx.Tokens.Kept.{tokenize-All}
use libtabula.Ssx.Lines.Names.{is_plain, IsName}
use libtabula.Ssx.Lines.Accepted.{Blames}
use libtabula.Ssx.Sound.{Sound, Sound-bind, Sound-if}
use libtabula.Ssx.Files.{
  State, Includer, hoist, Parsed, one, hoisted, trim_comment, fails_on, parse_line, take_tokens,
  parse_lines, opened, parse_file,
}
use libtabula.Ssx.Paths.{search, add_directory_to_search_path}
use libtabula.Ssx.Files.Post.{Post, PostParsed, Post-append}
use libtabula.Ssx.Files.Ordered.{Includes, SoundInclude, parse_line-Post}
use libtabula.Ssx.Files.OneLine.{IsKept}

-- The tokens of a line that includes a file.
abbrev pub NamesFile : List Text → Text → Type 0
NamesFile [] name = true ≡ false
NamesFile (first ∷ more) name = Includes first more name

before-All {κ} :
    (P : ℕ → Type κ) (b : ℕ) (s : Text) → All P s → All (λ c. ((c == b) ≡ false) × P c) (before b s)
unfolding before
before-All P b [] h = tt
before-All P b (c ∷ s) h = elim (Bool-cases (c == b)) [
  | inl end ↦ rw end tt
  | inr more ↦ rw more ((more, h.0), before-All P b s h.1)
]

any_text : (s : Text) → All (λ c. true ≡ true) s
any_text [] = tt
any_text (c ∷ s) = (refl, any_text s)

trim_comment-Kept : (raw : Text) → IsKept (trim_comment raw)
unfolding trim_comment
trim_comment-Kept raw =
    All-map (before b'#' (before 0 raw)) (λ c p. (p.0, p.1.0))
      (before-All _ b'#' (before 0 raw) (before-All _ 0 raw (any_text raw)))

plain : (s : Text) → All (λ c. is_space c ≡ false) s → IsKept s → All (λ c. is_plain c ≡ true) s
unfolding is_plain
plain [] h k = tt
plain (c ∷ s) h k = (rw (h.0, k.0.0, k.0.1) refl, plain s h.1 k.1)

names : (l : List Text) → All IsWord l → All IsKept l → All IsName l
names [] h k = tt
names (s ∷ l) h k = ((h.0.0, plain s h.0.1 k.0), names l h.1 k.1)

tokenize-IsName : (raw : Text) → All IsName (tokenize (trim_comment raw))
tokenize-IsName raw =
    let line = trim_comment raw in
    names (tokenize line) (tokenize-IsWord line).0 (tokenize-All _ line (trim_comment-Kept raw))

hoist-append : (p : Parsed) (ls : List Line) → hoist p ls ≡ hoist p [] ++ ls
unfolding hoist
hoist-append (one l) ls = refl
hoist-append (hoisted ms) ls = ap (λ m. m ++ ls) (sym (append-nil ms))

module _ (E : Error → Type 0) (D : Type 0) where
  take_tokens-Post :
      (include : Includer) (place : Place) (ts : List Text) (subdirective : Bool) (st : State)
      (rest : State → Result (List Line × State))
      → ((e : Error) → Blames place e → E e)
      → ((name : Text) → NamesFile ts name → SoundInclude E D include name)
      → All IsName ts
      → ((s : State) → Sound E D (Post s.last_tld_was_table) (rest s))
      → Sound E D (Post st.last_tld_was_table) (take_tokens include ts subdirective place st rest)
  unfolding take_tokens
  take_tokens-Post include place [] b st rest blame i h k = k st
  take_tokens-Post include place (first ∷ more) b st rest blame i h k =
      let seen = st.last_tld_was_table in
      Sound-bind E D (PostParsed seen) (Post seen) (parse_line include first more b place st) _
        (parse_line-Post E D place blame include first more b st i h)
        λ r p. Sound-bind E D _ (Post seen) (rest r.1) _ (k r.1) λ q later.
          subst (λ ls. Post seen (ls, q.1)) (sym (hoist-append r.0 q.0))
            (Post-append seen (hoist r.0 []) q.0 r.1 q.1 p later)

  parse_lines-Post :
      (include : Includer) (name : Text) (n : ℕ) (raws : List Text) (st : State)
      → ((k : ℕ)
          → n < k
          → k ≤ n + length raws
          → (e : Error) → Blames (record { file_name = name; line_number = k }) e
          → E e)
      → All
          (λ raw.
            (file : Text)
            → NamesFile (tokenize (trim_comment raw)) file
            → SoundInclude E D include file)
          raws
      → Sound E D (Post st.last_tld_was_table) (parse_lines include name n raws st)
  unfolding parse_lines
  parse_lines-Post include name n [] st blame i = (tt, (tt, λ e. e))
  parse_lines-Post include name n (raw ∷ raws) st blame i =
      Sound-if E D _ (fails_on raw) _ _ (λ e. (tt, (tt, λ e. e)))
        λ e.
          take_tokens-Post include _ (tokenize (trim_comment raw)) _ st _
            (blame (n + 1) (omega arith) (omega arith)) i.0 (tokenize-IsName raw)
            λ s.
              parse_lines-Post include name (n + 1) raws s
                (λ k h j. blame k (omega arith) (omega arith)) i.1

module _ (open_file : Text → Option (List Text)) (E : Error → Type 0) (D : Type 0)
    (Enough : ℕ → Text → Type 0) where
  -- What is asked of a file that is found: its lines may be blamed, and the files that it names come
  -- with the bound on the includes one lower.
  abbrev pub FileSound : ℕ → Text → List Text → Type 0
  FileSound depth name raws =
      ((k : ℕ)
        → 2 ≤ k
        → k ≤ 1 + length raws
        → (e : Error) → Blames (record { file_name = name; line_number = k }) e
        → E e)
      × All
          (λ raw. (file : Text) → NamesFile (tokenize (trim_comment raw)) file → Enough depth file)
          raws

  pub parse_file-Sound :
      ((name : Text) → Enough 0 name → D)
      → ((name : Text) → E (file_exception (cannot_open name)))
      → ((depth : ℕ) (name : Text) (path raws : List Text)
          → Enough (suc depth) name
          → search open_file name path ≡ some raws
          → FileSound depth name raws)
      → (depth : ℕ) (name : Text) (st : State) → Enough depth name
      → Sound E D (Post st.last_tld_was_table) (parse_file open_file depth name st)
  unfolding parse_file opened error
  parse_file-Sound out missing found zero name st enough = out name enough
  parse_file-Sound out missing found (suc depth) name st enough =
      elim (Option-cases (search open_file name st.search_path)) [
        | inl lost ↦ rw lost (missing name)
        | inr (raws, seen) ↦
            let file = found depth name st.search_path raws enough seen in
            rw seen (
              parse_lines-Post E D (parse_file open_file depth) name 1 raws
                (record st { search_path = add_directory_to_search_path name st.search_path })
                (λ k h j. file.0 k (omega arith) j)
                (All-map raws
                  (λ raw h inc names s.
                    parse_file-Sound out missing found depth inc s (h inc names))
                  file.1))
      ]

abbrev pub Anything : Type 0
Anything = true ≡ true

all_named :
    (raws : List Text)
    → All (λ raw. (file : Text) → NamesFile (tokenize (trim_comment raw)) file → Anything) raws
all_named [] = tt
all_named (raw ∷ raws) = (λ f h. refl, all_named raws)

-- Whatever the files hold: if a file is accepted, the texts in its lines, those of options included,
-- are not empty and have no white space, no '#' and no NUL, but that a field may have no alias, and its
-- styles are known ones. Its fields stand behind a table with nothing but fields between, where a state
-- with last_tld_was_table stands for a table in front of the lines; without it, as the constructor
-- begins, the table is among them. What is left in last_tld_was_table is true only if a table, the one
-- in front of the lines too, with nothing but fields behind it, ends the lines.
pub parse_file-Post :
    (open_file : Text → Option (List Text)) (depth : ℕ) (name : Text) (st : State)
    → Sound
        (λ e. Anything)
        Anything
        (Post st.last_tld_was_table)
        (parse_file open_file depth name st)
parse_file-Post open_file depth name st =
    parse_file-Sound open_file (λ e. Anything) Anything (λ d n. Anything) (λ n u. u) (λ n. refl)
      (λ d n path raws u found. (λ k h j e b. refl, all_named raws)) depth name st refl
