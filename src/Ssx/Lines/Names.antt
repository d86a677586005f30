-- ===== src/Ssx/Lines/Names.antt =====
-- Names, and lines whose texts are names.
use libtabula.Prelude.{◌≡◌, ◌≢◌, Bool, true, not, ◌||◌, [], ◌∷◌, All, ◌==◌, ℕ, ◌≤◌, length}
use libtabula.Prelude.Bytes.{Text, is_space}
use libtabula.Ssx.{
  unknown, Line, accessor_style, exception_on_schema_mismatch, header_extension,
  implementation_extension, field, table,
}
use libtabula.Prelude.{not}
use libtabula.Prelude.Bytes.{is_space}

-- A character that does not end a word, a line or what is kept of a line.
unfoldable pub is_plain : ℕ → Bool
unfolding is_space
is_plain c = not (is_space c || c == b'#' || c == 0)

abbrev pub IsName : Text → Type 0
IsName s = (1 ≤ length s) × All (λ c. is_plain c ≡ true) s

-- An alias may be missing.
abbrev pub IsAlias : Text → Type 0
IsAlias [] = Unit
IsAlias (c ∷ s) = IsName (c ∷ s)

-- Names without white space, '#' and NUL, and a style that is known.
abbrev pub IsReadable : Line → Type 0
IsReadable (accessor_style value style) = style ≢ unknown
IsReadable (exception_on_schema_mismatch value throws) = Unit
IsReadable (header_extension value) = IsName value
IsReadable (implementation_extension value) = IsName value
IsReadable (field f) = IsName f.name × IsAlias f.alias
IsReadable (table t) = IsName t.name × (IsName t.alias × IsName t.filebase)

-- A line that is read: the values of all options are names, too.
abbrev pub IsAccepted : Line → Type 0
IsAccepted (accessor_style value style) = IsName value × (style ≢ unknown)
IsAccepted (exception_on_schema_mismatch value throws) = IsName value
IsAccepted (header_extension value) = IsName value
IsAccepted (implementation_extension value) = IsName value
IsAccepted (field f) = IsName f.name × IsAlias f.alias
IsAccepted (table t) = IsName t.name × (IsName t.alias × IsName t.filebase)

pub IsAlias-IsName : (s : Text) → IsName s → IsAlias s
IsAlias-IsName [] h = tt
IsAlias-IsName (c ∷ s) h = h
