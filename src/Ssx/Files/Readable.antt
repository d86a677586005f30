-- ===== src/Ssx/Files/Readable.antt =====
-- Lines that can be read back from what is printed for them.
use libtabula.Prelude.{
  ◌≡◌, refl, sym, append-nil, ap, Bool, true, false, leb, ◌&&◌, List, [], ◌∷◌, ◌++◌, All,
  if◌then◌else◌, arith, length,
}
use libtabula.Prelude.Bytes.{Text, codes, is_space}
use libtabula.Ssx.{
  Style, camel_case_lower, camel_case_upper, overloaded, stroustrup, unknown, Value, ft_tinyint,
  ft_smallint, ft_mediumint, ft_bigint, ft_float, ft_double, ft_string, ft_blob, ft_date,
  ft_datetime, ft_time, ft_set, Field, Table, Line, accessor_style, exception_on_schema_mismatch,
  header_extension, implementation_extension, field, table,
}
use libtabula.Ssx.Tokens.Words.{spaced}
use libtabula.Ssx.Lines.Names.{is_plain, IsName, IsAlias, IsReadable, IsAlias-IsName}
use libtabula.Ssx.Options.{style_name, type_name}
use libtabula.Ssx.Lines.{print}
use libtabula.Ssx.Lines.Printed.{
  flag_tokens, named_tokens, flags_tokens, field_tokens, table_tokens, print_field-spaced,
  print_table-spaced,
}

-- An option whose value is the one that is printed for it.
unfoldable pub canonical : Line → Line
canonical (accessor_style value style) = accessor_style (style_name style) style
canonical (exception_on_schema_mismatch value throws) =
    exception_on_schema_mismatch (if throws then codes "true" else codes "false") throws
canonical (header_extension value) = header_extension value
canonical (implementation_extension value) = implementation_extension value
canonical (field f) = field f
canonical (table t) = table t

-- Fields stand behind a table, with no option between them.
abbrev pub InOrder : Bool → List Line → Type 0
InOrder seen [] = Unit
InOrder seen (field f ∷ ls) = (seen ≡ true) × InOrder seen ls
InOrder seen (table t ∷ ls) = InOrder true ls
InOrder seen (accessor_style v s ∷ ls) = InOrder false ls
InOrder seen (exception_on_schema_mismatch v b ∷ ls) = InOrder false ls
InOrder seen (header_extension v ∷ ls) = InOrder false ls
InOrder seen (implementation_extension v ∷ ls) = InOrder false ls

abbrev pub first_token : Line → Text
first_token (field f) = codes "field"
first_token (table t) = codes "table"
first_token (accessor_style v s) = codes "option"
first_token (exception_on_schema_mismatch v b) = codes "option"
first_token (header_extension v) = codes "option"
first_token (implementation_extension v) = codes "option"

abbrev pub more_tokens : Line → List Text
more_tokens (field f) = field_tokens f
more_tokens (table t) = table_tokens t
more_tokens (accessor_style v s) = codes "accessor_style" ∷ style_name s ∷ []
more_tokens (exception_on_schema_mismatch v b) =
    codes "exception_on_schema_mismatch" ∷ (if b then codes "true" else codes "false") ∷ []
more_tokens (header_extension v) = codes "header_extension" ∷ v ∷ []
more_tokens (implementation_extension v) = codes "implementation_extension" ∷ v ∷ []

option-spaced : (name value : Text) → name ++ 32 ∷ value ≡ name ++ 32 ∷ (value ++ [])
option-spaced name value = ap (λ v. name ++ 32 ∷ v) (sym (append-nil value))

pub print-spaced : (l : Line) → print l ≡ first_token l ++ spaced (more_tokens l)
unfolding print
print-spaced (field f) = print_field-spaced f
print-spaced (table t) = print_table-spaced t
print-spaced (accessor_style v s) = option-spaced (codes "option accessor_style") (style_name s)
print-spaced (exception_on_schema_mismatch v b) =
    option-spaced (codes "option exception_on_schema_mismatch")
      (if b then codes "true" else codes "false")
print-spaced (header_extension v) = option-spaced (codes "option header_extension") v
print-spaced (implementation_extension v) =
    option-spaced (codes "option implementation_extension") v

flag_names :
    (b : Bool) (value : Text) (l : List Text)
    → IsName value
    → All IsName l
    → All IsName (flag_tokens b value l)
unfolding is_plain is_space
flag_names true value l h k = ((omega arith, (refl, (refl, tt))), (h, k))
flag_names false value l h k = k

named_names :
    (attr value : Text) (l : List Text)
    → IsName attr
    → IsAlias value
    → All IsName l
    → All IsName (named_tokens attr value l)
named_names attr [] l h a k = k
named_names attr (c ∷ value) l h a k = (h, (a, k))

type_name-IsName : (v : Value) → IsName (type_name v)
unfolding type_name is_plain is_space
type_name-IsName ft_tinyint = ground arith
type_name-IsName ft_smallint = ground arith
type_name-IsName ft_mediumint = ground arith
type_name-IsName ft_bigint = ground arith
type_name-IsName ft_float = ground arith
type_name-IsName ft_double = ground arith
type_name-IsName ft_string = ground arith
type_name-IsName ft_blob = ground arith
type_name-IsName ft_date = ground arith
type_name-IsName ft_datetime = ground arith
type_name-IsName ft_time = ground arith
type_name-IsName ft_set = ground arith

style_name-IsName : (s : Style) → IsName (style_name s)
unfolding style_name is_plain is_space
style_name-IsName camel_case_lower = ground arith
style_name-IsName camel_case_upper = ground arith
style_name-IsName overloaded = ground arith
style_name-IsName stroustrup = ground arith
style_name-IsName unknown = ground arith

throws-IsName : (b : Bool) → IsName (if b then codes "true" else codes "false")
unfolding is_plain is_space
throws-IsName true = ground arith
throws-IsName false = ground arith

-- The words that the code prints are names, which is tried out.
abbrev all_plain : Text → Bool
all_plain [] = true
all_plain (c ∷ s) = is_plain c && all_plain s

all_plain-All : (s : Text) → all_plain s ≡ true → All (λ c. is_plain c ≡ true) s
all_plain-All [] h = tt
all_plain-All (c ∷ s) h = (ground arith, all_plain-All s (ground arith))

keyword : (s : Text) → leb 1 (length s) && all_plain s ≡ true → IsName s
keyword s h = (ground arith, all_plain-All s (ground arith))

flags_names : (f : Field) → IsAlias f.alias → All IsName (flags_tokens f)
unfolding is_plain is_space
flags_names f h = flag_names f.is_autoinc (codes "autoinc") _ (keyword (codes "autoinc") refl) (
    flag_names f.is_key (codes "key") _ (keyword (codes "key") refl) (
      flag_names f.is_null (codes "null") _ (keyword (codes "null") refl) (
        flag_names f.is_unsigned (codes "unsigned") _ (keyword (codes "unsigned") refl)
          (named_names (codes "alias") f.alias [] (keyword (codes "alias") refl) h tt))))

field_names : (f : Field) → IsName f.name → IsAlias f.alias → All IsName (field_tokens f)
unfolding is_plain is_space
field_names f h a = (h, (keyword (codes "type") refl, (type_name-IsName f.type, flags_names f a)))

table_names :
    (t : Table) → IsName t.name → IsName t.alias → IsName t.filebase → All IsName (table_tokens t)
unfolding is_plain is_space
table_names t h a b = (
  h,
  named_names (codes "alias") t.alias _ (keyword (codes "alias") refl) (IsAlias-IsName t.alias a) (
      named_names (codes "filebase") t.filebase [] (keyword (codes "filebase") refl)
        (IsAlias-IsName t.filebase b) tt),
)

pub tokens-IsName : (l : Line) → IsReadable l → All IsName (first_token l ∷ more_tokens l)
unfolding is_plain is_space
tokens-IsName (field f) h = (keyword (codes "field") refl, field_names f h.0 h.1)
tokens-IsName (table t) h = (keyword (codes "table") refl, table_names t h.0 h.1.0 h.1.1)
tokens-IsName (accessor_style v s) h = (
  keyword (codes "option") refl,
  (keyword (codes "accessor_style") refl, (style_name-IsName s, tt)),
)
tokens-IsName (exception_on_schema_mismatch v b) h = (
  keyword (codes "option") refl,
  (keyword (codes "exception_on_schema_mismatch") refl, (throws-IsName b, tt)),
)
tokens-IsName (header_extension v) h =
    (keyword (codes "option") refl, (keyword (codes "header_extension") refl, (h, tt)))
tokens-IsName (implementation_extension v) h =
    (keyword (codes "option") refl, (keyword (codes "implementation_extension") refl, (h, tt)))
