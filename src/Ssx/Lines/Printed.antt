-- ===== src/Ssx/Lines/Printed.antt =====
-- A line that is printed is read back.
use libtabula.Prelude.{◌≡◌, refl, ap, ◌∙◌, Bool, true, false, List, [], ◌∷◌, ◌++◌, append_assoc}
use libtabula.Prelude.Bytes.{Text, codes, text_eq, to_lower, is_upper, starts_with, has_text}
use libtabula.Ssx.{
  Value, ft_tinyint, ft_smallint, ft_mediumint, ft_bigint, ft_float, ft_double, ft_string, ft_blob,
  ft_date, ft_datetime, ft_time, ft_set, Field, Table, Place, Result, ok, ◌>>=◌,
}
use libtabula.Ssx.Tokens.{str_to_lwr}
use libtabula.Ssx.Tokens.Words.{spaced}
use libtabula.Ssx.Options.{integer_of, lowered_type, type_of, type_name}
use libtabula.Ssx.Lines.{
  Attributes, is_attribute, field_attribute, field_attributes, no_attributes, field_with,
  parse_field, print_if, print_named, print_field, table_with, table_attributes, parse_table,
  print_table,
}

-- The name that a type is printed with stands for that type.
pub type_of-type_name : (v : Value) → type_of (type_name v) ≡ v
unfolding type_of type_name lowered_type integer_of str_to_lwr to_lower is_upper starts_with
    has_text text_eq
type_of-type_name ft_tinyint = refl
type_of-type_name ft_smallint = refl
type_of-type_name ft_mediumint = refl
type_of-type_name ft_bigint = refl
type_of-type_name ft_float = refl
type_of-type_name ft_double = refl
type_of-type_name ft_string = refl
type_of-type_name ft_blob = refl
type_of-type_name ft_date = refl
type_of-type_name ft_datetime = refl
type_of-type_name ft_time = refl
type_of-type_name ft_set = refl

-- The tokens of a field behind its name.
abbrev pub flag_tokens : Bool → Text → List Text → List Text
flag_tokens true value rest = codes "is" ∷ value ∷ rest
flag_tokens false value rest = rest

abbrev pub named_tokens : Text → Text → List Text → List Text
named_tokens attr [] rest = rest
named_tokens attr (c ∷ value) rest = attr ∷ (c ∷ value) ∷ rest

abbrev pub flags_tokens : Field → List Text
flags_tokens f = flag_tokens f.is_autoinc (codes "autoinc") (
    flag_tokens f.is_key (codes "key") (
      flag_tokens f.is_null (codes "null")
        (flag_tokens f.is_unsigned (codes "unsigned") (named_tokens (codes "alias") f.alias []))))

abbrev pub field_tokens : Field → List Text
field_tokens f = f.name ∷ codes "type" ∷ type_name f.type ∷ flags_tokens f

-- The tokens of a flag or of a named value are printed as the code prints them.
print_if-spaced :
    (b : Bool) (value : Text) (rest : Text) (l : List Text)
    → rest ≡ spaced l
    → print_if b (codes " is " ++ value) rest ≡ spaced (flag_tokens b value l)
unfolding print_if
print_if-spaced true value rest l h = ap (λ r. codes " is " ++ (value ++ r)) h
print_if-spaced false value rest l h = h

print_named-spaced :
    (attr value rest : Text) (l : List Text)
    → rest ≡ spaced l
    → print_named (32 ∷ (attr ++ 32 ∷ [])) value rest ≡ spaced (named_tokens attr value l)
unfolding print_named
print_named-spaced attr [] rest l h = h
print_named-spaced attr (c ∷ value) rest l h =
    ap (λ t. 32 ∷ t) (append_assoc attr (32 ∷ []) (c ∷ (value ++ rest)))
    ∙ ap (λ r. 32 ∷ (attr ++ 32 ∷ c ∷ (value ++ r))) h

flags-spaced :
    (f : Field)
    → print_if f.is_autoinc (codes " is autoinc") (
        print_if f.is_key (codes " is key") (
          print_if f.is_null (codes " is null") (
            print_if f.is_unsigned
              (codes " is unsigned")
              (print_named (codes " alias ") f.alias []))))
      ≡ spaced (flags_tokens f)
flags-spaced f = print_if-spaced f.is_autoinc (codes "autoinc") _ _ (
    print_if-spaced f.is_key (codes "key") _ _ (
      print_if-spaced f.is_null (codes "null") _ _ (
        print_if-spaced f.is_unsigned (codes "unsigned") _ _
          (print_named-spaced (codes "alias") f.alias [] [] refl))))

pub print_field-spaced : (f : Field) → print_field f ≡ codes "field" ++ spaced (field_tokens f)
unfolding print_field
print_field-spaced f =
    ap (λ r. codes "field " ++ (f.name ++ (codes " type " ++ (type_name f.type ++ r))))
      (flags-spaced f)

abbrev pub table_tokens : Table → List Text
table_tokens t =
    t.name ∷ named_tokens (codes "alias") t.alias (named_tokens (codes "filebase") t.filebase [])

pub print_table-spaced : (t : Table) → print_table t ≡ codes "table" ++ spaced (table_tokens t)
unfolding print_table
print_table-spaced t =
    ap (λ r. codes "table " ++ (t.name ++ r))
      (print_named-spaced (codes "alias") t.alias _ _
        (print_named-spaced (codes "filebase") t.filebase [] [] refl))

abbrev attributes_of : Text → Text → Bool → Bool → Bool → Bool → Attributes
attributes_of type alias autoinc key null unsigned = record {
  type = type;
  alias = alias;
  is_autoinc = autoinc;
  is_key = key;
  is_null = null;
  is_unsigned = unsigned;
}

-- The tokens of the attributes set the local variables one by one.
module _ (name type : Text) (place : Place) where
  read : List Text → Attributes → Result Attributes
  unfolding field_attributes
  read tl a = field_attributes name tl a place

  read_autoinc :
      (b : Bool) (tl : List Text)
      → read (flag_tokens b (codes "autoinc") tl) (attributes_of type [] false false false false)
        ≡ read tl (attributes_of type [] b false false false)
  unfolding read field_attributes field_attribute is_attribute text_eq str_to_lwr to_lower is_upper
  read_autoinc true tl = refl
  read_autoinc false tl = refl

  read_key :
      (i b : Bool) (tl : List Text)
      → read (flag_tokens b (codes "key") tl) (attributes_of type [] i false false false)
        ≡ read tl (attributes_of type [] i b false false)
  unfolding read field_attributes field_attribute is_attribute text_eq str_to_lwr to_lower is_upper
  read_key i true tl = refl
  read_key i false tl = refl

  read_null :
      (i k b : Bool) (tl : List Text)
      → read (flag_tokens b (codes "null") tl) (attributes_of type [] i k false false)
        ≡ read tl (attributes_of type [] i k b false)
  unfolding read field_attributes field_attribute is_attribute text_eq str_to_lwr to_lower is_upper
  read_null i k true tl = refl
  read_null i k false tl = refl

  read_unsigned :
      (i k n b : Bool) (tl : List Text)
      → read (flag_tokens b (codes "unsigned") tl) (attributes_of type [] i k n false)
        ≡ read tl (attributes_of type [] i k n b)
  unfolding read field_attributes field_attribute is_attribute text_eq str_to_lwr to_lower is_upper
  read_unsigned i k n true tl = refl
  read_unsigned i k n false tl = refl

  read_alias :
      (i k n u : Bool) (alias : Text)
      → read (named_tokens (codes "alias") alias []) (attributes_of type [] i k n u)
        ≡ ok (attributes_of type alias i k n u)
  unfolding read field_attributes field_attribute text_eq str_to_lwr to_lower is_upper
  read_alias i k n u [] = refl
  read_alias i k n u (c ∷ alias) = refl

read_flags :
    (f : Field) (place : Place)
    → read f.name
        (type_name f.type)
        place
        (flags_tokens f)
        (attributes_of (type_name f.type) [] false false false false)
      ≡ ok (attributes_of (type_name f.type) f.alias f.is_autoinc f.is_key f.is_null f.is_unsigned)
read_flags f place =
    let t = type_name f.type in
    read_autoinc f.name t place f.is_autoinc _
    ∙ read_key f.name t place f.is_autoinc f.is_key _
    ∙ read_null f.name t place f.is_autoinc f.is_key f.is_null _
    ∙ read_unsigned f.name t place f.is_autoinc f.is_key f.is_null f.is_unsigned _
    ∙ read_alias f.name t place f.is_autoinc f.is_key f.is_null f.is_unsigned f.alias

pub parse_field-tokens :
    (f : Field) (place : Place) → parse_field (codes "field" ∷ field_tokens f) true place ≡ ok f
unfolding parse_field field_with field_attributes field_attribute text_eq str_to_lwr to_lower
    is_upper no_attributes read
parse_field-tokens f place =
    ap (λ r. r >>= λ a. ok (field_with f.name a)) (read_flags f place)
    ∙ ap (λ v. ok (record f { type = v })) (type_of-type_name f.type)

pub parse_table-tokens :
    (t : Table) (place : Place)
    → parse_table (codes "table" ∷ table_tokens t) false place
      ≡ ok (table_with t.name t.alias t.filebase)
unfolding parse_table table_attributes text_eq str_to_lwr to_lower is_upper
parse_table-tokens t place = tables t.alias t.filebase
  where
    tables :
        (alias filebase : Text)
        → parse_table
            (codes "table"
              ∷ t.name
              ∷ named_tokens (codes "alias") alias (named_tokens (codes "filebase") filebase []))
            false
            place
          ≡ ok (table_with t.name alias filebase)
    tables [] [] = refl
    tables [] (d ∷ filebase) = refl
    tables (c ∷ alias) [] = refl
    tables (c ∷ alias) (d ∷ filebase) = refl
