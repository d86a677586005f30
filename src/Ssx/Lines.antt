-- ===== src/Ssx/Lines.antt =====
-- The fields and the tables of an SSQLS v2 file, and how lines are printed: Field, Table and
-- operator<< of src/ssx/parsev2.cpp and parsev2.h. Field::parse() also warns on cerr of a field
-- that has no type; that is left out.
pub mod Printed
pub mod Names
pub mod Accepted
use libtabula.Prelude.{Bool, true, false, not, ◌&&◌, ◌||◌, List, [], ◌∷◌, ◌++◌, if◌then◌else◌}
use libtabula.Prelude.Bytes.{Text, codes, text_eq, starts_with, has_text}
use libtabula.Ssx.{
  Style, camel_case_lower, camel_case_upper, overloaded, stroustrup, unknown, Value, ft_tinyint,
  ft_smallint, ft_mediumint, ft_bigint, ft_float, ft_double, ft_string, ft_blob, ft_date,
  ft_datetime, ft_time, ft_set, Field, Table, Line, accessor_style, exception_on_schema_mismatch,
  header_extension, implementation_extension, field, table, field_arguments, field_subdirective,
  field_place, table_arguments, table_subdirective, include_arguments, include_subdirective,
  option_arguments, option_subdirective, unknown_style, unknown_option, unrecognized, cannot_open,
  unknown_is, bad_field_attribute, bad_table_attribute, Error, file_exception, parse_exception,
  Place, Result, ok, failed, too_deep, ◌>>=◌, error, parse_error, stream_error,
}
use libtabula.Ssx.Tokens.{str_to_lwr}
use libtabula.Ssx.Options.{type_of, type_name, style_name}

-- The local variables of Field::parse(), and an is-attribute set in them.
pub record Attributes : Type 0 where
  pub type : Text
  pub alias : Text
  pub is_autoinc : Bool
  pub is_key : Bool
  pub is_null : Bool
  pub is_unsigned : Bool

unfoldable pub is_attribute : Text → Text → Attributes → Place → Result Attributes
is_attribute name value a place =
    if text_eq value (codes "autoinc")
    then ok (record a { is_autoinc = true })
    else if text_eq value (codes "key")
    then ok (record a { is_key = true })
    else if text_eq value (codes "null")
    then ok (record a { is_null = true })
    else if text_eq value (codes "unsigned")
    then ok (record a { is_unsigned = true })
    else stream_error place (unknown_is value name)

unfoldable pub field_attribute : Text → Text → Text → Attributes → Place → Result Attributes
unfolding is_attribute
field_attribute name attr value a place =
    if text_eq attr (codes "alias")
    then ok (record a { alias = value })
    else if text_eq attr (codes "is")
    then is_attribute name value a place
    else if text_eq attr (codes "type")
    then ok (record a { type = value })
    else stream_error place (bad_field_attribute attr name)

-- The loop takes two tokens at a time and leaves a last one that has no partner.
unfoldable pub field_attributes : Text → List Text → Attributes → Place → Result Attributes
unfolding field_attribute str_to_lwr
field_attributes name [] a place = ok a
field_attributes name (attr ∷ []) a place = ok a
field_attributes name (attr ∷ value ∷ tl) a place = do
  b ← field_attribute name (str_to_lwr attr) value a place
  field_attributes name tl b place

unfoldable pub no_attributes : Attributes
no_attributes = record {
  type = [];
  alias = [];
  is_autoinc = false;
  is_key = false;
  is_null = false;
  is_unsigned = false;
}

-- The constructor of Field.
unfoldable pub field_with : Text → Attributes → Field
unfolding type_of
field_with name a = record {
  name = name;
  type = type_of a.type;
  is_autoinc = a.is_autoinc;
  is_key = a.is_key;
  is_null = a.is_null;
  is_unsigned = a.is_unsigned;
  alias = a.alias;
}

unfoldable pub parse_field : List Text → Bool → Place → Result Field
unfolding field_with field_attributes no_attributes
parse_field [] subdirective place = parse_error place field_arguments
parse_field (directive ∷ []) subdirective place = parse_error place field_arguments
parse_field (directive ∷ name ∷ tl) false place = parse_error place field_subdirective
parse_field (directive ∷ name ∷ tl) true place = do
  a ← field_attributes name tl no_attributes place
  ok (field_with name a)

-- What print() adds for an attribute that is set, and for a text that is not empty.
unfoldable pub print_if : Bool → Text → Text → Text
print_if true s rest = s ++ rest
print_if false s rest = rest

unfoldable pub print_named : Text → Text → Text → Text
print_named s [] rest = rest
print_named s (c ∷ value) rest = s ++ c ∷ (value ++ rest)

unfoldable pub print_field : Field → Text
unfolding type_name print_if print_named
print_field f =
    let flags = print_if f.is_autoinc (codes " is autoinc") (
      print_if f.is_key (codes " is key") (
        print_if f.is_null (codes " is null") (
          print_if f.is_unsigned (codes " is unsigned")
            (print_named (codes " alias ") f.alias [])))) in
    codes "field " ++ (f.name ++ (codes " type " ++ (type_name f.type ++ flags)))

-- The constructor of Table: an alias or a filebase that is empty is the name.
unfoldable pub or_name : Text → Text → Text
or_name name [] = name
or_name name (c ∷ s) = c ∷ s

unfoldable pub table_with : Text → Text → Text → Table
unfolding or_name
table_with name alias filebase = record {
  name = name;
  alias = or_name name alias;
  filebase = or_name name filebase;
}

-- The loop of Table::parse(), with its local variables alias and filebase.
unfoldable pub table_attributes : Text → List Text → Text → Text → Place → Result Table
unfolding table_with str_to_lwr
table_attributes name [] alias filebase place = ok (table_with name alias filebase)
table_attributes name (attr ∷ []) alias filebase place = ok (table_with name alias filebase)
table_attributes name (attr ∷ value ∷ tl) alias filebase place =
    let with_alias = table_attributes name tl value filebase place in
    let with_filebase = table_attributes name tl alias value place in
    if text_eq (str_to_lwr attr) (codes "alias")
    then with_alias
    else if text_eq (str_to_lwr attr) (codes "filebase")
    then with_filebase
    else stream_error place (bad_table_attribute (str_to_lwr attr) name)

unfoldable pub parse_table : List Text → Bool → Place → Result Table
unfolding table_attributes
parse_table [] subdirective place = parse_error place table_arguments
parse_table (directive ∷ []) subdirective place = parse_error place table_arguments
parse_table (directive ∷ name ∷ tl) true place = parse_error place table_subdirective
parse_table (directive ∷ name ∷ tl) false place = table_attributes name tl [] [] place

unfoldable pub print_table : Table → Text
unfolding print_named
print_table t =
    let named =
      print_named (codes " alias ") t.alias (print_named (codes " filebase ") t.filebase []) in
    codes "table " ++ (t.name ++ named)

-- operator<< on a line: the print() of its class.
unfoldable pub print : Line → Text
unfolding style_name print_field print_table
print (accessor_style value style) = codes "option accessor_style " ++ style_name style
print (exception_on_schema_mismatch value throws) =
    codes "option exception_on_schema_mismatch " ++ (if throws then codes "true" else codes "false")
print (header_extension value) = codes "option header_extension " ++ value
print (implementation_extension value) = codes "option implementation_extension " ++ value
print (field f) = print_field f
print (table t) = print_table t
