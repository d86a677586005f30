-- ===== src/Ssx/Options.antt =====
-- The options and the field types of an SSQLS v2 file: Option and its subclasses and Field::Type of
-- ParseV2, src/ssx/parsev2.cpp and parsev2.h.
use libtabula.Prelude.{Bool, not, ◌||◌, List, [], ◌∷◌, if◌then◌else◌}
use libtabula.Prelude.Bytes.{Text, codes, text_eq, starts_with, has_text}
use libtabula.Ssx.{
  Style, camel_case_lower, camel_case_upper, overloaded, stroustrup, unknown, Value, ft_tinyint,
  ft_smallint, ft_mediumint, ft_bigint, ft_float, ft_double, ft_string, ft_blob, ft_date,
  ft_datetime, ft_time, ft_set, Line, accessor_style, exception_on_schema_mismatch,
  header_extension, implementation_extension, option_arguments, option_subdirective, unknown_style,
  unknown_option, Place, Result, ok, ◌>>=◌, parse_error, stream_error,
}
use libtabula.Ssx.Tokens.{str_to_lwr}

unfoldable pub parse_type : Text → Place → Result Style
parse_type style place =
    if text_eq style (codes "getX")
    then ok camel_case_lower
    else if text_eq style (codes "GetX")
    then ok camel_case_upper
    else if text_eq style (codes "get_x")
    then ok stroustrup
    else if text_eq style (codes "x")
    then ok overloaded
    else stream_error place (unknown_style style)

unfoldable pub style_name : Style → Text
style_name camel_case_lower = codes "getX"
style_name camel_case_upper = codes "GetX"
style_name overloaded = codes "x"
style_name stroustrup = codes "get_x"
style_name unknown = codes "UNKNOWN"

unfoldable pub parse_bool : Text → Bool
unfolding str_to_lwr
parse_bool value =
    let b = str_to_lwr value in
    not (
      text_eq b (codes "0")
      || text_eq b (codes "false")
      || text_eq b (codes "no")
      || text_eq b (codes "off"))

-- The constructor of AccessorStyleOption.
unfoldable pub style_option : Text → Place → Result Line
unfolding parse_type
style_option value place = do style ← parse_type value place; ok (accessor_style value style)

unfoldable pub named_option : Text → Text → Place → Result Line
unfolding style_option parse_bool
named_option name value place =
    if text_eq name (codes "accessor_style")
    then style_option value place
    else if text_eq name (codes "exception_on_schema_mismatch")
    then ok (exception_on_schema_mismatch value (parse_bool value))
    else if text_eq name (codes "header_extension")
    then ok (header_extension value)
    else if text_eq name (codes "implementation_extension")
    then ok (implementation_extension value)
    else stream_error place (unknown_option name)

unfoldable pub parse_option : List Text → Bool → Place → Result Line
unfolding named_option
parse_option (directive ∷ name ∷ value ∷ []) subdirective place =
    if subdirective then parse_error place option_subdirective else named_option name value place
parse_option tl subdirective place = parse_error place option_arguments

-- The integers, of which the type's text has the name in it.
unfoldable pub integer_of : Text → Value
integer_of ls =
    if starts_with (codes "tiny") ls || text_eq ls (codes "int1")
    then ft_tinyint
    else if starts_with (codes "small") ls || text_eq ls (codes "int2")
    then ft_smallint
    else if starts_with (codes "big") ls || text_eq ls (codes "int8")
    then ft_bigint
    else ft_mediumint

unfoldable pub lowered_type : Text → Value
unfolding integer_of
lowered_type ls =
    if has_text (codes "blob") ls || has_text (codes "varbinary") ls
    then ft_blob
    else if starts_with (codes "bool") ls
    then ft_tinyint
    else if starts_with (codes "date") ls
    then if text_eq ls (codes "datetime") then ft_datetime else ft_date
    else if has_text (codes "decimal") ls
        || has_text (codes "double") ls
        || has_text (codes "fixed") ls
        || has_text (codes "numeric") ls
    then ft_double
    else if has_text (codes "float") ls
    then ft_float
    else if has_text (codes "int") ls
    then integer_of ls
    else if has_text (codes "set") ls
    then ft_set
    else if starts_with (codes "time") ls
    then if text_eq ls (codes "timestamp") then ft_datetime else ft_time
    else ft_string

-- Type::Type().
unfoldable pub type_of : Text → Value
unfolding lowered_type str_to_lwr
type_of s = lowered_type (str_to_lwr s)

unfoldable pub type_name : Value → Text
type_name ft_bigint = codes "bigint"
type_name ft_blob = codes "blob"
type_name ft_date = codes "date"
type_name ft_datetime = codes "datetime"
type_name ft_double = codes "double"
type_name ft_float = codes "float"
type_name ft_mediumint = codes "mediumint"
type_name ft_set = codes "set"
type_name ft_smallint = codes "smallint"
type_name ft_string = codes "string"
type_name ft_time = codes "time"
type_name ft_tinyint = codes "tinyint"
