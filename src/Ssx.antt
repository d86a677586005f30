-- ===== src/Ssx.antt =====
-- The SSQLS v2 translator, src/ssx: what ParseV2 (parsev2.h) makes of a file, and its errors. A file
-- is the list of its lines, without their newlines.
pub mod Sound
pub mod Tokens
pub mod Options
pub mod Lines
pub mod Paths
pub mod Files
pub mod Tests
use libtabula.Prelude.{ℕ, Bool, List}
use libtabula.Prelude.Bytes.{Text}

-- ParseV2::AccessorStyleOption::Type.
pub data Style : Type 0 where
  camel_case_lower camel_case_upper overloaded stroustrup unknown : Style

-- ParseV2::Field::Type::Value.
pub data Value : Type 0 where
  ft_tinyint ft_smallint ft_mediumint ft_bigint ft_float ft_double : Value
  ft_string ft_blob ft_date ft_datetime ft_time ft_set : Value

pub record Field : Type 0 where
  pub name : Text
  pub type : Value
  pub is_autoinc : Bool
  pub is_key : Bool
  pub is_null : Bool
  pub is_unsigned : Bool
  pub alias : Text

pub record Table : Type 0 where
  pub name : Text
  pub alias : Text
  pub filebase : Text

-- The subclasses of Line that stay in a list of lines. An option keeps its value, and what the value
-- was found to mean.
pub data Line : Type 0 where
  accessor_style : Text → Style → Line
  exception_on_schema_mismatch : Text → Bool → Line
  header_extension implementation_extension : Text → Line
  field : Field → Line
  table : Table → Line

-- The messages, with the texts that they quote.
pub data Message : Type 0 where
  field_arguments field_subdirective field_place : Message
  table_arguments table_subdirective : Message
  include_arguments include_subdirective : Message
  option_arguments option_subdirective : Message
  unknown_style unknown_option unrecognized cannot_open : Text → Message
  unknown_is bad_field_attribute bad_table_attribute : Text → Text → Message

-- FileException, and ParseException with the file and the line.
pub data Error : Type 0 where
  file_exception : Message → Error
  parse_exception : Message → Text → ℕ → Error

-- What the parser knows of the place where it is: file_name_ and line_number_.
pub record Place : Type 0 where
  pub file_name : Text
  pub line_number : ℕ

-- `too_deep` says that the includes are nested deeper than the bound of the model.
pub data Result {ℓ} (A : Type ℓ) : Type ℓ where
  ok : A → Result A
  failed : Error → Result A
  too_deep : Result A

infixl 5 ◌>>=◌
abbrev pub ◌>>=◌ {ℓ κ} : {A : Type ℓ} {B : Type κ} → Result A → (A → Result B) → Result B
ok a >>= f = f a
failed e >>= f = failed e
too_deep >>= f = too_deep

-- File::error() and File::parse_error(). The overload of parse_error() that takes a stream calls
-- error() and so throws the other exception: `stream_error`.
unfoldable pub error {ℓ} : {A : Type ℓ} → Message → Result A
error m = failed (file_exception m)

unfoldable pub parse_error {ℓ} : {A : Type ℓ} → Place → Message → Result A
parse_error place m = failed (parse_exception m place.file_name place.line_number)

unfoldable pub stream_error {ℓ} : {A : Type ℓ} → Place → Message → Result A
unfolding error
stream_error place m = error m
