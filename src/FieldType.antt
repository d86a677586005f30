-- ===== src/FieldType.antt =====
-- FieldType::annotate() and its table of types, src/field_type.h and src/field_type.cpp. A C++ type is
-- the name that the table has for it.
pub mod Lookup
pub mod Identity
pub mod Tests
use Prim.Native.Nat.{bit_and}
use Prim.Native.String.{String}
use libtabula.Prelude.{
  ltb, ℕ, ◌+◌, ◌*◌, ◌%◌, ◌≡◌, refl, Bool, true, false, List, [], ◌∷◌, Option, none, some, ◌==◌,
  if◌then◌else◌,
}
use libtabula.Prelude.Bytes.{Text, codes}
use libtabula.Adapter.{
  Base, ft_unsupported, ft_null, ft_integer, ft_real, ft_text, ft_blob, ft_date, ft_time,
  ft_datetime, ft_timestamp, ft_decimal, ft_enum, ft_boolean, ft_set,
}

-- The values of the enumeration.
unfoldable pub base_code : Base → ℕ
base_code ft_unsupported = 0
base_code ft_null = 1
base_code ft_integer = 2
base_code ft_real = 3
base_code ft_text = 4
base_code ft_blob = 5
base_code ft_date = 20
base_code ft_time = 21
base_code ft_datetime = 22
base_code ft_timestamp = 23
base_code ft_decimal = 24
base_code ft_enum = 25
base_code ft_boolean = 26
base_code ft_set = 27

abbrev pub tf_default : ℕ
tf_default = 1

abbrev pub tf_unsigned : ℕ
tf_unsigned = 2

abbrev pub tf_null : ℕ
tf_null = 4

pub record Annotated : Type 0 where
  pub sql_name : Text
  pub c_type : Text
  pub base_type : Base
  pub flags : ℕ
  pub best_guess : Bool

abbrev entry : String → String → Base → ℕ → Bool → Annotated
entry name c base f best = record {
  sql_name = codes name;
  c_type = codes c;
  base_type = base;
  flags = f;
  best_guess = best;
}

-- types_.
unfoldable pub types : List Annotated
types =
    entry "TINYINT NOT NULL" "sql_tinyint" ft_integer (tf_default) false
    ∷ entry "TINYINT UNSIGNED NOT NULL" "sql_tinyint_unsigned" ft_integer (tf_unsigned) false
    ∷ entry "SMALLINT NOT NULL" "sql_smallint" ft_integer (tf_default) false
    ∷ entry "SMALLINT UNSIGNED NOT NULL" "sql_smallint_unsigned" ft_integer (tf_unsigned) false
    ∷ entry "MEDIUMINT NOT NULL" "sql_mediumint" ft_integer (tf_unsigned) false
    ∷ entry "MEDIUMINT UNSIGNED NOT NULL" "sql_mediumint_unsigned" ft_integer (tf_unsigned) false
    ∷ entry "INT NOT NULL" "sql_int" ft_integer (tf_default) true
    ∷ entry "INT UNSIGNED NOT NULL" "sql_int_unsigned" ft_integer (tf_unsigned) true
    ∷ entry "BIGINT NOT NULL" "sql_bigint" ft_integer (tf_default) false
    ∷ entry "BIGINT UNSIGNED NOT NULL" "sql_bigint_unsigned" ft_integer (tf_unsigned) false
    ∷ entry "FLOAT NOT NULL" "sql_float" ft_real (tf_default) false
    ∷ entry "FLOAT UNSIGNED NOT NULL" "sql_float" ft_real (tf_unsigned) false
    ∷ entry "DOUBLE NOT NULL" "sql_double" ft_real (tf_default) true
    ∷ entry "DOUBLE UNSIGNED NOT NULL" "sql_double" ft_real (tf_unsigned) true
    ∷ entry "DECIMAL NOT NULL" "sql_decimal" ft_decimal (tf_default) true
    ∷ entry "TIMESTAMP NOT NULL" "sql_timestamp" ft_timestamp (tf_default) true
    ∷ entry "DATE NOT NULL" "sql_date" ft_date (tf_default) true
    ∷ entry "TIME NOT NULL" "sql_time" ft_time (tf_default) true
    ∷ entry "DATETIME NOT NULL" "sql_datetime" ft_datetime (tf_default) true
    ∷ entry "ENUM NOT NULL" "sql_enum" ft_enum (tf_default) true
    ∷ entry "SET NOT NULL" "sql_set" ft_set (tf_default) true
    ∷ entry "TINYBLOB NOT NULL" "sql_tinyblob" ft_blob (tf_default) false
    ∷ entry "MEDIUMBLOB NOT NULL" "sql_mediumblob" ft_blob (tf_default) false
    ∷ entry "LONGBLOB NOT NULL" "sql_longblob" ft_blob (tf_default) false
    ∷ entry "BLOB NOT NULL" "sql_blob" ft_blob (tf_default) true
    ∷ entry "VARCHAR NOT NULL" "sql_varchar" ft_text (tf_default) true
    ∷ entry "CHAR NOT NULL" "sql_char" ft_text (tf_default) false
    ∷ entry "NULL NOT NULL" "void" ft_null (tf_default) true
    ∷ entry "TINYINT NULL" "Null<sql_tinyint>" ft_integer (tf_null) false
    ∷ entry "TINYINT UNSIGNED NULL" "Null<sql_tinyint_unsigned>" ft_integer (tf_null + tf_unsigned)
        false
    ∷ entry "SMALLINT NULL" "Null<sql_smallint>" ft_integer (tf_null) false
    ∷ entry "SMALLINT UNSIGNED NULL" "Null<sql_smallint_unsigned>" ft_integer
        (tf_null + tf_unsigned) false
    ∷ entry "MEDIUMINT NULL" "Null<sql_mediumint>" ft_integer (tf_null) false
    ∷ entry "MEDIUMINT UNSIGNED NULL" "Null<sql_mediumint_unsigned>" ft_integer
        (tf_null + tf_unsigned) false
    ∷ entry "INT NULL" "Null<sql_int>" ft_integer (tf_null) true
    ∷ entry "INT UNSIGNED NULL" "Null<sql_int_unsigned>" ft_integer (tf_null + tf_unsigned) true
    ∷ entry "BIGINT NULL" "Null<sql_bigint>" ft_integer (tf_null) false
    ∷ entry "BIGINT UNSIGNED NULL" "Null<sql_bigint_unsigned>" ft_integer (tf_null + tf_unsigned)
        false
    ∷ entry "FLOAT NULL" "Null<sql_float>" ft_real (tf_null) false
    ∷ entry "FLOAT UNSIGNED NULL" "Null<sql_float>" ft_real (tf_null + tf_unsigned) false
    ∷ entry "DOUBLE NULL" "Null<sql_double>" ft_real (tf_null) true
    ∷ entry "DOUBLE UNSIGNED NULL" "Null<sql_double>" ft_real (tf_null + tf_unsigned) true
    ∷ entry "DECIMAL NULL" "Null<sql_decimal>" ft_decimal (tf_null) true
    ∷ entry "TIMESTAMP NULL" "Null<sql_timestamp>" ft_timestamp (tf_default) true
    ∷ entry "DATE NULL" "Null<sql_date>" ft_date (tf_null) true
    ∷ entry "TIME NULL" "Null<sql_time>" ft_time (tf_null) true
    ∷ entry "DATETIME NULL" "Null<sql_datetime>" ft_datetime (tf_null) true
    ∷ entry "ENUM NULL" "Null<sql_enum>" ft_enum (tf_null) true
    ∷ entry "SET NULL" "Null<sql_set>" ft_set (tf_null) true
    ∷ entry "TINYBLOB NULL" "Null<sql_tinyblob>" ft_blob (tf_null) false
    ∷ entry "MEDIUMBLOB NULL" "Null<sql_mediumblob>" ft_blob (tf_null) false
    ∷ entry "LONGBLOB NULL" "Null<sql_longblob>" ft_blob (tf_null) false
    ∷ entry "BLOB NULL" "Null<sql_blob>" ft_blob (tf_null) true
    ∷ entry "VARCHAR NULL" "Null<sql_varchar>" ft_text (tf_null) true
    ∷ entry "CHAR NULL" "Null<sql_char>" ft_text (tf_null) false
    ∷ entry "NULL NOT NULL" "Null<void>" ft_null (tf_default) true
    ∷ []

-- All flags of the candidate are present.
unfoldable pub covers : ℕ → ℕ → Bool
covers flags cand = bit_and cand flags == cand

unfoldable pub same_base : Base → Annotated → Bool
unfolding base_code
same_base b cand = base_code b == base_code cand.base_type

-- if (cand.best_guess_) return cand.
if_best : Bool → Annotated → Option Annotated → Option Annotated
if_best true cand later = some cand
if_best false cand later = later

-- The loop of annotate(), from a guess.
unfoldable pub look_up : Base → ℕ → List Annotated → Option Annotated → Option Annotated
unfolding covers same_base if_best
look_up b flags [] guess = guess
look_up b flags (cand ∷ cands) guess =
    let kept = look_up b flags cands guess in
    let taken = look_up b flags cands (some cand) in
    if same_base b cand
    then (if flags == cand.flags
        then if_best cand.best_guess cand taken
        else if covers flags cand.flags
        then taken
        else kept)
    else kept

-- annotate(): none is the exception TypeLookupFailed.
unfoldable pub annotate : Base → ℕ → Option Annotated
unfolding look_up
annotate b flags = if base_code b == 0 then none else look_up b flags types none

-- id(): an unsigned short.
unfoldable pub id : Base → ℕ → ℕ
unfolding base_code
id b flags = (flags * 256 + base_code b) % 65536

-- operator == and operator <.
unfoldable pub type_eq : Base → ℕ → Base → ℕ → Bool
unfolding id
type_eq b flags c other_flags = id b flags == id c other_flags

unfoldable pub type_lt : Base → ℕ → Base → ℕ → Bool
unfolding id
type_lt b flags c other_flags = ltb (id b flags) (id c other_flags)
