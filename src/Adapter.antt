-- ===== src/Adapter.antt =====
-- The values that a query takes: FieldType::quote_q() and escape_q() (src/field_type.h), SQLBuffer
-- (src/sql_buffer.h, src/sql_buffer.cpp) and SQLTypeAdapter (src/stadapter.h, src/stadapter.cpp).
-- A buffer is shared by reference counts and never changed through an adapter, so it is a value.
use libtabula.Prelude.{Bool, true, false, not, ◌&&◌, [], ◌∷◌, ◌==◌, if◌then◌else◌}
use libtabula.Prelude.Bytes.{Text, codes}

pub data Base : Type 0 where
  ft_unsupported ft_null ft_integer ft_real ft_text ft_blob : Base
  ft_date ft_time ft_datetime ft_timestamp ft_decimal ft_enum ft_boolean ft_set : Base

unfoldable pub base_quote_q : Base → Bool
base_quote_q ft_blob = true
base_quote_q ft_date = true
base_quote_q ft_datetime = true
base_quote_q ft_set = true
base_quote_q ft_text = true
base_quote_q ft_time = true
base_quote_q _ = false

unfoldable pub base_escape_q : Base → Bool
base_escape_q ft_blob = true
base_escape_q ft_enum = true
base_escape_q ft_text = true
base_escape_q _ = false

-- `nullable` is the flag tf_null of the type, `is_null` the buffer's own mark.
pub record SqlBuffer : Type 0 where
  pub bytes : Text
  pub base : Base
  pub nullable : Bool
  pub is_null : Bool

-- memcmp() with the first bytes of a literal, where there are as many.
unfoldable pub starts_with : Text → Text → Bool
starts_with [] s = true
starts_with (c ∷ p) [] = false
starts_with (c ∷ p) (d ∷ s) = (c == d) && starts_with p s

-- The types whose C++ type is sql_datetime, as which sql_timestamp is defined, too; the nullable ones
-- have Null<sql_datetime>.
unfoldable pub is_sql_datetime : SqlBuffer → Bool
is_sql_datetime b = elim b.base [
  | ft_datetime ↦ not b.nullable
  | ft_timestamp ↦ not b.nullable
  | _ ↦ false
]

unfoldable pub quote_q : SqlBuffer → Bool
unfolding is_sql_datetime
quote_q b =
    if is_sql_datetime b && starts_with (codes "NOW()") b.bytes
    then false
    else if b.is_null
    then false
    else base_quote_q b.base

pub record SqlTypeAdapter : Type 0 where
  pub buffer : SqlBuffer
  pub is_processed : Bool

-- The type of SQLBuffer::string_type, FieldType(ft_text, tf_null).
unfoldable pub of_text : Text → Bool → SqlTypeAdapter
of_text s processed = record {
  buffer = record { bytes = s; base = ft_text; nullable = true; is_null = false };
  is_processed = processed;
}

-- The copy constructor: a copy starts unprocessed.
unfoldable pub copied : SqlTypeAdapter → SqlTypeAdapter
copied a = record a { is_processed = false }

unfoldable pub set_processed : SqlTypeAdapter → SqlTypeAdapter
set_processed a = record a { is_processed = true }

abbrev pub quoted : SqlTypeAdapter → Bool
quoted a = quote_q a.buffer

abbrev pub escaped : SqlTypeAdapter → Bool
escaped a = base_escape_q a.buffer.base

abbrev pub text_of : SqlTypeAdapter → Text
text_of a = a.buffer.bytes
