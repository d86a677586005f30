-- ===== src/FieldType/Tests.antt =====
-- Tests of the look-up of types, and its theorem at a concrete input.
use libtabula.Prelude.{◌≡◌, refl, true, none}
use libtabula.Adapter.{ft_timestamp, ft_integer, ft_date}
use libtabula.FieldType.{
  tf_null, annotate, types, look_up, same_base, base_code, covers, id, type_eq,
}
use libtabula.FieldType.Identity.{type_eq-low_flags}
use libtabula.FieldType.Lookup.{Found, annotate-Found}

-- The nullable timestamp of the table lacks tf_null, so that the look-up of one fails.
timestamp_null : annotate ft_timestamp tf_null ≡ none
unfolding annotate types look_up same_base base_code covers
timestamp_null = refl

-- The flags from 1 << 8 up do not reach the id.
same_id : id ft_integer 1 ≡ id ft_integer 1025
unfolding id
same_id = refl

annotate-Found_case : Found ft_date tf_null types (annotate ft_date tf_null)
unfolding base_code
annotate-Found_case = annotate-Found ft_date tf_null refl

-- A primary key and a plain column of the same base are equal.
type_eq-low_flags_case : type_eq ft_integer 1 ft_integer 1025 ≡ true
unfolding base_code
type_eq-low_flags_case = type_eq-low_flags ft_integer ft_integer 1 1025
