-- ===== src/FieldType/Identity.antt =====
-- When two types count as equal.
use libtabula.Prelude.{ℕ, ◌+◌, ◌*◌, ◌%◌, ◌<◌, ◌≡◌, ◌&&◌, ◌==◌, arith}
use libtabula.Adapter.{Base}
use libtabula.FieldType.{base_code, id, type_eq}

base_code_small : (b : Base) → base_code b < 256
unfolding base_code
base_code_small b = ground arith

codes_eq :
    (m n f g : ℕ)
    → m < 256
    → n < 256
    → ((f * 256 + m) % 65536 == (g * 256 + n) % 65536) ≡ ((m == n) && (f % 256 == g % 256))
codes_eq m n f g h k = ground arith

-- Two types are equal if they have the same base and agree in the lowest eight flags. The flags from
-- 1 << 8 up, such as tf_primary_key and tf_auto_increment, do not count.
pub type_eq-low_flags :
    (b c : Base) (flags other_flags : ℕ)
    → type_eq b flags c other_flags
      ≡ ((base_code b == base_code c) && (flags % 256 == other_flags % 256))
unfolding type_eq id
type_eq-low_flags b c flags other_flags =
    codes_eq (base_code b) (base_code c) flags other_flags (base_code_small b) (base_code_small c)
