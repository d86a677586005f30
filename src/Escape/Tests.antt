-- ===== src/Escape/Tests.antt =====
-- Tests of the escaping.
use libtabula.Prelude.{◌≡◌, refl, [], ◌∷◌, ◌++◌, none, some, length, ◌≤◌}
use libtabula.Prelude.Bytes.{codes}
use libtabula.Escape.{escape_string_generic, escape_char, escape_into, overrun, wrote}
use libtabula.Escape.Literal.{read_literal, read_literal-escape_string_generic}
use libtabula.Escape.Buffer.{escape_into-none, escape_into-some, length-escape_string_generic}

escape_test : escape_string_generic (codes "it's\n") ≡ codes "it\\'s\\n"
unfolding escape_string_generic escape_char
escape_test = refl

read_literal-escape_string_generic_example :
    read_literal (escape_string_generic (codes "it's\n") ++ b'\'' ∷ codes ", 'x'")
    ≡ some (codes "it's\n", codes ", 'x'")
read_literal-escape_string_generic_example =
    read_literal-escape_string_generic (codes "it's\n") (codes ", 'x'") refl

length-escape_string_generic_case :
    (4 ≤ length (escape_string_generic (codes "it's")))
    × (length (escape_string_generic (codes "it's")) ≤ 8)
length-escape_string_generic_case = length-escape_string_generic (codes "it's")

escape_into-some_case :
    escape_into [] (some (codes "it's")) 4 ≡ wrote (escape_string_generic (codes "it's"))
escape_into-some_case = escape_into-some [] (codes "it's")

escape_into-none_case : escape_into (codes "it's") none 0 ≡ overrun
escape_into-none_case = escape_into-none (codes "it's") (λ e. cc)
