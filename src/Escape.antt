-- ===== src/Escape.antt =====
-- SQLStream's own escaping of SQL text, src/sqlstream.cpp: the fallback that is used while no
-- connection can do it. A char buffer is the list of its bytes.
pub mod Literal
pub mod Buffer
pub mod Tests
use libtabula.Prelude.{
  ℕ, ◌+◌, ◌*◌, List, [], ◌∷◌, ◌++◌, Option, none, some, leb, ◌==◌, if◌then◌else◌, length,
}
use libtabula.Prelude.Bytes.{Text}

-- The body of the switch: what is written for one byte.
unfoldable pub escape_char : ℕ → Text
escape_char c =
    if c == 0
    then b'\\' ∷ b'0' ∷ []
    else if c == b'\\'
    then b'\\' ∷ b'\\' ∷ []
    else if c == b'\''
    then b'\\' ∷ b'\'' ∷ []
    else if c == b'"'
    then b'\\' ∷ b'"' ∷ []
    else if c == b'\n'
    then b'\\' ∷ b'n' ∷ []
    else if c == b'\r'
    then b'\\' ∷ b'r' ∷ []
    else c ∷ []

-- escape_string_generic(char*, const char*, size_t), without the terminating NUL.
unfoldable pub escape_string_generic : Text → Text
escape_string_generic [] = []
escape_string_generic (c ∷ s) = escape_char c ++ escape_string_generic s

-- The result of code that writes to a buffer of fixed size: `overrun` is a write past its end.
pub data Write : Type 0 where
  wrote : Text → Write
  overrun : Write

-- escape_string_generic(std::string*, const char*, size_t). `original` is none for a null pointer;
-- otherwise it holds the `length` bytes that the caller passes. The buffer has 2 * length + 1 bytes.
unfoldable pub escape_into : Text → Option Text → ℕ → Write
escape_into ps original length' = write (source original)
  where
    source : Option Text → Text
    source none = ps
    source (some text) = text

    write : Text → Write
    write text =
        let out = escape_string_generic text in
        if leb (length out + 1) (length' * 2 + 1) then wrote out else overrun
