-- ===== src/Query/Parse.antt =====
-- Query::parse(), src/query.cpp. The loop runs on fuel; one round is `parse_step`.
pub mod Fuel
pub mod Print
pub mod RoundTrip
pub mod Wide
use libtabula.Prelude.{
  ℕ, zero, suc, ◌+◌, ◌-◌, ◌*◌, ◌%◌, Bool, List, [], ◌∷◌, ◌++◌, ltb, leb, ◌==◌, ◌||◌, if◌then◌else◌,
  length, set, replicate,
}
use libtabula.Prelude.Int.{ℤ, pos, negsuc}
use libtabula.Prelude.Bytes.{Text, is_digit, is_alnum, text_eq}
use libtabula.Query.{SqlParseElement}

-- parse_elems_, parsed_names_ and parsed_nums_ of the query.
pub record Template : Type 0 where
  pub elems : List SqlParseElement
  pub names : List Text
  pub nums : List (Text × ℤ)

-- `undefined` is an access to parsed_names_ in front of its start.
pub data Parsed : Type 0 where
  ok : Template → Parsed
  undefined out_of_fuel : Parsed

-- The second and the third digit of a position, behind the value so far.
third_digit : ℕ → Text → ℕ × Text
third_digit v [] = (v, [])
third_digit v (d ∷ s) = if is_digit d then (v * 10 + (d - b'0'), s) else (v, d ∷ s)

second_digit : ℕ → Text → ℕ × Text
second_digit v [] = (v, [])
second_digit v (d ∷ s) = if is_digit d then third_digit (v * 10 + (d - b'0')) s else (v, d ∷ s)

-- The conversion of a number to signed char.
unfoldable pub to_schar : ℕ → ℤ
to_schar n = let m = n % 256 in if ltb m 128 then pos m else negsuc (255 - m)

-- The option character behind the position, a space if there is none.
option_char : Text → ℕ × Text
option_char [] = (32, [])
option_char (c ∷ s) = if c == b'q' || c == b'Q' then (c, s) else (32, c ∷ s)

unfoldable pub is_name : ℕ → Bool
unfolding is_alnum
is_name c = is_alnum c || c == b'_'

-- The loop that reads a name, and the colon that may end it.
take_name : Text → Text × Text
take_name [] = ([], [])
take_name (c ∷ s) =
    let (name, rest) = take_name s in if is_name c then (c ∷ name, rest) else ([], c ∷ s)

eat_colon : Text → Text
eat_colon [] = []
eat_colon (c ∷ s) = if c == b':' then s else c ∷ s

-- parsed_names_[n] = name, where the vector grows as needed.
unfoldable pub put_name : ℕ → Text → List Text → List Text
put_name n name names =
    set (if leb (length names) n then names ++ replicate (n + 1 - length names) [] else names) n
      name

-- parsed_nums_[name] = n.
unfoldable pub put_num : Text → ℤ → List (Text × ℤ) → List (Text × ℤ)
put_num name n [] = (name, n) ∷ []
put_num name n ((k, m) ∷ nums) =
    if text_eq k name then (k, n) ∷ nums else (k, m) ∷ put_num name n nums

-- A round of the loop ends with the literal text so far, the rest of the input and the template.
pub data Next : Type 0 where
  more : Text → Text → Template → Next
  stuck : Next

add_elem : Text → ℕ → ℤ → Text → Template → Next
add_elem str option n s t =
    more [] s
      (record t { elems = t.elems ++ record { before = str; option = option; num = n } ∷ [] })

pub named : Text → ℕ → ℤ → Text → Template → Next
unfolding put_name put_num take_name eat_colon add_elem
named str option (pos n) s t =
    let (name, rest) = take_name s in
    add_elem str option (pos n) (eat_colon rest)
      (record t { names = put_name n name t.names; nums = put_num name (pos n) t.nums })
named str option (negsuc n) s t = stuck

-- Behind the position and the option: a colon starts a name.
pub maybe_named : Text → ℕ → ℤ → Text → Template → Next
unfolding named add_elem
maybe_named str option n [] t = add_elem str option n [] t
maybe_named str option n (c ∷ s) t =
    if c == b':' then named str option n s t else add_elem str option n (c ∷ s) t

-- A parameter declaration, behind its first digit.
param : Text → ℕ → Text → Template → Next
unfolding second_digit third_digit option_char maybe_named
param str d s t =
    let (v, s₁) = second_digit (d - b'0') s in
    let (option, s₂) = option_char s₁ in maybe_named str option (to_schar v) s₂ t

-- What follows a percent sign.
percent : Text → Text → Template → Next
unfolding param
percent str [] t = more (str ++ b'%' ∷ []) [] t
percent str (d ∷ s) t =
    if d == b'%'
    then more (str ++ b'%' ∷ []) s t
    else if is_digit d
    then param str d s t
    else more (str ++ b'%' ∷ []) (d ∷ s) t

unfoldable pub parse_step : Text → ℕ → Text → Template → Next
unfolding percent
parse_step str c s t = if c == b'%' then percent str s t else more (str ++ c ∷ []) s t

abbrev pub go_on : (Text → Text → Template → Parsed) → Next → Parsed
go_on loop (more str s t) = loop str s t
go_on loop stuck = undefined

unfoldable pub parse_loop : ℕ → Text → Text → Template → Parsed
parse_loop zero str s t = out_of_fuel
parse_loop (suc fuel) str [] t =
    ok (record t { elems = t.elems ++ record { before = str; option = 32; num = negsuc 0 } ∷ [] })
parse_loop (suc fuel) str (c ∷ s) t = go_on (parse_loop fuel) (parse_step str c s t)

-- The input ends at its first NUL.
unfoldable pub c_str : Text → Text
c_str [] = []
c_str (c ∷ s) = let rest = c_str s in if c == 0 then [] else c ∷ rest

unfoldable pub parse : Text → Template → Parsed
parse sbuffer t = parse_loop (suc (length (c_str sbuffer))) [] (c_str sbuffer) t
