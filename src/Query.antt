-- ===== src/Query.antt =====
-- Template queries: SQLQueryParms and SQLParseElement (src/qparms.h), and of Query (src/query.h,
-- src/query.cpp) the parameters of a template and its expansion; the parser is in `Parse`. The
-- stream buffer is a text. The driver's escape_string is the parameter `escape`.
pub mod Parse
pub mod Expand
pub mod Missing
pub mod Again
pub mod Names
pub mod Sum
pub mod Tests
use libtabula.Prelude.{
  ℕ, zero, suc, map, ◌+◌, ◌-◌, Bool, true, false, List, [], ◌∷◌, ◌++◌, Option, none, some, ltb,
  ◌==◌, if◌then◌else◌, ◌&&◌, length, get_elem?, set, replicate,
}
use libtabula.Prelude.Int.{ℤ, pos, negsuc}
use libtabula.Prelude.Bytes.{Text, codes}
use libtabula.Adapter.{SqlTypeAdapter, of_text, copied, set_processed, quoted, escaped, text_of}

-- `option` is a byte: a space, q or Q. A negative `num` is the end of the template.
pub record SqlParseElement : Type 0 where
  pub before : Text
  pub option : ℕ
  pub num : ℤ

-- The vector of a SQLQueryParms; `bound` tells whether it has a parent query.
pub record Params : Type 0 where
  pub items : List SqlTypeAdapter
  pub bound : Bool

-- operator[](size_type) for a parameter that is written: the vector grows with empty texts. If it
-- needs new memory for that, `moved`, then the parameters that there are become copies.
unfoldable pub grow : Bool → ℕ → Params → Params
grow moved n p = if ltb n (length p.items) then p else record p {
  items =
      (if moved then map copied p.items else p.items)
      ++ replicate (n + 1 - length p.items) (of_text [] false);
}

-- operator<< and operator+=: the vector takes a copy, and copies of the others if they are moved.
unfoldable pub push : Bool → SqlTypeAdapter → Params → Params
push moved a p = record p {
  items = (if moved then map copied p.items else p.items) ++ copied a ∷ [];
}

unfoldable pub rest_of : ℕ → List SqlTypeAdapter → List SqlTypeAdapter
rest_of n [] = []
rest_of zero (a ∷ more) = copied a ∷ rest_of zero more
rest_of (suc n) (a ∷ more) = rest_of n more

-- operator+: a copy of our parameters, then those of the other list that lie behind their number.
unfoldable pub add : Params → Params → Params
unfolding rest_of
add p other = record p { items = map copied p.items ++ rest_of (length p.items) other.items }

-- What proc() works on: the stream buffer, the parameters that it was called with, and the query's
-- own template_defaults. Where it is called with the latter, `same` is true in the functions below.
pub record Expansion : Type 0 where
  pub out : Text
  pub given : Params
  pub own : Params

-- The exception BadParamCount leaves the state behind.
pub data Outcome : Type 0 where
  ok : Expansion → Outcome
  bad_param_count : Expansion → Outcome

abbrev pub then_expand : Outcome → (Expansion → Outcome) → Outcome
then_expand (ok e) f = f e
then_expand (bad_param_count e) f = bad_param_count e

abbrev pub write : Text → Expansion → Expansion
write t e = record e { out = e.out ++ t }

abbrev pub chosen : Bool → Expansion → Params
chosen same e = if same then e.own else e.given

abbrev pub put : Bool → ℕ → SqlTypeAdapter → Expansion → Expansion
put true n a e = record e { own = record e.own { items = set e.own.items n a } }
put false n a e = record e { given = record e.given { items = set e.given.items n a } }

module _ (escape : Text → Text) where
  -- The text that pprepare() builds for the option q.
  unfoldable pub quote_escape : SqlTypeAdapter → Text
  quote_escape s =
      let quote = if quoted s then b'\'' ∷ [] else [] in
      quote ++ ((if escaped s then escape (text_of s) else text_of s) ++ quote)

  -- The text that pprepare() builds for the option Q.
  unfoldable pub quote_only : SqlTypeAdapter → Text
  quote_only s = b'\'' ∷ text_of s ++ b'\'' ∷ []

  -- pprepare(): the text that the caller inserts, and the parameter as it is left.
  unfoldable pub pprepare : ℕ → SqlTypeAdapter → Bool → Text × SqlTypeAdapter
  unfolding quote_escape quote_only
  pprepare option s replace =
      if s.is_processed
      then (text_of s, s)
      else if option == b'q'
      then built (quote_escape s)
      else if (option == b'Q') && quoted s
      then built (quote_only s)
      else (text_of s, (if replace then set_processed s else s))
    where
      built : Text → Text × SqlTypeAdapter
      built temp = (temp, (if replace then of_text temp true else s))

  -- The parameter `a`, which stands at place n of the list that `own` names.
  unfoldable pub insert_param : Bool → ℕ → ℕ → SqlTypeAdapter → Expansion → Expansion
  insert_param own n option a e =
      let prepared = pprepare option a (chosen own e).bound in
      if a.buffer.is_null then write (codes "NULL") e else put own n prepared.1 (write prepared.0 e)

  -- A parameter number: the list that was given, then the defaults, then the exception.
  unfoldable pub proc_num : Bool → ℕ → ℕ → Expansion → Outcome
  proc_num same option n e = elim (get_elem? (chosen same e).items n) [
    | some a ↦ ok (insert_param same n option a e)
    | none ↦ elim (get_elem? e.own.items n) [
      | some a ↦ ok (insert_param true n option a e)
      | none ↦ bad_param_count (write (codes " ERROR") e)
    ]
  ]

  unfoldable pub proc_at : Bool → ℕ → ℤ → Expansion → Outcome
  proc_at same option (pos n) e = proc_num same option n e
  proc_at same option (negsuc n) e = ok e

  unfoldable pub proc_elem : Bool → SqlParseElement → Expansion → Outcome
  unfolding proc_at
  proc_elem same el e = proc_at same el.option el.num (write el.before e)

  -- The loop of proc().
  unfoldable pub proc_elems : Bool → List SqlParseElement → Expansion → Outcome
  proc_elems same [] e = ok e
  proc_elems same (el ∷ els) e = then_expand (proc_elem same el e) (proc_elems same els)

  -- proc(): sbuffer_.str(""), and the loop.
  unfoldable pub proc : Bool → List SqlParseElement → Expansion → Outcome
  unfolding proc_elems
  proc same els e = proc_elems same els (record e { out = [] })
