-- ===== src/Run.antt =====
-- Running a query: str(), reset(), and the overloads of execute(), store() and use() of Query
-- (src/query.h, src/query.cpp), which call each other and tell a template with one parameter apart by
-- the flag processing_ that an AutoFlag (src/autoflag.h) sets. The driver is a few parameters. The
-- calls run on fuel. A caller's list of parameters is a copy here.
pub mod Ends
pub mod Lone
pub mod Tests
use libtabula.Prelude.{
  ℕ, zero, suc, Bool, true, false, not, ◌&&◌, List, [], ◌∷◌, ◌++◌, Option, none, some, ◌==◌,
  if◌then◌else◌, length,
}
use libtabula.Prelude.Bytes.{Text}
use libtabula.Adapter.{SqlTypeAdapter, of_text, text_of}
use libtabula.Query.{SqlParseElement, Params, push, Expansion, Outcome, ok, bad_param_count, proc}

-- The members of a query, and the statements that the server got through it, in order.
pub record Runner : Type 0 where
  pub out : Text
  pub elems : List SqlParseElement
  pub defaults : Params
  pub processing : Bool
  pub copacetic : Bool
  pub log : List Text

-- A result set or none, or an exception.
pub data Ran (R : Type 0) : Type 0 where
  done : Option R → Runner → Ran R
  bad_query too_few out_of_fuel : Runner → Ran R

-- The overload that is called: by the defaults, by parameters, by an adapter, by a text.
pub data Call : Type 0 where
  by_defaults : Call
  by_params : Params → Call
  by_adapter : SqlTypeAdapter → Call
  by_text : Text → Call

unfoldable pub reset : Runner → Runner
reset q = record q { out = []; elems = []; defaults = record q.defaults { items = [] } }

-- if (parse_elems_.size() == 0) reset()
unfoldable pub auto_reset : Runner → Runner
unfolding reset
auto_reset q = if length q.elems == 0 then reset q else q

abbrev pub flag : Bool → Runner → Runner
flag b q = record q { processing = b }

-- A template with one parameter, outside of such a call.
unfoldable pub lone : Runner → Bool
lone q = (length q.elems == 2) && not q.processing

-- The destructor of AutoFlag, however the call ends.
abbrev pub unflag : {R : Type 0} → Ran R → Ran R
unflag (done r q) = done r (flag false q)
unflag (bad_query q) = bad_query (flag false q)
unflag (too_few q) = too_few (flag false q)
unflag (out_of_fuel q) = out_of_fuel q

-- SQLQueryParms() << a.
abbrev pub only : SqlTypeAdapter → Params
only a = push true a (record { items = []; bound = false })

module _ (escape : Text → Text) where
  -- str(): the text, or BadParamCount. `same` is true where the parameters are the defaults.
  unfoldable pub expand : Bool → Params → Runner → Outcome
  expand same p q =
      let e : Expansion = record { out = q.out; given = p; own = q.defaults } in
      if length q.elems == 0 then ok e else proc escape same q.elems e

  abbrev pub left_by : Expansion → Runner → Runner
  left_by e q = record q { out = e.out; defaults = e.own }

  -- `send` is what an overload for a text does without a template. The overload of execute() for an
  -- adapter looks for a lone parameter itself, those of store() and use() leave that to the text's.
  module _ {R : Type 0} (send : Text → Runner → Ran R) (own_test : Bool) where
    -- execute(str(p)): the adapter that str(p) turns into is the argument of the next call.
    with_text : (Call → Runner → Ran R) → Runner → Outcome → Ran R
    with_text next q (ok e) = next (by_adapter (of_text e.out false)) (left_by e q)
    with_text next q (bad_param_count e) = too_few (left_by e q)

    -- The overloads for an adapter and for a text, in and out of a template with one parameter.
    dispatch : (Call → Runner → Ran R) → Call → Runner → Ran R
    unfolding with_text expand push lone
    dispatch next by_defaults q =
        unflag (with_text next (flag true q) (expand true q.defaults (flag true q)))
    dispatch next (by_params p) q =
        unflag (with_text next (flag true q) (expand false p (flag true q)))
    dispatch next (by_adapter a) q =
        if own_test && lone q
        then unflag (next (by_params (only a)) (flag true q))
        else next (by_text (text_of a)) q
    dispatch next (by_text t) q =
        if lone q
        then unflag (next (by_params (only (of_text t false))) (flag true q))
        else send t q

    unfoldable pub call : ℕ → Call → Runner → Ran R
    unfolding dispatch
    call zero c q = out_of_fuel q
    call (suc fuel) c q = dispatch (call fuel) c q

-- The driver, after the statements so far and with this one: whether it accepts it, the result set
-- that it has, and whether the error number is zero.
module _ {R : Type 0} (accepts : List Text → Text → Bool) (result : List Text → Text → Option R)
    (no_error : List Text → Text → Bool) (throws : Bool) where
  abbrev pub logged : Text → Bool → Runner → Runner
  logged t b q = record q { log = q.log ++ t ∷ []; copacetic = b }

  -- execute(const char*, size_t), its second part.
  unfoldable pub execute_text : Text → Runner → Ran R
  unfolding auto_reset
  execute_text t q =
      if accepts q.log t
      then done (result q.log t) (auto_reset (logged t true q))
      else if throws
      then bad_query (logged t false q)
      else done none (logged t false q)

  empty_or_error : Text → Runner → Ran R
  unfolding auto_reset
  empty_or_error t q =
      if no_error q.log t
      then done none (auto_reset (logged t true q))
      else if throws
      then bad_query (logged t false q)
      else done none (logged t false q)

  stored : Text → Runner → Option R → Ran R
  unfolding empty_or_error auto_reset
  stored t q (some r) = done (some r) (auto_reset (logged t true q))
  stored t q none = empty_or_error t q

  -- store(const char*, size_t) and use(const char*, size_t), their second parts.
  unfoldable pub store_text : Text → Runner → Ran R
  unfolding stored empty_or_error
  store_text t q = if accepts q.log t then stored t q (result q.log t) else empty_or_error t q
