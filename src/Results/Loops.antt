-- ===== src/Results/Loops.antt =====
-- The loops of Query over the rows of a result set: for_each(), store_if(), storein_sequence() and
-- storein_set() of src/query.h. `use` answers a result set or none. What a caller's function does to
-- its own state is `f`; `elided` says whether the compiler leaves out the copy of a returned row. A
-- loop runs on fuel.
use libtabula.Prelude.{
  ℕ, zero, suc, ◌≡◌, ◌<◌, refl, sym, ap, ◌∙◌, Bool, true, false, List, [], ◌∷◌, ◌++◌, Option, none,
  some, if◌then◌else◌, length, arith, append_assoc, append-nil,
}
use libtabula.Prelude.Bytes.{Text, codes}
use libtabula.Rows.{Row}
use libtabula.Results.{
  ResultApi, ResultBase, RowValue, Fetched, fetched, no_row, row_is_null, undefined,
  use_query_error, copied, is_row, has_values, values, row_of, after_row, use_fetch_row,
}
use libtabula.Results.Filled.{Gives, driver_fetch_row-end, driver_fetch_row-row}

-- What a loop leaves, an exception of the driver or of the result, or a read out of bounds.
pub data Visit (S : Type 0) : Type 0 where
  visited : S → Visit S
  visit_threw visit_undefined out_of_fuel : S → Visit S
  visit_error : Text → S → Visit S

-- What is left, and the flag copacetic_ of the query.
pub record Storein (S : Type 0) : Type 0 where
  pub left : Visit S
  pub copacetic : Bool

module _ {R P T : Type 0} (api : ResultApi R P T) (base : T → T) (d elided : Bool)
    (b : ResultBase T) where
  module _ {S : Type 0} (e : Bool) (f : S → Row (RowValue T) → S) where
    abbrev pub on_row : (S → R → Visit S) → S → Fetched R T → Visit S
    on_row more a (fetched r s) = if is_row r then more (f a r) s else visited a
    on_row more a no_row = visited a
    on_row more a row_is_null = visit_threw a
    on_row more a undefined = visit_undefined a
    on_row more a (use_query_error n) = visit_error n a

    -- while (Row row = res.fetch_row()); `e` are the exceptions of the result.
    unfoldable pub each : ℕ → S → R → Visit S
    unfolding use_fetch_row
    each zero a s = out_of_fuel a
    each (suc n) a s = on_row (each n) a (use_fetch_row api base d b elided e (some s))

  -- Query::for_each(), which switches the exceptions of the result off.
  unfoldable pub for_each : {S : Type 0} → ℕ → (S → Row (RowValue T) → S) → S → Option R → Visit S
  unfolding each
  for_each n f a none = visited a
  for_each n f a (some s) = each false f n a s

  -- The query of for_each() and store_if() for a structure with a table.
  abbrev pub select_all : Text → Text
  select_all table = codes "select * from `" ++ table ++ codes "`"

  unfoldable pub for_each_table :
      {S : Type 0} → (Text → Option R) → ℕ → (S → Row (RowValue T) → S) → S → Text → Visit S
  unfolding for_each
  for_each_table answer n f a table = for_each n f a (answer (select_all table))

  -- Query::store_if(): con.push_back(row).
  abbrev pub push_if :
      (Row (RowValue T) → Bool)
      → List (Row (RowValue T))
      → Row (RowValue T)
      → List (Row (RowValue T))
  push_if fn con r = if fn r then con ++ copied false r ∷ [] else con

  unfoldable pub store_if :
      ℕ
      → (Row (RowValue T) → Bool)
      → List (Row (RowValue T))
      → Option R
      → Visit (List (Row (RowValue T)))
  unfolding for_each
  store_if n fn con res = for_each n (push_if fn) con res

  unfoldable pub store_if_table :
      (Text → Option R)
      → ℕ
      → (Row (RowValue T) → Bool)
      → List (Row (RowValue T))
      → Text
      → Visit (List (Row (RowValue T)))
  unfolding store_if
  store_if_table answer n fn con table = store_if n fn con (answer (select_all table))

  -- Query::storein_sequence() and storein_set(): `insert` puts the value made of a row into the
  -- container, `throws` are the exceptions of the query and of the result, `empty` is result_empty().
  unfoldable pub storein :
      {S : Type 0} → ℕ → (S → Row (RowValue T) → S) → Bool → Bool → Bool → S → Option R → Storein S
  unfolding each
  storein n insert throws empty copacetic con none =
      if empty
      then record { left = visited con; copacetic = copacetic }
      else if throws
      then record { left = visit_error (codes "Bogus empty result") con; copacetic = false }
      else record { left = visited con; copacetic = false }
  storein n insert throws empty copacetic con (some s) = record {
    left = each throws insert n con s;
    copacetic = copacetic;
  }

  -- The row that the loop sees: its exceptions are those of the driver, if the copy is left out.
  abbrev pub seen : List (RowValue T) → Row (RowValue T)
  seen vs = copied elided (row_of api base d b vs)

  abbrev pub over : {S : Type 0} → S → Visit S
  over a = if d then visit_threw a else visited a

  abbrev pub folded : {S : Type 0} → (S → Row (RowValue T) → S) → S → List (List (RowValue T)) → S
  folded f a [] = a
  folded f a (vs ∷ l) = folded f (f a (seen vs)) l

  -- The rows that the function chooses, with exceptions.
  abbrev pub chosen : (Row (RowValue T) → Bool) → List (List (RowValue T)) → List (Row (RowValue T))
  chosen fn [] = []
  chosen fn (vs ∷ l) = if fn (seen vs) then copied false (seen vs) ∷ chosen fn l else chosen fn l

  is_row-copied : (c : Bool) (r : Row (RowValue T)) → is_row (copied c r) ≡ is_row r
  is_row-copied true r = refl
  is_row-copied false r = refl

  module _ {S : Type 0} (e : Bool) (f : S → Row (RowValue T) → S) where
    ends :
        (c : Bool) (more : S → R → Visit S) (a : S)
        → on_row e f more a (after_row api base d b elided e (if c then row_is_null else no_row))
          ≡ (if c then visit_threw a else visited a)
    ends true more a = refl
    ends false more a = refl

    each_row :
        (n : ℕ) (a : S) (vs : List (RowValue T)) (s s' : R) (raw : List (Option P)) (ls : List ℕ)
        → api.fetch_row s ≡ (some raw, s')
        → api.fetch_lengths s' ≡ some ls
        → values api base b.types_ raw ls ≡ some vs
        → has_values vs ≡ true
        → each e f (suc n) a s ≡ each e f n (f a (seen vs)) s'
    unfolding each use_fetch_row
    each_row n a vs s s' raw ls er el ev hv =
        ap (λ x. on_row e f (each e f n) a (after_row api base d b elided e x))
          (driver_fetch_row-row api base d b er el ev)
        ∙ rw (hv, el, is_row-copied elided (row_of api base d b vs), hv) refl

    -- A loop ends behind the last row of the result set, and with an exception if the driver has
    -- exceptions, whatever those of the result are.
    pub each-over :
        (n : ℕ) (l : List (List (RowValue T))) (a : S) (s : R)
        → Gives api base b.types_ l s
        → length l < n
        → each e f n a s ≡ over (folded f a l)
    unfolding each use_fetch_row Gives
    each-over zero l a s g h = absurd (omega (arith, h))
    each-over (suc n) [] a s g h =
        ap (λ x. on_row e f (each e f n) a (after_row api base d b elided e x))
          (driver_fetch_row-end api base d b s g)
        ∙ ends d (each e f n) a
    each-over (suc n) (vs ∷ l) a s (raw, s', ls, (er, (el, (ev, (hv, g))))) h =
        each_row n a vs s s' raw ls er el ev hv
        ∙ each-over n l (f a (seen vs)) s' g (omega (arith, h))

  folded-chosen :
      (fn : Row (RowValue T) → Bool) (con : List (Row (RowValue T))) (l : List (List (RowValue T)))
      → folded (push_if fn) con l ≡ con ++ chosen fn l
  folded-chosen fn con [] = sym (append-nil con)
  folded-chosen fn con (vs ∷ l) =
      folded-chosen fn (push_if fn con (seen vs)) l ∙ pushed (fn (seen vs))
    where
      pushed :
          (c : Bool)
          → (if c then con ++ copied false (seen vs) ∷ [] else con) ++ chosen fn l
            ≡ con ++ (if c then copied false (seen vs) ∷ chosen fn l else chosen fn l)
      pushed true = append_assoc con (copied false (seen vs) ∷ []) (chosen fn l)
      pushed false = refl

  -- Of a result set with the rows `l`, those that the function chooses come behind what the container
  -- holds, in their order, and with exceptions; the loop ends with an exception of the driver, if that
  -- has exceptions, though those of the result are switched off. Fuel for each row and one more is
  -- enough.
  pub store_if-chosen :
      (n : ℕ) (fn : Row (RowValue T) → Bool) (con : List (Row (RowValue T)))
      (l : List (List (RowValue T))) (s : R)
      → Gives api base b.types_ l s
      → length l < n
      → store_if n fn con (some s) ≡ over (con ++ chosen fn l)
  unfolding store_if for_each
  store_if-chosen n fn con l s g h =
      each-over false (push_if fn) n l con s g h ∙ ap over (folded-chosen fn con l)
