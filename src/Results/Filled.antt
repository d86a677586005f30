-- ===== src/Results/Filled.antt =====
-- A StoreQueryResult after its constructor (src/result.cpp), for a C API that gives a list of rows.
use libtabula.Prelude.{
  ℕ, zero, suc, ◌-◌, ◌≡◌, ◌≤◌, ◌<◌, refl, ap, ◌∙◌, Bool, true, false, List, [], ◌∷◌, ◌++◌, Option,
  none, some, if◌then◌else◌, length, replicate, map, arith,
}
use libtabula.Rows.{Row}
use libtabula.Results.{
  ResultApi, ResultBase, RowValue, Stored, stored, threw, overrun, empty_row, fetched, no_row,
  row_is_null, has_values, values, put_row, row_of, driver_row, driver_fetch_row, past_end,
  store_from, result_base, store_query_result,
}

module _ {R P T : Type 0} (api : ResultApi R P T) (base : T → T) where
  -- The result set has these rows left, each with values and their lengths, and then null.
  unfoldable pub Gives : List T → List (List (RowValue T)) → R → Type 0
  Gives ts [] s = (s' : R) × (api.fetch_row s ≡ (none, s'))
  Gives ts (vs ∷ l) s =
      (raw : List (Option P)) × (s' : R) × (ls : List ℕ) × ((api.fetch_row s ≡ (some raw, s'))
        × ((api.fetch_lengths s' ≡ some ls)
            × ((values api base ts raw ls ≡ some vs) × ((has_values vs ≡ true) × Gives ts l s'))))

  -- What the driver gives, at the end and at a row.
  pub driver_fetch_row-end :
      (d : Bool) (b : ResultBase T) (s : R)
      → Gives b.types_ [] s
      → driver_fetch_row api base d b s ≡ (if d then row_is_null else no_row)
  unfolding Gives driver_fetch_row
  driver_fetch_row-end d b s (s', e) = ap (driver_row api base d b) e

  pub driver_fetch_row-row :
      (d : Bool) (b : ResultBase T) {s s' : R} {raw : List (Option P)} {ls : List ℕ}
      {vs : List (RowValue T)}
      → api.fetch_row s ≡ (some raw, s')
      → api.fetch_lengths s' ≡ some ls
      → values api base b.types_ raw ls ≡ some vs
      → driver_fetch_row api base d b s ≡ fetched (row_of api base d b vs) s'
  unfolding driver_fetch_row
  driver_fetch_row-row d b {s' = s'} e el ev = ap (driver_row api base d b) e ∙ rw (el, ev) refl

  -- The row that a list of values becomes in the result: it throws.
  abbrev pub stored_row : ResultBase T → List (RowValue T) → Row (RowValue T)
  stored_row b vs = record {
    data_ = vs;
    field_names = some b.names_;
    initialized = true;
    throws = true;
  }

  abbrev pub finished : Bool → List (Row (RowValue T)) → Stored T
  finished d rs = if d then threw else stored rs

  put_row-finished :
      (d : Bool) (r : Row (RowValue T)) (rs : List (Row (RowValue T)))
      → put_row r (finished d rs) ≡ finished d (r ∷ rs)
  put_row-finished true r rs = refl
  put_row-finished false r rs = refl

  slots-end :
      (d : Bool) (b : ResultBase T) (rows : ℕ) (s : R)
      → driver_fetch_row api base d b s ≡ (if d then row_is_null else no_row)
      → store_from api base d b (replicate rows empty_row) s ≡ finished d (replicate rows empty_row)
  unfolding store_from
  slots-end true b zero s e = ap (past_end api base true b) e
  slots-end false b zero s e = ap (past_end api base false b) e
  slots-end true b (suc rows) s e = rw e refl
  slots-end false b (suc rows) s e = rw e refl

  next_slot :
      (d : Bool) (b : ResultBase T) (rows : ℕ) (vs : List (RowValue T)) (s s' : R)
      → driver_fetch_row api base d b s ≡ fetched (row_of api base d b vs) s'
      → has_values vs ≡ true
      → store_from api base d b (replicate (suc rows) empty_row) s
        ≡ put_row (stored_row b vs) (store_from api base d b (replicate rows empty_row) s')
  unfolding store_from
  next_slot d b rows vs s s' e hv = rw (e, hv) refl

  fills :
      (d : Bool) (b : ResultBase T) (l : List (List (RowValue T))) (rows : ℕ) (s : R)
      → Gives b.types_ l s
      → length l ≤ rows
      → store_from api base d b (replicate rows empty_row) s
        ≡ finished d (map (stored_row b) l ++ replicate (rows - length l) empty_row)
  unfolding Gives
  fills d b [] rows s g h =
      slots-end d b rows s (driver_fetch_row-end d b s g)
      ∙ ap (λ k. finished d (replicate k empty_row)) (omega arith)
  fills d b (vs ∷ l) zero s g h = absurd (omega (arith, h))
  fills d b (vs ∷ l) (suc rows) s (raw, s', ls, (e, (el, (ev, (hv, g))))) h =
      next_slot d b rows vs s s' (driver_fetch_row-row d b e el ev) hv
      ∙ ap (put_row (stored_row b vs)) (fills d b l rows s' g (omega (arith, h)))
      ∙ put_row-finished d (stored_row b vs)
          (map (stored_row b) l ++ replicate (rows - length l) empty_row)
      ∙ ap (λ k. finished d (stored_row b vs ∷ map (stored_row b) l ++ replicate k empty_row))
          (omega arith)

  overruns :
      (d : Bool) (b : ResultBase T) (l : List (List (RowValue T))) (rows : ℕ) (s : R)
      → Gives b.types_ l s
      → rows < length l
      → store_from api base d b (replicate rows empty_row) s ≡ overrun
  unfolding Gives store_from
  overruns d b [] rows s g h = absurd (omega (arith, h))
  overruns d b (vs ∷ l) zero s (raw, s', ls, (e, (el, (ev, (hv, g))))) h =
      ap (past_end api base d b) (driver_fetch_row-row d b e el ev) ∙ rw hv refl
  overruns d b (vs ∷ l) (suc rows) s (raw, s', ls, (e, (el, (ev, (hv, g))))) h =
      next_slot d b rows vs s s' (driver_fetch_row-row d b e el ev) hv
      ∙ ap (put_row (stored_row b vs)) (overruns d b l rows s' g (omega (arith, h)))

  -- A stored result, for a result set that has the rows `l` behind its fields, and a driver that says
  -- it has `rows` of them. With the exceptions of the driver the constructor throws where it meets the
  -- end of the rows; without them the result has the rows in their order, then empty ones up to the
  -- number said, and each row throws, whether the result does or not. Further rows than were said are
  -- written behind the last one.
  pub store_query_result-Gives :
      (d te : Bool) (rows : ℕ) (s : R) (l : List (List (RowValue T)))
      → Gives (result_base api base te s).0.types_ l (result_base api base te s).1
      → (length l ≤ rows
          → (store_query_result api base d te rows s).1 ≡ (
              if d
              then threw
              else stored (
                  map (stored_row (result_base api base te s).0) l
                  ++ replicate (rows - length l) empty_row)))
        × (rows < length l → (store_query_result api base d te rows s).1 ≡ overrun)
  unfolding store_query_result
  store_query_result-Gives d te rows s l g = (
    fills d (result_base api base te s).0 l rows (result_base api base te s).1 g,
    overruns d (result_base api base te s).0 l rows (result_base api base te s).1 g,
  )
