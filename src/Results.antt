-- ===== src/Results.antt =====
-- Result sets: the constructors of src/result.h and src/result.cpp, UseQueryResult::fetch_row(), and
-- fetch_fields() and fetch_row() of src/mysql/driver.cpp, which fill them. The C API is the record
-- `ResultApi`: R are the states of its result set, P addresses, T types of fields; `base` is
-- FieldType::base_type(). A result here has a result set of the API.
pub mod Filled
pub mod Loops
pub mod Tests
use libtabula.Prelude.{
  ℕ, zero, suc, Bool, true, false, ◌&&◌, List, [], ◌∷◌, Option, none, some, if◌then◌else◌,
  replicate, map,
}
use libtabula.Prelude.Bytes.{Text, codes}
use libtabula.Rows.{Row}

-- What Field's constructor takes from a MYSQL_FIELD, as far as it matters here.
pub record Field (T : Type 0) : Type 0 where
  pub name : Text
  pub table : Text
  pub type : T

-- mysql_num_fields() and the like; a row is addresses, null ones too. `bytes` reads the memory.
pub record ResultApi (R P T : Type 0) : Type 0 where
  pub num_fields : R → ℕ
  pub fetch_field : R → Option (Field T) × R
  pub field_seek : ℕ → R → R
  pub fetch_row : R → Option (List (Option P)) × R
  pub fetch_lengths : R → Option (List ℕ)
  pub bytes : P → ℕ → Text

-- A value of a row: String(str, len, type, is_null).
pub record RowValue (T : Type 0) : Type 0 where
  pub text : Text
  pub type : T
  pub is_null : Bool

pub record ResultBase (T : Type 0) : Type 0 where
  pub fields_ : List (Field T)
  pub names_ : List Text
  pub types_ : List T
  pub current_field : ℕ
  pub throws : Bool

-- A row, Row(), ObjectNotInitialized, UseQueryError, or a read out of bounds.
pub data Fetched (R T : Type 0) : Type 0 where
  fetched : Row (RowValue T) → R → Fetched R T
  no_row row_is_null undefined : Fetched R T
  use_query_error : Text → Fetched R T

-- The rows of a StoreQueryResult, an exception, or an access out of bounds, as that of `*it++ = row`
-- behind the last row.
pub data Stored (T : Type 0) : Type 0 where
  stored : List (Row (RowValue T)) → Stored T
  threw overrun : Stored T

module _ {T : Type 0} where
  -- Row(): an empty row, with exceptions.
  abbrev pub empty_row : Row (RowValue T)
  empty_row = record { data_ = []; field_names = none; initialized = false; throws = true }

  -- Row::operator =, which leaves the exceptions of the left side as they are.
  abbrev pub assign : Row (RowValue T) → Row (RowValue T) → Row (RowValue T)
  assign to from = record to {
    data_ = from.data_;
    field_names = from.field_names;
    initialized = from.initialized;
  }

  -- Row(const Row&), with exceptions again, unless the compiler leaves the copy out.
  abbrev pub copied : Bool → Row (RowValue T) → Row (RowValue T)
  copied elided r = if elided then r else record r { throws = true }

  abbrev pub has_values : List (RowValue T) → Bool
  has_values [] = false
  has_values (v ∷ vs) = true

  -- Row::operator private_bool_type.
  abbrev pub is_row : Row (RowValue T) → Bool
  is_row r = r.initialized && has_values r.data_

  abbrev pub put_value : RowValue T → Option (List (RowValue T)) → Option (List (RowValue T))
  put_value v none = none
  put_value v (some vs) = some (v ∷ vs)

  abbrev pub put_row : Row (RowValue T) → Stored T → Stored T
  put_row r (stored rs) = stored (r ∷ rs)
  put_row r threw = threw
  put_row r overrun = overrun

abbrev pub tail : List ℕ → List ℕ
tail [] = []
tail (n ∷ ns) = ns

abbrev pub known : Option (List ℕ) → List ℕ
known none = []
known (some ns) = ns

module _ {R P T : Type 0} (api : ResultApi R P T) (base : T → T) where
  abbrev pub take_field : (R → List (Field T) × R) → Option (Field T) × R → List (Field T) × R
  take_field more (none, s) = ([], s)
  take_field more (some f, s) = (f ∷ (more s).0, (more s).1)

  -- MySQLDriver::fetch_fields().
  unfoldable pub fields_from : ℕ → R → List (Field T) × R
  fields_from zero s = ([], s)
  fields_from (suc c) s = take_field (fields_from c) (api.fetch_field s)

  unfoldable pub fetch_fields : R → List (Field T) × R
  unfolding fields_from
  fetch_fields s = let r = fields_from (api.num_fields s) s in (r.0, api.field_seek 0 r.1)

  -- ResultBase(res, driver, te) with FieldNames::init() and FieldTypes::init().
  unfoldable pub result_base : Bool → R → ResultBase T × R
  unfolding fetch_fields
  result_base te s =
      let r = fetch_fields s in
      (
        record {
          fields_ = r.0;
          names_ = map (λ f. f.name) r.0;
          types_ = map (λ f. f.type) r.0;
          current_field = 0;
          throws = te;
        },
        r.1,
      )

  -- MySQLDriver::fetch_row(), the loop over the fields of the result.
  unfoldable pub values : List T → List (Option P) → List ℕ → Option (List (RowValue T))
  values [] raw ls = some []
  values (t ∷ ts) [] ls = none
  values (t ∷ ts) (none ∷ raw) ls =
      put_value (record { text = codes "NULL"; type = base t; is_null = true })
        (values ts raw (tail ls))
  values (t ∷ ts) (some p ∷ raw) [] = none
  values (t ∷ ts) (some p ∷ raw) (n ∷ ls) =
      put_value (record { text = api.bytes p n; type = base t; is_null = false }) (values ts raw ls)

  -- `d` are the exceptions of the driver.
  module _ (d : Bool) (b : ResultBase T) where
    abbrev pub row_of : List (RowValue T) → Row (RowValue T)
    row_of vs = record { data_ = vs; field_names = some b.names_; initialized = true; throws = d }

    abbrev pub made : R → Option (List (RowValue T)) → Fetched R T
    made s none = undefined
    made s (some vs) = fetched (row_of vs) s

    abbrev pub driver_row : Option (List (Option P)) × R → Fetched R T
    driver_row (none, s) = if d then row_is_null else no_row
    driver_row (some raw, s) = made s (values b.types_ raw (known (api.fetch_lengths s)))

    -- MySQLDriver::fetch_row().
    unfoldable pub driver_fetch_row : R → Fetched R T
    unfolding values
    driver_fetch_row s = driver_row (api.fetch_row s)

    abbrev pub past_end : Fetched R T → Stored T
    past_end (fetched r s) = if is_row r then overrun else stored []
    past_end no_row = stored []
    past_end row_is_null = threw
    past_end undefined = overrun
    past_end (use_query_error n) = threw

    abbrev pub on_slot :
        Row (RowValue T) → List (Row (RowValue T)) → (R → Stored T) → Fetched R T → Stored T
    on_slot slot slots more (fetched r s) =
        if is_row r then put_row (assign slot r) (more s) else stored (slot ∷ slots)
    on_slot slot slots more no_row = stored (slot ∷ slots)
    on_slot slot slots more row_is_null = threw
    on_slot slot slots more undefined = overrun
    on_slot slot slots more (use_query_error n) = threw

    -- StoreQueryResult(res, rows, dbd, te), the loop: *it++ = row.
    unfoldable pub store_from : List (Row (RowValue T)) → R → Stored T
    unfolding driver_fetch_row
    store_from [] s = past_end (driver_fetch_row s)
    store_from (slot ∷ slots) s = on_slot slot slots (store_from slots) (driver_fetch_row s)

    -- UseQueryResult::fetch_row(), from the lengths on. `e` are the exceptions of the result.
    abbrev pub with_lengths : Bool → Bool → Row (RowValue T) → R → Option (List ℕ) → Fetched R T
    with_lengths elided e r s none =
        if e then use_query_error (codes "Failed to get field lengths") else no_row
    with_lengths elided e r s (some ls) = fetched (copied elided r) s

    abbrev pub after_row : Bool → Bool → Fetched R T → Fetched R T
    after_row elided e (fetched r s) =
        if is_row r then with_lengths elided e r s (api.fetch_lengths s) else no_row
    after_row elided e no_row = no_row
    after_row elided e row_is_null = row_is_null
    after_row elided e undefined = undefined
    after_row elided e (use_query_error n) = use_query_error n

    -- UseQueryResult::fetch_row(), for a result set or none.
    unfoldable pub use_fetch_row : Bool → Bool → Option R → Fetched R T
    unfolding driver_fetch_row
    use_fetch_row elided e none =
        if e then use_query_error (codes "Results not fetched") else no_row
    use_fetch_row elided e (some s) = after_row elided e (driver_fetch_row s)

  -- StoreQueryResult(res, rows, dbd, te).
  unfoldable pub store_query_result : Bool → Bool → ℕ → R → ResultBase T × Stored T
  unfolding result_base store_from
  store_query_result d te rows s =
      let r = result_base te s in (r.0, store_from d r.0 (replicate rows empty_row) r.1)
