-- ===== src/Run/Ends.antt =====
-- The overloads call each other a bounded number of times.
use libtabula.Prelude.{
  ℕ, suc, ◌≡◌, refl, Bool, true, false, ◌&&◌, List, Option, Bool-cases, Option-cases, inl, inr,
  arith,
}
use libtabula.Prelude.Bytes.{Text}
use libtabula.Adapter.{SqlTypeAdapter, of_text, text_of}
use libtabula.Query.{Params, Outcome, ok, bad_param_count}
use libtabula.Run.{
  Runner, Ran, done, bad_query, too_few, out_of_fuel, Call, by_defaults, by_params, by_adapter,
  by_text, flag, unflag, lone, only, expand, left_by, with_text, dispatch, call, execute_text,
  store_text, stored, empty_or_error,
}

-- The call ends, and if `b` then with the flag processing_ down.
abbrev pub Ends : {R : Type 0} → Bool → Ran R → Type 0
Ends b (done r q) = (b && q.processing) ≡ false
Ends b (bad_query q) = (b && q.processing) ≡ false
Ends b (too_few q) = (b && q.processing) ≡ false
Ends b (out_of_fuel q) = true ≡ false

Ends-unflag : {R : Type 0} (b c : Bool) (x : Ran R) → Ends b x → Ends c (unflag x)
Ends-unflag b c (done r q) h = ground arith
Ends-unflag b c (bad_query q) h = ground arith
Ends-unflag b c (too_few q) h = ground arith
Ends-unflag b c (out_of_fuel q) h = h

pub lone_in_flag : (q : Runner) → q.processing ≡ true → lone q ≡ false
unfolding lone
lone_in_flag q up = ground (arith, up)

pub and-false : (b c : Bool) → c ≡ false → (b && c) ≡ false
and-false b c h = ground arith

module _ (escape : Text → Text) {R : Type 0} (send : Text → Runner → Ran R) (own_test : Bool)
    (sends : (t : Text) (q : Runner) → Ends false (send t q)) where
  abbrev calls : ℕ → Call → Runner → Ran R
  calls = call escape send own_test

  -- In a query whose flag is up, a text goes to the driver.
  text_in_flag :
      (fuel : ℕ) (t : Text) (q : Runner)
      → q.processing ≡ true
      → Ends false (calls (suc fuel) (by_text t) q)
  unfolding call dispatch
  text_in_flag fuel t q up = rw (lone_in_flag q up) (sends t q)

  adapter_in_flag :
      (fuel : ℕ) (a : SqlTypeAdapter) (q : Runner)
      → q.processing ≡ true
      → Ends false (calls (suc (suc fuel)) (by_adapter a) q)
  unfolding call dispatch
  adapter_in_flag fuel a q up =
      rw (and-false own_test (lone q) (lone_in_flag q up)) (text_in_flag fuel (text_of a) q up)

  with_text-Ends :
      (fuel : ℕ) (q : Runner) (o : Outcome)
      → q.processing ≡ true
      → Ends false (with_text escape send own_test (calls (suc (suc fuel))) q o)
  unfolding with_text
  with_text-Ends fuel q (ok e) up =
      adapter_in_flag fuel (of_text e.out false) (left_by escape e q) up
  with_text-Ends fuel q (bad_param_count e) up = refl

  params-Ends :
      (fuel : ℕ) (p : Params) (q : Runner)
      → Ends true (calls (suc (suc (suc fuel))) (by_params p) q)
  unfolding call dispatch
  params-Ends fuel p q =
      Ends-unflag false true _
        (with_text-Ends fuel (flag true q) (expand escape false p (flag true q)) refl)

  text-Ends :
      (fuel : ℕ) (t : Text) (q : Runner)
      → Ends false (calls (suc (suc (suc (suc fuel)))) (by_text t) q)
  unfolding call dispatch
  text-Ends fuel t q = elim (Bool-cases (lone q)) [
    | inl yes_lone ↦ rw yes_lone (
        Ends-unflag true false
          (calls (suc (suc (suc fuel))) (by_params (only (of_text t false))) (flag true q))
          (params-Ends fuel (only (of_text t false)) (flag true q)))
    | inr not_lone ↦ rw not_lone (sends t q)
  ]

  abbrev pub lowers : Call → Bool
  lowers by_defaults = true
  lowers (by_params p) = true
  lowers _ = false

  -- Five calls in a row are enough for every overload: the fuel never runs out, and the overloads
  -- without and with parameters leave the flag processing_ down, also where they end in an exception.
  pub call-Ends : (c : Call) (q : Runner) → Ends (lowers c) (calls 5 c q)
  unfolding call dispatch
  call-Ends by_defaults q =
      Ends-unflag false true _
        (with_text-Ends 2 (flag true q) (expand escape true q.defaults (flag true q)) refl)
  call-Ends (by_params p) q = params-Ends 2 p q
  call-Ends (by_text t) q = text-Ends 1 t q
  call-Ends (by_adapter a) q = elim (Bool-cases (own_test && lone q)) [
    | inl yes_lone ↦ rw yes_lone (
        Ends-unflag true false (calls 4 (by_params (only a)) (flag true q))
          (params-Ends 1 (only a) (flag true q)))
    | inr not_lone ↦ rw not_lone (text-Ends 0 (text_of a) q)
  ]

module _ {R : Type 0} (accepts : List Text → Text → Bool) (result : List Text → Text → Option R)
    (no_error : List Text → Text → Bool) (throws : Bool) where
  pub execute_text-Ends :
      (t : Text) (q : Runner) → Ends false (execute_text accepts result no_error throws t q)
  unfolding execute_text
  execute_text-Ends t q = ground arith

  empty_or_error-Ends :
      (t : Text) (q : Runner) → Ends false (empty_or_error accepts result no_error throws t q)
  unfolding empty_or_error
  empty_or_error-Ends t q = ground arith

  pub store_text-Ends :
      (t : Text) (q : Runner) → Ends false (store_text accepts result no_error throws t q)
  unfolding store_text stored
  store_text-Ends t q = elim (Bool-cases (accepts q.log t)) [
    | inl accepted ↦ elim (Option-cases (result q.log t)) [
      | inl nothing ↦ rw (accepted, nothing) (empty_or_error-Ends t q)
      | inr (r, rows) ↦ rw (accepted, rows) refl
    ]
    | inr denied ↦ rw denied (empty_or_error-Ends t q)
  ]
