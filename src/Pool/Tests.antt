-- ===== src/Pool/Tests.antt =====
-- Tests of the pool, and its theorems at concrete inputs.
use mathlib.Core.List.{Perm}
use libtabula.Prelude.{
  ◌≡◌, refl, true, false, List, [], ◌∷◌, some, arith, ℕ, ap, Bool, leb, Option, suc, get_elem?,
}
use libtabula.Pool.{
  ConnectionInfo, Pool, Env, Op, grabs, releases, clears, empty, grab, remove_old_connections, run,
  step, less, max_element, release, clear, sweep, max_element_from, find_mru, add_new, too_old,
}
use libtabula.Pool.Order.{less_strict, IsMax, max_element-IsMax}
use libtabula.Pool.Mru.{Lends, grab-Lends, grab-add_new}
use libtabula.Pool.Entries.{Holds}
use libtabula.Pool.Scoped.{Ends, leave_scope, acquire, leave_scope-Ends}
use libtabula.Pool.Ownership.{step-Holds, grab-run-NotLent, NotLent}
use libtabula.Pool.Accounts.{Accounts, run-Accounts, run-clear}

abbrev at_time : ℕ → ℕ → Env
at_time t c = record { now = t; max_idle = 30; create = some c; now_created = suc t }

abbrev entry : ℕ → ℕ → ConnectionInfo
entry c t = record { conn = c; last_used = t; in_use = false }

-- Connection 7 is too old at time 100; 8 and 9 are free; 6 is in use.
abbrev mixed : Pool
mixed = record {
  infos =
      record { conn = 6; last_used = 10; in_use = true }
      ∷ entry 7 60
      ∷ entry 8 80
      ∷ entry 9 75
      ∷ [];
  created = 9 ∷ 8 ∷ 7 ∷ 6 ∷ [];
  destroyed = [];
}

test_mixed : (grab (at_time 100 5) mixed).1 ≡ some 8
unfolding grab find_mru max_element max_element_from less remove_old_connections sweep too_old
test_mixed = refl

-- A thread grabs, another grabs, the first gives back and grabs again.
abbrev history : List Op
history = grabs (at_time 1 5) ∷ grabs (at_time 2 6) ∷ releases 5 4 ∷ []

test_again : (grab (at_time 5 9) (run history empty)).1 ≡ some 5
unfolding run step grab find_mru max_element max_element_from less remove_old_connections sweep
    too_old add_new release
test_again = refl

less_strict_case :
    (less (entry 1 2) (entry 1 2) ≡ false)
    × (less (entry 1 2) (entry 2 3) ≡ true
        → less (entry 2 3) (entry 3 4) ≡ true
        → less (entry 1 2) (entry 3 4) ≡ true)
    × (less (entry 2 3) (entry 1 2) ≡ false
        → less (entry 3 4) (entry 2 3) ≡ false
        → less (entry 3 4) (entry 1 2) ≡ false)
less_strict_case = less_strict (entry 1 2) (entry 2 3) (entry 3 4)

abbrev pub live : Pool
live = remove_old_connections 30 100 mixed

grab-Lends_example : (at : ℕ) × (i : ConnectionInfo) × Lends live (grab (at_time 100 5) mixed) at i
unfolding remove_old_connections sweep too_old
grab-Lends_example = grab-Lends (at_time 100 5) mixed 1 (entry 8 80) refl refl

grab-add_new_case : (grab (at_time 200 5) mixed).1 ≡ some 5
unfolding remove_old_connections sweep too_old
grab-add_new_case =
    ap (λ (r : Pool × Option ℕ). r.1) ((grab-add_new (at_time 200 5) mixed (refl, tt)).0 5 refl)

step-Holds_case :
    Holds (record { conn = 6; last_used = 10; in_use = true }) (step (clears false) mixed).infos
step-Holds_case = step-Holds (clears false) mixed _ refl refl (0, refl)

grab-run-NotLent_example : NotLent 5 (run history empty)
unfolding run step grab find_mru max_element max_element_from less remove_old_connections sweep
    too_old add_new release
grab-run-NotLent_example =
    grab-run-NotLent history (at_time 5 9) 5
      ((λ c e. tt), ((λ c e. ((λ q. ground arith), tt)), (tt, tt)))
      (λ c e. ((λ q. ground arith), ((λ q. ground arith), tt))) refl

run-Accounts_example : Accounts (run history empty)
run-Accounts_example = run-Accounts history

run-clear_case :
    ((clear true (run history empty)).infos ≡ [])
    × Perm (clear true (run history empty)).created (clear true (run history empty)).destroyed
run-clear_case = run-clear history

abbrev ping : ℕ → ℕ → Bool
ping k c = leb 10 c

max_element-IsMax_case :
    (at : ℕ) × (i : ConnectionInfo) × (max_element (entry 1 5 ∷ entry 2 9 ∷ []) ≡ some (at, i))
    × (get_elem? (entry 1 5 ∷ entry 2 9 ∷ []) at ≡ some i)
    × IsMax i (entry 1 5 ∷ entry 2 9 ∷ [])
max_element-IsMax_case = max_element-IsMax (entry 1 5) (entry 2 9 ∷ [])

-- In the scope of the connection 9, another thread gets the connection 10.
leave_scope-Ends_example :
    Ends 9 20 (clears false ∷ grabs (at_time 6 10) ∷ []) (grab (at_time 5 9) empty).0 (
      leave_scope
        (clears false ∷ grabs (at_time 6 10) ∷ [])
        20
        (acquire false (λ k. at_time 5 9) ping 3 empty))
unfolding run step grab find_mru max_element max_element_from less remove_old_connections sweep
    too_old add_new clear
leave_scope-Ends_example =
    leave_scope-Ends [] (clears false ∷ grabs (at_time 6 10) ∷ []) (at_time 5 9) ping 3 9 20 tt
      ((λ c e. tt), (tt, ((λ c e. ((λ q. ground (arith, e, q)), tt)), tt))) refl
      (λ x h. (refl, (refl, tt)))
