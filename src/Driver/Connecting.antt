-- ===== src/Driver/Connecting.antt =====
-- DBDriver, which queues options, and the connection of MySQLDriver: src/dbdriver.h and
-- src/dbdriver.cpp, src/mysql/driver.cpp.
use libtabula.Prelude.{
  ℕ, ◌+◌, ◌==◌, Bool, true, false, List, [], ◌∷◌, ◌++◌, Option, none, some, if◌then◌else◌, map,
}
use libtabula.Driver.{
  OptionError, err_none, err_api_limit, err_api_reject, err_connected, err_disconnected, Setting,
  Api, Driver,
}
use libtabula.Driver.Settings.{set}

-- How an operation ends: with what it returns, or where C++ gives the code no meaning.
pub data Ended {ℓ} (A : Type ℓ) : Type ℓ where
  returned : A → Ended A
  undefined : Ended A

infixl 5 ◌>>=◌
abbrev pub ◌>>=◌ {ℓ κ} : {A : Type ℓ} {B : Type κ} → Ended A → (A → Ended B) → Ended B
returned a >>= f = f a
undefined >>= f = undefined

-- The deque grows under the iterator of the loop if the option is queued again.
unfoldable pub is_queued : OptionError → Bool
is_queued err_disconnected = true
is_queued err_none = false
is_queued err_api_limit = false
is_queued err_api_reject = false
is_queued err_connected = false

module _ {W : Type 0} where
  -- What set_option() does with the option by its error: it is applied, it is queued, or it is
  -- destroyed.
  unfoldable pub settle : Setting → OptionError → Driver W → Bool × Driver W
  settle o err_none d =
      (true, record d { option_error = err_none; applied_options = d.applied_options ++ o ∷ [] })
  settle o err_disconnected d = (
    true,
    record d {
      option_error = err_disconnected;
      pending_options = d.pending_options ++ some o ∷ [];
    },
  )
  settle o err_api_limit d = (false, record d { option_error = err_api_limit })
  settle o err_api_reject d = (false, record d { option_error = err_api_reject })
  settle o err_connected d = (false, record d { option_error = err_connected })

  -- failed_options starts with as many null pointers as there are pending options, and the options
  -- that failed come behind them: copying all of them back leaves null pointers where there were
  -- options, and writes past the end if one failed.
  unfoldable pub copy_failed : ℕ → Driver W → Ended (Driver W)
  copy_failed failed d = elim d.pending_options [
    | [] ↦ returned (record d { pending_options = [] })
    | ◌∷◌ o more ↦
        if failed == 0
        then returned (record d { pending_options = map (λ p. none) d.pending_options })
        else undefined
  ]

module _ {W : Type 0} (api : Api W) where
  unfoldable pub set_option : Setting → Driver W → Bool × Driver W
  unfolding set settle
  set_option o d = let (e, d₁) = set api o d in settle o e d₁

  -- typeid(o) and typeid(*it) are both the type of a pointer to Option.
  unfoldable pub set_option_default : Setting → Driver W → Bool × Driver W
  unfolding set_option
  set_option_default o d = elim d.applied_options [
    | [] ↦ set_option o d
    | ◌∷◌ applied more ↦ (true, d)
  ]

  -- The loop, with the options it has passed and the number of those that failed. set_option() on a
  -- null pointer is undefined. Where the loop quits, the option that failed is destroyed and its
  -- pointer stays, to be used no more.
  unfoldable pub apply_each :
      Bool → List (Option Setting) → List (Option Setting) → ℕ → Driver W → Ended (Bool × Driver W)
  unfolding set_option is_queued copy_failed set
  apply_each quit passed [] failed d = do e ← copy_failed failed d; returned (true, e)
  apply_each quit passed (none ∷ more) failed d = undefined
  apply_each quit passed (some o ∷ more) failed d =
      let (good, e) = set_option o d in
      let next = apply_each quit (passed ++ some o ∷ []) more failed e in
      let next_failed = apply_each quit (passed ++ some o ∷ []) more (failed + 1) e in
      if is_queued e.option_error
      then undefined
      else if good
      then next
      else if quit
      then returned (false, record e { pending_options = passed ++ none ∷ more })
      else next_failed

  unfoldable pub apply_pending_options : Bool → Driver W → Ended (Bool × Driver W)
  unfolding apply_each
  apply_pending_options quit d =
      apply_each quit [] d.pending_options 0 (record d { option_error = err_none })

  unfoldable pub disconnect : Driver W → Driver W
  disconnect d =
      if d.is_connected
      then record d {
        is_connected = false;
        client_flag = 0;
        mysql = api.mysql_memset (api.mysql_close d.mysql);
      }
      else d

  -- mysql_real_connect(), and DBDriver::connect() if that succeeds.
  unfoldable pub connect_to : Driver W → Ended (Bool × Driver W)
  unfolding apply_pending_options
  connect_to d =
      let (good, w) = api.mysql_real_connect d.client_flag d.mysql in
      let e = record d { mysql = w } in
      if good then apply_pending_options true e else returned (false, e)

  unfoldable pub connect_if : Bool × Driver W → Ended (Bool × Driver W)
  unfolding connect_to
  connect_if r = if r.0 then connect_to r.1 else returned r

  unfoldable pub assign_connected : Bool × Driver W → Bool × Driver W
  assign_connected r = (r.0, record (r.1) { is_connected = r.0 })

  -- MySQLDriver::connect(). The member is_connected_ is false until the end.
  unfoldable pub connect : Driver W → Ended (Bool × Driver W)
  unfolding disconnect apply_pending_options connect_if assign_connected
  connect d = do
    applied ← apply_pending_options false (disconnect d)
    joined ← connect_if applied
    returned (assign_connected joined)

  -- A driver that was made, with the flags and the handle that mysql_init() leaves.
  unfoldable pub made : ℕ → W → Driver W
  made flag w = record {
    is_connected = false;
    option_error = err_none;
    applied_options = [];
    pending_options = [];
    client_flag = flag;
    mysql = w;
  }
