-- ===== src/Driver/Client.antt =====
-- How the driver hands an option to the C API, src/mysql/driver.cpp. CLIENT_LONG_PASSWORD is taken to
-- be defined.
use libtabula.Prelude.{
  ℕ, zero, suc, ◌+◌, ◌-◌, ◌/◌, ◌%◌, ◌^◌, Bool, true, false, not, ◌&&◌, ltb, leb, ◌==◌,
  if◌then◌else◌,
}
use libtabula.Driver.{
  OptionError, err_none, err_api_limit, err_api_reject, err_connected, ApiOption, Argument, Api,
  Driver,
}

-- n is shifted right until its lowest bit is set or it is zero; a flag has 32 bits.
unfoldable pub odd_part : ℕ → ℕ → ℕ
odd_part zero n = n
odd_part (suc fuel) n =
    let shifted = odd_part fuel (n / 2) in if not (n == 0) && (n % 2 == 0) then shifted else n

-- n |= o and n &= ~o, for an o with one bit.
unfoldable pub has_bit : ℕ → ℕ → Bool
has_bit n o = n / o % 2 == 1

unfoldable pub set_bit : ℕ → ℕ → ℕ
unfolding has_bit
set_bit n o = if has_bit n o then n else n + o

unfoldable pub clear_bit : ℕ → ℕ → ℕ
unfolding has_bit
clear_bit n o = if has_bit n o then n - o else n

unfoldable pub accepted : Bool → OptionError
accepted true = err_none
accepted false = err_api_reject

module _ {W : Type 0} (api : Api W) where
  -- set_option_internal() for mysql_options(), and for the client flags. An o from 2 ^ 31 up is
  -- negative as an int and has no odd part 1.
  unfoldable pub set_by_api : ApiOption → Argument → Driver W → OptionError × Driver W
  unfolding accepted
  set_by_api o arg d =
      let (good, w) = api.mysql_options o arg d.mysql in (accepted good, record d { mysql = w })

  unfoldable pub is_sane : ℕ → Bool
  unfolding odd_part
  is_sane o =
      (odd_part 31 o == 1)
      && ltb o (2 ^ 31)
      && leb api.client_long_password o
      && leb o (if ltb 40000 api.version then api.client_multi_results else api.client_transactions)

  unfoldable pub set_by_flag : ℕ → Bool → Driver W → OptionError × Driver W
  unfolding is_sane set_bit clear_bit
  set_by_flag o arg d =
      if is_sane o
      then (
        err_none,
        record d {
          client_flag = if arg then set_bit d.client_flag o else clear_bit d.client_flag o;
        },
      )
      else (err_api_reject, d)

  unfoldable pub unless_connected :
      (Driver W → OptionError × Driver W) → Driver W → OptionError × Driver W
  unless_connected set d = if d.is_connected then (err_connected, d) else set d

  -- #if MYSQL_VERSION_ID >= v.
  unfoldable pub since : ℕ → (Driver W → OptionError × Driver W) → Driver W → OptionError × Driver W
  since v set d = if leb v api.version then set d else (err_api_limit, d)

  -- The result of mysql_set_server_option() is not looked at.
  unfoldable pub while_connected : Bool → ℕ → Driver W → OptionError × Driver W
  unfolding set_by_flag
  while_connected arg o d =
      if d.is_connected
      then (err_none, record d { mysql = (api.mysql_set_server_option arg d.mysql).1 })
      else set_by_flag o arg d
