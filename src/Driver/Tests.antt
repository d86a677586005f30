-- ===== src/Driver/Tests.antt =====
-- A driver over a small C API, and the theorems at it.
use libtabula.Prelude.{ℕ, ◌+◌, ◌≡◌, refl, true, false, [], ◌∷◌}
use libtabula.Driver.{
  err_none, err_connected, reconnect, compress, found_rows, connect_timeout, Api, Driver,
}
use libtabula.Driver.Connecting.{
  returned, undefined, is_queued, set_option, set_option_default, connect, disconnect, made,
}
use libtabula.Driver.Flags.{Settled, set_option-Settled}
use libtabula.Driver.Pending.{
  op_set, op_connect, run, joined, connect-joined, run-Idles, connect-undefined,
  set_option_default-set_option,
}

-- Every call succeeds and is counted.
abbrev api_of : ℕ → Api ℕ
api_of version = record {
  version = version;
  has_ssl_set = true;
  client_long_password = 1;
  client_transactions = 8192;
  client_found_rows = 2;
  client_no_schema = 16;
  client_local_files = 128;
  client_ignore_space = 256;
  client_interactive = 1024;
  client_multi_statements = 65536;
  client_multi_results = 131072;
  mysql_options = λ o a w. (true, w + 1);
  mysql_ssl_set = λ w. (true, w + 1);
  mysql_set_server_option = λ b w. (true, w + 1);
  mysql_real_connect = λ flags w. (true, w + 1);
  mysql_close = λ w. w + 1;
  mysql_memset = λ w. w;
}

abbrev fresh : Driver ℕ
fresh = record {
  is_connected = false;
  option_error = err_none;
  applied_options = [];
  pending_options = [];
  client_flag = 0;
  mysql = 0;
}

fresh_made : fresh ≡ made (api_of 80000) 0 0
unfolding made
fresh_made = refl

-- A flag of the client is set before the connection, and refused with it.
flag_then_connect :
    run
      (api_of 80000)
      (op_set (found_rows true) ∷ op_connect ∷ op_set (found_rows false) ∷ [])
      fresh
    ≡ returned (record {
      is_connected = true;
      option_error = err_connected;
      applied_options = found_rows true ∷ [];
      pending_options = [];
      client_flag = 2;
      mysql = 1;
    })
unfolding run
flag_then_connect = refl

set_option-Settled_example :
    Settled (api_of 50100) (reconnect true) fresh (set_option (api_of 50100) (reconnect true) fresh)
set_option-Settled_example = set_option-Settled (api_of 50100) (reconnect true) fresh

connect-joined_case :
    connect (api_of 80000) fresh
    ≡ returned (joined (api_of 80000) (disconnect (api_of 80000) fresh))
connect-joined_case = connect-joined (api_of 80000) fresh refl

run-Idles_example :
    (e : Driver ℕ) × ((run (api_of 80000) (op_set (reconnect true) ∷ op_connect ∷ []) fresh
        ≡ returned e)
      × (e.pending_options ≡ []))
run-Idles_example =
    run-Idles (api_of 80000) (op_set (reconnect true) ∷ op_connect ∷ []) fresh refl refl

connect-undefined_case :
    ((set_option (api_of 50100) (reconnect true) fresh).0 ≡ true)
    × (connect (api_of 50100) (set_option (api_of 50100) (reconnect true) fresh).1 ≡ undefined)
connect-undefined_case = connect-undefined (api_of 50100) refl true fresh refl refl

set_option_default-set_option_case :
    set_option_default
      (api_of 80000)
      (connect_timeout 5)
      (set_option (api_of 80000) compress fresh).1
    ≡ (true, (set_option (api_of 80000) compress fresh).1)
unfolding set_option is_queued
set_option_default-set_option_case =
    set_option_default-set_option (api_of 80000) compress (connect_timeout 5) fresh refl refl
