-- ===== src/Driver.antt =====
-- Options of a connection and the driver that sets them: options.h and options.cpp, dbdriver.h and
-- dbdriver.cpp, and src/mysql/driver.h and driver.cpp. The C API of the server is the record `Api`
-- over the states of its own, `W`.
pub mod Client
pub mod Settings
pub mod Connecting
pub mod Each
pub mod Flags
pub mod Pending
pub mod Tests
use libtabula.Prelude.{ℕ, Bool, List, Option}
use libtabula.Prelude.Bytes.{Text}

-- Option::Error.
pub data OptionError : Type 0 where
  err_none err_api_limit err_api_reject err_connected err_disconnected : OptionError

-- The subclasses of Option, with their arguments.
pub data Setting : Type 0 where
  compress guess_connection named_pipe ssl use_embedded_connection use_remote_connection : Setting
  connect_timeout local_infile protocol read_timeout write_timeout : ℕ → Setting
  found_rows ignore_space interactive local_files multi_results multi_statements no_schema reconnect
        report_data_truncation secure_auth :
      Bool → Setting
  init_command read_default_file read_default_group set_charset_dir set_charset_name set_client_ip
        shared_memory_base_name :
      Text → Setting

-- The options of mysql_options(), and what it is handed with them.
pub data ApiOption : Type 0 where
  opt_compress opt_connect_timeout opt_guess_connection opt_init_command opt_local_infile
        opt_named_pipe opt_protocol opt_read_default_file opt_read_default_group opt_read_timeout
        opt_report_data_truncation opt_secure_auth opt_set_charset_dir opt_set_charset_name
        opt_set_client_ip opt_shared_memory_base_name opt_use_embedded_connection
        opt_use_remote_connection opt_write_timeout opt_reconnect :
      ApiOption

pub data Argument : Type 0 where
  no_argument : Argument
  number : ℕ → Argument
  truth : Bool → Argument
  text : Text → Argument

-- The C API: its version, the values of its flags, and its functions. The Booleans say whether a
-- call succeeds.
pub record Api (W : Type 0) : Type 0 where
  pub version : ℕ
  pub has_ssl_set : Bool
  pub client_long_password : ℕ
  pub client_transactions : ℕ
  pub client_found_rows : ℕ
  pub client_no_schema : ℕ
  pub client_local_files : ℕ
  pub client_ignore_space : ℕ
  pub client_interactive : ℕ
  pub client_multi_statements : ℕ
  pub client_multi_results : ℕ
  pub mysql_options : ApiOption → Argument → W → Bool × W
  pub mysql_ssl_set : W → Bool × W
  pub mysql_set_server_option : Bool → W → Bool × W
  pub mysql_real_connect : ℕ → W → Bool × W
  pub mysql_close : W → W
  pub mysql_memset : W → W

-- A driver. A pending option is none where the queue has a null pointer.
pub record Driver (W : Type 0) : Type 0 where
  pub is_connected : Bool
  pub option_error : OptionError
  pub applied_options : List Setting
  pub pending_options : List (Option Setting)
  pub client_flag : ℕ
  pub mysql : W
