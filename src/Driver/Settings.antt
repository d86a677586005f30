-- ===== src/Driver/Settings.antt =====
-- MySQLDriver::set_option_impl(), one function for each option, src/mysql/driver.cpp.
use libtabula.Prelude.{ℕ, Bool, leb, if◌then◌else◌}
use libtabula.Prelude.Bytes.{Text}
use libtabula.Driver.{
  OptionError, err_api_limit, err_disconnected, Setting, compress, connect_timeout, found_rows,
  guess_connection, ignore_space, init_command, interactive, local_files, local_infile,
  multi_results, multi_statements, named_pipe, no_schema, protocol, read_default_file,
  read_default_group, read_timeout, reconnect, report_data_truncation, secure_auth, set_charset_dir,
  set_charset_name, set_client_ip, shared_memory_base_name, ssl, use_embedded_connection,
  use_remote_connection, write_timeout, opt_compress, opt_connect_timeout, opt_guess_connection,
  opt_init_command, opt_local_infile, opt_named_pipe, opt_protocol, opt_read_default_file,
  opt_read_default_group, opt_read_timeout, opt_report_data_truncation, opt_secure_auth,
  opt_set_charset_dir, opt_set_charset_name, opt_set_client_ip, opt_shared_memory_base_name,
  opt_use_embedded_connection, opt_use_remote_connection, opt_write_timeout, opt_reconnect,
  no_argument, number, truth, text, Api, Driver,
}
use libtabula.Driver.Client.{
  accepted, unless_connected, since, while_connected, set_by_api, set_by_flag,
}

module _ {W : Type 0} (api : Api W) where
  unfoldable pub impl_compress : Driver W → OptionError × Driver W
  unfolding unless_connected set_by_api
  impl_compress d = unless_connected api (set_by_api api opt_compress no_argument) d

  unfoldable pub impl_connect_timeout : ℕ → Driver W → OptionError × Driver W
  unfolding unless_connected set_by_api
  impl_connect_timeout arg d =
      unless_connected api (set_by_api api opt_connect_timeout (number arg)) d

  unfoldable pub impl_found_rows : Bool → Driver W → OptionError × Driver W
  unfolding unless_connected set_by_flag
  impl_found_rows arg d = unless_connected api (set_by_flag api api.client_found_rows arg) d

  unfoldable pub impl_guess_connection : Driver W → OptionError × Driver W
  unfolding unless_connected set_by_api since
  impl_guess_connection d =
      since api 40101 (unless_connected api (set_by_api api opt_guess_connection no_argument)) d

  unfoldable pub impl_ignore_space : Bool → Driver W → OptionError × Driver W
  unfolding unless_connected set_by_flag
  impl_ignore_space arg d = unless_connected api (set_by_flag api api.client_ignore_space arg) d

  unfoldable pub impl_init_command : Text → Driver W → OptionError × Driver W
  unfolding unless_connected set_by_api
  impl_init_command arg d = unless_connected api (set_by_api api opt_init_command (text arg)) d

  unfoldable pub impl_interactive : Bool → Driver W → OptionError × Driver W
  unfolding unless_connected set_by_flag
  impl_interactive arg d = unless_connected api (set_by_flag api api.client_interactive arg) d

  unfoldable pub impl_local_files : Bool → Driver W → OptionError × Driver W
  unfolding unless_connected set_by_flag
  impl_local_files arg d = unless_connected api (set_by_flag api api.client_local_files arg) d

  unfoldable pub impl_local_infile : ℕ → Driver W → OptionError × Driver W
  unfolding unless_connected set_by_api
  impl_local_infile arg d = unless_connected api (set_by_api api opt_local_infile (number arg)) d

  unfoldable pub impl_multi_results : Bool → Driver W → OptionError × Driver W
  unfolding while_connected since
  impl_multi_results arg d = since api 40101 (while_connected api arg api.client_multi_results) d

  unfoldable pub impl_multi_statements : Bool → Driver W → OptionError × Driver W
  unfolding while_connected since
  impl_multi_statements arg d =
      since api 40101 (while_connected api arg api.client_multi_statements) d

  unfoldable pub impl_named_pipe : Driver W → OptionError × Driver W
  unfolding unless_connected set_by_api
  impl_named_pipe d = unless_connected api (set_by_api api opt_named_pipe no_argument) d

  unfoldable pub impl_no_schema : Bool → Driver W → OptionError × Driver W
  unfolding unless_connected set_by_flag
  impl_no_schema arg d = unless_connected api (set_by_flag api api.client_no_schema arg) d

  unfoldable pub impl_protocol : ℕ → Driver W → OptionError × Driver W
  unfolding unless_connected set_by_api since
  impl_protocol arg d =
      since api 40001 (unless_connected api (set_by_api api opt_protocol (number arg))) d

  unfoldable pub impl_read_default_file : Text → Driver W → OptionError × Driver W
  unfolding unless_connected set_by_api
  impl_read_default_file arg d =
      unless_connected api (set_by_api api opt_read_default_file (text arg)) d

  unfoldable pub impl_read_default_group : Text → Driver W → OptionError × Driver W
  unfolding unless_connected set_by_api
  impl_read_default_group arg d =
      unless_connected api (set_by_api api opt_read_default_group (text arg)) d

  unfoldable pub impl_read_timeout : ℕ → Driver W → OptionError × Driver W
  unfolding unless_connected set_by_api since
  impl_read_timeout arg d =
      since api 40101 (unless_connected api (set_by_api api opt_read_timeout (number arg))) d

  unfoldable pub impl_reconnect : Bool → Driver W → OptionError × Driver W
  unfolding set_by_api
  impl_reconnect arg d =
      let set = set_by_api api opt_reconnect (truth arg) d in
      if leb 50106 api.version
      then set
      else if leb 50013 api.version
      then if d.is_connected then set else (err_disconnected, d)
      else (err_api_limit, d)

  unfoldable pub impl_report_data_truncation : Bool → Driver W → OptionError × Driver W
  unfolding unless_connected set_by_api since
  impl_report_data_truncation arg d =
      since api 50003 (unless_connected api (set_by_api api opt_report_data_truncation (truth arg)))
        d

  unfoldable pub impl_secure_auth : Bool → Driver W → OptionError × Driver W
  unfolding unless_connected set_by_api since
  impl_secure_auth arg d =
      since api 40101 (unless_connected api (set_by_api api opt_secure_auth (truth arg))) d

  unfoldable pub impl_set_charset_dir : Text → Driver W → OptionError × Driver W
  unfolding unless_connected set_by_api
  impl_set_charset_dir arg d =
      unless_connected api (set_by_api api opt_set_charset_dir (text arg)) d

  unfoldable pub impl_set_charset_name : Text → Driver W → OptionError × Driver W
  unfolding unless_connected set_by_api
  impl_set_charset_name arg d =
      unless_connected api (set_by_api api opt_set_charset_name (text arg)) d

  unfoldable pub impl_set_client_ip : Text → Driver W → OptionError × Driver W
  unfolding unless_connected set_by_api since
  impl_set_client_ip arg d =
      since api 40101 (unless_connected api (set_by_api api opt_set_client_ip (text arg))) d

  unfoldable pub impl_shared_memory_base_name : Text → Driver W → OptionError × Driver W
  unfolding unless_connected set_by_api since
  impl_shared_memory_base_name arg d =
      since api 40100 (unless_connected api (set_by_api api opt_shared_memory_base_name (text arg)))
        d

  unfoldable pub ssl_set : Driver W → OptionError × Driver W
  unfolding accepted
  ssl_set d = let (good, w) = api.mysql_ssl_set d.mysql in (accepted good, record d { mysql = w })

  unfoldable pub impl_ssl : Driver W → OptionError × Driver W
  unfolding unless_connected ssl_set
  impl_ssl d = if api.has_ssl_set then unless_connected api ssl_set d else (err_api_limit, d)

  unfoldable pub impl_use_embedded_connection : Driver W → OptionError × Driver W
  unfolding unless_connected set_by_api since
  impl_use_embedded_connection d =
      since api 40101
        (unless_connected api (set_by_api api opt_use_embedded_connection no_argument)) d

  unfoldable pub impl_use_remote_connection : Driver W → OptionError × Driver W
  unfolding unless_connected set_by_api since
  impl_use_remote_connection d =
      since api 40101 (unless_connected api (set_by_api api opt_use_remote_connection no_argument))
        d

  unfoldable pub impl_write_timeout : ℕ → Driver W → OptionError × Driver W
  unfolding unless_connected set_by_api since
  impl_write_timeout arg d =
      since api 40101 (unless_connected api (set_by_api api opt_write_timeout (number arg))) d

  -- Option::set() of each class.
  unfoldable pub set : Setting → Driver W → OptionError × Driver W
  unfolding impl_compress impl_connect_timeout impl_found_rows impl_guess_connection
      impl_ignore_space impl_init_command impl_interactive impl_local_files impl_local_infile
      impl_multi_results impl_multi_statements impl_named_pipe impl_no_schema impl_protocol
      impl_read_default_file impl_read_default_group impl_read_timeout impl_reconnect
      impl_report_data_truncation impl_secure_auth impl_set_charset_dir impl_set_charset_name
      impl_set_client_ip impl_shared_memory_base_name impl_ssl impl_use_embedded_connection
      impl_use_remote_connection impl_write_timeout
  set compress d = impl_compress d
  set (connect_timeout arg) d = impl_connect_timeout arg d
  set (found_rows arg) d = impl_found_rows arg d
  set guess_connection d = impl_guess_connection d
  set (ignore_space arg) d = impl_ignore_space arg d
  set (init_command arg) d = impl_init_command arg d
  set (interactive arg) d = impl_interactive arg d
  set (local_files arg) d = impl_local_files arg d
  set (local_infile arg) d = impl_local_infile arg d
  set (multi_results arg) d = impl_multi_results arg d
  set (multi_statements arg) d = impl_multi_statements arg d
  set named_pipe d = impl_named_pipe d
  set (no_schema arg) d = impl_no_schema arg d
  set (protocol arg) d = impl_protocol arg d
  set (read_default_file arg) d = impl_read_default_file arg d
  set (read_default_group arg) d = impl_read_default_group arg d
  set (read_timeout arg) d = impl_read_timeout arg d
  set (reconnect arg) d = impl_reconnect arg d
  set (report_data_truncation arg) d = impl_report_data_truncation arg d
  set (secure_auth arg) d = impl_secure_auth arg d
  set (set_charset_dir arg) d = impl_set_charset_dir arg d
  set (set_charset_name arg) d = impl_set_charset_name arg d
  set (set_client_ip arg) d = impl_set_client_ip arg d
  set (shared_memory_base_name arg) d = impl_shared_memory_base_name arg d
  set ssl d = impl_ssl d
  set use_embedded_connection d = impl_use_embedded_connection d
  set use_remote_connection d = impl_use_remote_connection d
  set (write_timeout arg) d = impl_write_timeout arg d
