-- ===== src/Driver/Each.antt =====
-- A statement on setting an option, from its ways through the driver.
use libtabula.Prelude.{if_either, ℕ, ◌≡◌, Bool, true, false, leb}
use libtabula.Driver.{
  OptionError, err_none, err_api_limit, err_connected, err_disconnected, Setting, compress,
  connect_timeout, found_rows, guess_connection, ignore_space, init_command, interactive,
  local_files, local_infile, multi_results, multi_statements, named_pipe, no_schema, protocol,
  read_default_file, read_default_group, read_timeout, reconnect, report_data_truncation,
  secure_auth, set_charset_dir, set_charset_name, set_client_ip, shared_memory_base_name, ssl,
  use_embedded_connection, use_remote_connection, write_timeout, ApiOption, Argument, truth, Api,
  Driver, opt_reconnect, no_argument, number, text, opt_compress, opt_connect_timeout,
  opt_guess_connection, opt_init_command, opt_local_infile, opt_named_pipe, opt_protocol,
  opt_read_default_file, opt_read_default_group, opt_read_timeout, opt_report_data_truncation,
  opt_secure_auth, opt_set_charset_dir, opt_set_charset_name, opt_set_client_ip,
  opt_shared_memory_base_name, opt_use_embedded_connection, opt_use_remote_connection,
  opt_write_timeout,
}
use libtabula.Driver.Client.{unless_connected, since, while_connected, set_by_api, set_by_flag}
use libtabula.Driver.Settings.{
  set, impl_compress, impl_connect_timeout, impl_found_rows, impl_guess_connection,
  impl_ignore_space, impl_init_command, impl_interactive, impl_local_files, impl_local_infile,
  impl_multi_results, impl_multi_statements, impl_named_pipe, impl_no_schema, impl_protocol,
  impl_read_default_file, impl_read_default_group, impl_read_timeout, impl_reconnect,
  impl_report_data_truncation, impl_secure_auth, impl_set_charset_dir, impl_set_charset_name,
  impl_set_client_ip, impl_shared_memory_base_name, impl_ssl, impl_use_embedded_connection,
  impl_use_remote_connection, impl_write_timeout, ssl_set,
}

module _ {W : Type 0} (api : Api W) (Post : Driver W → OptionError × Driver W → Type 0)
    (by_api : (o : ApiOption) (a : Argument) (d : Driver W) → Post d (set_by_api api o a d))
    (by_ssl : (d : Driver W) → Post d (ssl_set api d))
    (by_flag : (o : ℕ) (b : Bool) (d : Driver W)
      → d.is_connected ≡ false
      → Post d (set_by_flag api o b d))
    (by_server : (b : Bool) (d : Driver W)
      → Post d (err_none, record d { mysql = (api.mysql_set_server_option b d.mysql).1 }))
    (refused : (d : Driver W) → Post d (err_connected, d))
    (limited : (d : Driver W) → Post d (err_api_limit, d))
    (queued : (d : Driver W)
      → leb 50013 api.version ≡ true
      → leb 50106 api.version ≡ false
      → d.is_connected ≡ false
      → Post d (err_disconnected, d)) where
  unless :
      (f : Driver W → OptionError × Driver W)
      → ((d : Driver W) → d.is_connected ≡ false → Post d (f d))
      → (d : Driver W) → Post d (unless_connected api f d)
  unfolding unless_connected
  unless f h d = if_either (Post d) d.is_connected _ _ (λ up. refused d) (h d)

  from :
      (v : ℕ) (f : Driver W → OptionError × Driver W)
      → ((d : Driver W) → Post d (f d))
      → (d : Driver W) → Post d (since api v f d)
  unfolding since
  from v f h d = if_either (Post d) (leb v api.version) _ _ (λ new. h d) (λ old. limited d)

  multi : (b : Bool) (o : ℕ) (d : Driver W) → Post d (while_connected api b o d)
  unfolding while_connected
  multi b o d = if_either (Post d) d.is_connected _ _ (λ up. by_server b d) (by_flag o b d)

  reconnecting : (b : Bool) (d : Driver W) → Post d (impl_reconnect api b d)
  unfolding impl_reconnect
  reconnecting b d =
      if_either (Post d) (leb 50106 api.version) _ _ (λ fixed. by_api opt_reconnect (truth b) d)
        λ broken.
          if_either (Post d) (leb 50013 api.version) _ _
            (λ some_way.
              if_either (Post d) d.is_connected _ _ (λ up. by_api opt_reconnect (truth b) d)
                (queued d some_way broken))
            λ old. limited d

  over_ssl : (d : Driver W) → Post d (impl_ssl api d)
  unfolding impl_ssl
  over_ssl d =
      if_either (Post d) api.has_ssl_set _ _ (λ has. unless (ssl_set api) (λ e down. by_ssl e) d)
        λ none_there. limited d

  api_option :
      (o : ApiOption) (a : Argument) (d : Driver W)
      → Post d (unless_connected api (set_by_api api o a) d)
  api_option o a d = unless (set_by_api api o a) (λ e down. by_api o a e) d

  flag_option :
      (o : ℕ) (b : Bool) (d : Driver W) → Post d (unless_connected api (set_by_flag api o b) d)
  flag_option o b d = unless (set_by_flag api o b) (by_flag o b) d

  pub set_each : (o : Setting) (d : Driver W) → Post d (set api o d)
  unfolding set impl_compress impl_connect_timeout impl_found_rows impl_guess_connection
      impl_ignore_space impl_init_command impl_interactive impl_local_files impl_local_infile
      impl_multi_results impl_multi_statements impl_named_pipe impl_no_schema impl_protocol
      impl_read_default_file impl_read_default_group impl_read_timeout impl_report_data_truncation
      impl_secure_auth impl_set_charset_dir impl_set_charset_name impl_set_client_ip
      impl_shared_memory_base_name impl_use_embedded_connection impl_use_remote_connection
      impl_write_timeout
  set_each compress d = api_option opt_compress no_argument d
  set_each (connect_timeout arg) d = api_option opt_connect_timeout (number arg) d
  set_each (found_rows arg) d = flag_option api.client_found_rows arg d
  set_each guess_connection d = from 40101 _ (api_option opt_guess_connection no_argument) d
  set_each (ignore_space arg) d = flag_option api.client_ignore_space arg d
  set_each (init_command arg) d = api_option opt_init_command (text arg) d
  set_each (interactive arg) d = flag_option api.client_interactive arg d
  set_each (local_files arg) d = flag_option api.client_local_files arg d
  set_each (local_infile arg) d = api_option opt_local_infile (number arg) d
  set_each (multi_results arg) d = from 40101 _ (multi arg api.client_multi_results) d
  set_each (multi_statements arg) d = from 40101 _ (multi arg api.client_multi_statements) d
  set_each named_pipe d = api_option opt_named_pipe no_argument d
  set_each (no_schema arg) d = flag_option api.client_no_schema arg d
  set_each (protocol arg) d = from 40001 _ (api_option opt_protocol (number arg)) d
  set_each (read_default_file arg) d = api_option opt_read_default_file (text arg) d
  set_each (read_default_group arg) d = api_option opt_read_default_group (text arg) d
  set_each (read_timeout arg) d = from 40101 _ (api_option opt_read_timeout (number arg)) d
  set_each (reconnect arg) d = reconnecting arg d
  set_each (report_data_truncation arg) d =
      from 50003 _ (api_option opt_report_data_truncation (truth arg)) d
  set_each (secure_auth arg) d = from 40101 _ (api_option opt_secure_auth (truth arg)) d
  set_each (set_charset_dir arg) d = api_option opt_set_charset_dir (text arg) d
  set_each (set_charset_name arg) d = api_option opt_set_charset_name (text arg) d
  set_each (set_client_ip arg) d = from 40101 _ (api_option opt_set_client_ip (text arg)) d
  set_each (shared_memory_base_name arg) d =
      from 40100 _ (api_option opt_shared_memory_base_name (text arg)) d
  set_each ssl d = over_ssl d
  set_each use_embedded_connection d =
      from 40101 _ (api_option opt_use_embedded_connection no_argument) d
  set_each use_remote_connection d =
      from 40101 _ (api_option opt_use_remote_connection no_argument) d
  set_each (write_timeout arg) d = from 40101 _ (api_option opt_write_timeout (number arg)) d
