-- ===== src/Connection.antt =====
-- Connection, src/connection.h and src/connection.cpp, over a driver: the record `DbDriver` has the
-- operations of DBDriver that it calls, over the states of the driver. WindowsNamedPipeConnection
-- and UnixDomainSocketConnection ask the platform; what they answer is an argument, like the service
-- database of TCPConnection.
pub mod Failure
pub mod Explained
pub mod Tests
use libtabula.Prelude.{
  ℕ, Bool, true, false, not, ◌&&◌, List, [], ◌∷◌, ◌++◌, Option, none, some, if◌then◌else◌,
}
use libtabula.Prelude.Bytes.{Text, codes}
use libtabula.Tcp.{parse_address}
use libtabula.Tcp
use libtabula.Driver.{Setting}

-- The Booleans say whether a call succeeds. A host or a socket that is empty stands for none.
pub record DbDriver (D : Type 0) : Type 0 where
  pub driver_connect : Text → Text → ℕ → Text → D → Bool × D
  pub driver_connected : D → Bool
  pub driver_disconnect : D → D
  pub driver_error : D → Text
  pub driver_errnum : D → ℕ
  pub driver_ping : D → Bool × D
  pub driver_select_db : Text → D → Bool × D
  pub driver_set_option : Setting → D → Bool × D

pub record Connection (D : Type 0) : Type 0 where
  pub driver : D
  pub copacetic : Bool
  pub error_message : Text
  pub throws : Bool

-- The exceptions, with their text and, for the first two, the number of the driver's error.
pub data Exception : Type 0 where
  connection_failed db_selection_failed : Text → ℕ → Exception
  bad_option : Text → Exception

-- How an operation ends, and the connection that it leaves.
pub data Done (D : Type 0) : Type 0 where
  returned : Bool → Connection D → Done D
  threw : Exception → Connection D → Done D
  undefined : Done D

-- The parameters of parse_ipc_method(), as they are left.
pub record Server : Type 0 where
  pub host : Text
  pub port : ℕ
  pub socket_name : Text

pub data Method (D : Type 0) : Type 0 where
  understood : Server → Method D
  rejected : Text → Method D
  no_meaning : Method D

-- The texts that TCPConnection::parse_address() leaves in error_message_.
unfoldable pub message_of : Tcp.Error → Text
message_of Tcp.malformed_ipv6 = codes "Malformed IPv6 [address]:service combination"
message_of Tcp.ipv6_colons = codes "IPv6 literal needs at least two colons"
message_of Tcp.ipv4_colons = codes "IPv4 address:service combo can have only one colon"
message_of (Tcp.invalid_port service) = codes "Invalid TCP port number " ++ service
message_of (Tcp.unknown_service service) = codes "Failed to look up TCP service " ++ service
message_of (Tcp.bad_character c) = codes "Bad character '" ++ (c ∷ codes "' in TCP/IP address")

module _ {D : Type 0} (dbd : DbDriver D) (is_wnp is_socket : Text → Bool)
    (getservbyname : Text → Option ℕ) where
  unfoldable pub build_error_message : Text → Connection D → Connection D
  build_error_message core c = record c {
    error_message = codes "Can't " ++ (core ++ codes " while disconnected");
  }

  -- error(): the connection's own message, if there is one.
  unfoldable pub own_or : Text → Text → Text
  own_or [] other = other
  own_or (b ∷ message) other = b ∷ message

  unfoldable pub error : Connection D → Text
  unfolding own_or
  error c = own_or c.error_message (dbd.driver_error c.driver)

  unfoldable pub errnum : Connection D → ℕ
  errnum c = dbd.driver_errnum c.driver

  -- parse_ipc_method(), for a server parameter that may be 0. The defaults are an empty host and socket
  -- and the port that was passed.
  unfoldable pub tcp_method : Option Tcp.Result → Method D
  unfolding message_of
  tcp_method none = no_meaning
  tcp_method (some r) = elim r.error [
    | none ↦ understood (record { host = r.addr; port = r.port; socket_name = [] })
    | some e ↦ rejected (message_of e)
  ]

  unfoldable pub parse_ipc_method : Option Text → ℕ → Method D
  unfolding tcp_method
  parse_ipc_method none port = understood (record { host = []; port = port; socket_name = [] })
  parse_ipc_method (some server) port =
      if is_wnp server
      then understood (record { host = server; port = port; socket_name = [] })
      else if is_socket server
      then understood (record { host = []; port = port; socket_name = server })
      else tcp_method (parse_address getservbyname server port)

  -- copacetic_ is set, and a failure is told.
  unfoldable pub told : Bool → Connection D → Done D
  unfolding error errnum
  told good c =
      let d = record c { copacetic = good } in
      if not good && c.throws
      then threw (connection_failed (error d) (errnum d)) d
      else returned good d

  unfoldable pub connect_by : Text → Connection D → Method D → Done D
  unfolding told
  connect_by db c no_meaning = undefined
  connect_by db c (rejected message) = told false (record c { error_message = message })
  connect_by db c (understood s) =
      let (good, driver) = dbd.driver_connect s.host s.socket_name s.port db c.driver in
      told good (record c { driver = driver })

  unfoldable pub connect : Text → Option Text → ℕ → Connection D → Done D
  unfolding connect_by parse_ipc_method
  connect db server port c =
      connect_by db (record c { error_message = [] }) (parse_ipc_method server port)

  unfoldable pub connected : Connection D → Bool
  connected c = dbd.driver_connected c.driver

  unfoldable pub disconnect : Connection D → Done D
  disconnect c =
      returned true (record c { error_message = []; driver = dbd.driver_disconnect c.driver })

  unfoldable pub ping : Connection D → Done D
  unfolding connected build_error_message
  ping c =
      let (good, driver) = dbd.driver_ping c.driver in
      if connected c
      then returned good (record c { error_message = []; driver = driver })
      else returned false (build_error_message (codes "ping database server") c)

  unfoldable pub selected : Bool → Connection D → Done D
  unfolding error errnum
  selected true c = returned true c
  selected false c =
      if c.throws then threw (db_selection_failed (error c) (errnum c)) c else returned false c

  -- The exception that is thrown without a connection has the number 0.
  unfoldable pub not_selected : Connection D → Done D
  not_selected c =
      if c.throws then threw (db_selection_failed c.error_message 0) c else returned false c

  unfoldable pub select_db : Text → Connection D → Done D
  unfolding connected build_error_message selected not_selected
  select_db db c =
      let cleared = record c { error_message = [] } in
      let (good, driver) = dbd.driver_select_db db c.driver in
      if connected c
      then selected good (record cleared { driver = driver })
      else not_selected (build_error_message (codes "select a database") cleared)

  unfoldable pub option_set : Bool → Connection D → Done D
  option_set true c = returned true (record c { error_message = [] })
  option_set false c =
      let d = record c { error_message = dbd.driver_error c.driver } in
      if c.throws then threw (bad_option d.error_message) d else returned false d

  unfoldable pub set_option : Setting → Connection D → Done D
  unfolding option_set
  set_option o c =
      let (good, driver) = dbd.driver_set_option o c.driver in
      option_set good (record c { driver = driver })
