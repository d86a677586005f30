-- ===== src/Connection/Tests.antt =====
-- A connection over a small driver, and the theorems at it.
use libtabula.Prelude.{ℕ, ◌≡◌, refl, Bool, true, false, [], Option, none, some, arith}
use libtabula.Prelude.Bytes.{Text, codes}
use libtabula.Tcp.{parse_address}
use libtabula.Connection.{DbDriver, Connection, threw, connection_failed, connect, ping, select_db}
use libtabula.Connection.Failure.{op_select_db, apply, quiet, Told, Speaks, apply-Told}
use libtabula.Connection.Explained.{Explains, Explained, connection-Explained}

-- A driver without a server: its state is the mark of the connection, and every call fails.
abbrev down : DbDriver Bool
down = record {
  driver_connect = λ host socket port db d. (false, false);
  driver_connected = λ d. d;
  driver_disconnect = λ d. false;
  driver_error = λ d. codes "no server";
  driver_errnum = λ d. 2002;
  driver_ping = λ d. (false, d);
  driver_select_db = λ db d. (false, d);
  driver_set_option = λ o d. (true, d);
}

abbrev no_file : Text → Bool
no_file s = false

abbrev no_services : Text → Option ℕ
no_services s = none

abbrev loud : Connection Bool
loud = record { driver = false; copacetic = true; error_message = []; throws = true }

-- An address that is no good is told by an exception, and the driver is not asked.
connect_bad_address :
    connect down no_file no_file no_services (codes "db") (some (codes "a:b:c")) 0 loud
    ≡ threw
        (connection_failed (codes "IPv4 address:service combo can have only one colon") 2002)
        (record {
          driver = false;
          copacetic = false;
          error_message = codes "IPv4 address:service combo can have only one colon";
          throws = true;
        })
unfolding connect parse_address
connect_bad_address = refl

apply-Told_example :
    Told down no_file no_file no_services
      (apply down no_file no_file no_services (op_select_db (codes "db")) loud)
      (apply down no_file no_file no_services
        (op_select_db (codes "db"))
        (quiet down no_file no_file no_services loud))
    × (loud.throws ≡ true
        → Speaks down no_file no_file no_services
            (op_select_db (codes "db"))
            (apply down no_file no_file no_services (op_select_db (codes "db")) loud))
apply-Told_example = apply-Told down no_file no_file no_services (op_select_db (codes "db")) loud

down-Explains : Explains down
down-Explains = record {
  connect_explained = λ host socket port db d h. omega arith;
  ping_explained = λ d h. omega arith;
  select_explained = λ db d h. omega arith;
}

connection-Explained_example :
    Explained down no_file no_file no_services down-Explains
      (connect down no_file no_file no_services (codes "db") (some (codes "host")) 0 loud)
    × (Explained down no_file no_file no_services down-Explains
          (ping down no_file no_file no_services loud)
        × Explained down no_file no_file no_services down-Explains
            (select_db down no_file no_file no_services (codes "db") loud))
connection-Explained_example =
    connection-Explained down no_file no_file no_services down-Explains (codes "db")
      (some (codes "host")) 0 loud
