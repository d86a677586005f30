-- ===== src/Connection/Explained.antt =====
-- A failure of a connection has a text.
use libtabula.Prelude.{
  ℕ, ◌≡◌, ◌≤◌, refl, Bool, true, false, [], ◌∷◌, Option, none, some, if_either, arith, length,
}
use libtabula.Prelude.Bytes.{Text, codes}
use libtabula.Tcp.{parse_address}
use libtabula.Tcp
use libtabula.Connection.{
  DbDriver, Connection, Done, returned, threw, undefined, Method, understood, rejected, no_meaning,
  message_of, build_error_message, own_or, error, tcp_method, parse_ipc_method, told, connect_by,
  connect, connected, ping, selected, not_selected, select_db,
}
use libtabula.Connection.Failure.{text_of}

-- The driver has a text for the calls that fail.
pub record Explains {D : Type 0} (dbd : DbDriver D) : Type 0 where
  pub connect_explained :
      (host socket : Text) (port : ℕ) (db : Text) (d : D)
      → (dbd.driver_connect host socket port db d).0 ≡ false
      → 1 ≤ length (dbd.driver_error (dbd.driver_connect host socket port db d).1)
  pub ping_explained :
      (d : D) → (dbd.driver_ping d).0 ≡ false → 1 ≤ length (dbd.driver_error (dbd.driver_ping d).1)
  pub select_explained :
      (db : Text) (d : D)
      → (dbd.driver_select_db db d).0 ≡ false
      → 1 ≤ length (dbd.driver_error (dbd.driver_select_db db d).1)

length-message_of : (e : Tcp.Error) → 1 ≤ length (message_of e)
unfolding message_of
length-message_of Tcp.malformed_ipv6 = omega arith
length-message_of Tcp.ipv6_colons = omega arith
length-message_of Tcp.ipv4_colons = omega arith
length-message_of (Tcp.invalid_port service) = omega arith
length-message_of (Tcp.unknown_service service) = omega arith
length-message_of (Tcp.bad_character c) = omega arith

module _ {D : Type 0} (dbd : DbDriver D) (is_wnp is_socket : Text → Bool)
    (getservbyname : Text → Option ℕ) (explains : Explains dbd) where
  -- What a failure leaves in error(), or has in its exception, is not empty.
  abbrev pub Explained : Done D → Type 0
  Explained (returned true c) = Unit
  Explained (returned false c) = 1 ≤ length (error dbd is_wnp is_socket getservbyname c)
  Explained (threw x c) = 1 ≤ length (text_of dbd is_wnp is_socket getservbyname x)
  Explained undefined = Unit

  told-Explained :
      (good : Bool) (c : Connection D)
      → (good ≡ false → 1 ≤ length (error dbd is_wnp is_socket getservbyname c))
      → Explained (told dbd is_wnp is_socket getservbyname good c)
  unfolding told
  told-Explained true c h = tt
  told-Explained false c h = if_either Explained c.throws _ _ (λ loud. h refl) (λ silent. h refl)

  own_or_long :
      (t u : Text) → 1 ≤ length t → 1 ≤ length (own_or dbd is_wnp is_socket getservbyname t u)
  unfolding own_or
  own_or_long [] u h = absurd (omega (arith, h))
  own_or_long (b ∷ t) u h = h

  -- A method that was rejected has a text.
  abbrev HasText : Method D → Type 0
  HasText (understood s) = Unit
  HasText (rejected t) = 1 ≤ length t
  HasText no_meaning = Unit

  tcp_method-HasText :
      (r : Option Tcp.Result) → HasText (tcp_method dbd is_wnp is_socket getservbyname r)
  unfolding tcp_method
  tcp_method-HasText none = tt
  tcp_method-HasText (some r) = by_error r.error
    where
      by_error :
          (e : Option Tcp.Error)
          → HasText (elim e as (λ x. Method D) [
            | none ↦ understood (record { host = r.addr; port = r.port; socket_name = [] })
            | some e ↦ rejected (message_of e)
          ])
      by_error none = tt
      by_error (some e) = length-message_of e

  parse_ipc_method-HasText :
      (server : Option Text) (port : ℕ)
      → HasText (parse_ipc_method dbd is_wnp is_socket getservbyname server port)
  unfolding parse_ipc_method
  parse_ipc_method-HasText none port = tt
  parse_ipc_method-HasText (some server) port =
      if_either HasText (is_wnp server) _ _ (λ e. tt)
        λ e.
          if_either HasText (is_socket server) _ _ (λ e. tt)
            λ e. tcp_method-HasText (parse_address getservbyname server port)

  connect_by-Explained :
      (db : Text) (c : Connection D) (m : Method D)
      → HasText m
      → Explained
          (connect_by dbd is_wnp is_socket getservbyname db (record c { error_message = [] }) m)
  unfolding connect_by error own_or
  connect_by-Explained db c no_meaning h = tt
  connect_by-Explained db c (rejected t) h =
      told-Explained false (record c { error_message = t }) (λ bad. own_or_long t _ h)
  connect_by-Explained db c (understood s) h =
      let tried = dbd.driver_connect s.host s.socket_name s.port db c.driver in
      told-Explained tried.0 (record c { error_message = []; driver = tried.1 })
        (explains.connect_explained s.host s.socket_name s.port db c.driver)

  selected-Explained :
      (good : Bool) (c : Connection D)
      → (good ≡ false → 1 ≤ length (error dbd is_wnp is_socket getservbyname c))
      → Explained (selected dbd is_wnp is_socket getservbyname good c)
  unfolding selected
  selected-Explained true c h = tt
  selected-Explained false c h =
      if_either Explained c.throws _ _ (λ loud. h refl) (λ silent. h refl)

  not_selected-Explained :
      (core : Text) (c : Connection D)
      → Explained (
          not_selected dbd is_wnp is_socket getservbyname
            (build_error_message dbd is_wnp is_socket getservbyname core c))
  unfolding not_selected build_error_message error own_or
  not_selected-Explained core c =
      if_either Explained c.throws _ _ (λ loud. omega arith) (λ silent. omega arith)

  ping_false :
      (good : Bool) (c : Connection D)
      → (good ≡ false → 1 ≤ length (error dbd is_wnp is_socket getservbyname c))
      → Explained (returned good c)
  ping_false true c h = tt
  ping_false false c h = h refl

  -- If the driver has a text for each call of its own that fails, then error(), or the exception, has
  -- a text whenever connect(), ping() or select_db() fails: for an address that is no good, for the
  -- lack of a connection, and for the driver's failure.
  pub connection-Explained :
      (db : Text) (server : Option Text) (port : ℕ) (c : Connection D)
      → Explained (connect dbd is_wnp is_socket getservbyname db server port c)
        × (Explained (ping dbd is_wnp is_socket getservbyname c)
            × Explained (select_db dbd is_wnp is_socket getservbyname db c))
  unfolding connect ping select_db connected error own_or build_error_message
  connection-Explained db server port c = (
    connect_by-Explained db c (parse_ipc_method dbd is_wnp is_socket getservbyname server port)
        (parse_ipc_method-HasText server port),
    (
      if_either Explained (dbd.driver_connected c.driver) _ _
          (λ up.
            ping_false (dbd.driver_ping c.driver).0
              (record c { error_message = []; driver = (dbd.driver_ping c.driver).1 })
              (explains.ping_explained c.driver))
          (λ down. omega arith),
      if_either Explained (dbd.driver_connected c.driver) _ _
          (λ up.
            selected-Explained (dbd.driver_select_db db c.driver).0
              (record c { error_message = []; driver = (dbd.driver_select_db db c.driver).1 })
              (explains.select_explained db c.driver))
          (λ down.
            not_selected-Explained (codes "select a database") (record c { error_message = [] })),
    ),
  )
