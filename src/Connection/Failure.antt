-- ===== src/Connection/Failure.antt =====
-- How the operations of a connection tell of a failure.
use libtabula.Prelude.{
  ℕ, ◌≡◌, refl, sym, Bool, true, false, [], ◌∷◌, Option, if_either, Bool-cases, inl, inr,
}
use libtabula.Prelude.Bytes.{Text, codes}
use libtabula.Driver.{Setting}
use libtabula.Connection.{
  DbDriver, Connection, Exception, connection_failed, db_selection_failed, bad_option, Done,
  returned, threw, undefined, Method, understood, rejected, no_meaning, build_error_message, own_or,
  error, parse_ipc_method, told, connect_by, connect, connected, disconnect, ping, selected,
  not_selected, select_db, option_set, set_option,
}

pub data Op : Type 0 where
  op_connect : Text → Option Text → ℕ → Op
  op_ping op_disconnect : Op
  op_select_db : Text → Op
  op_set_option : Setting → Op

module _ {D : Type 0} (dbd : DbDriver D) (is_wnp is_socket : Text → Bool)
    (getservbyname : Text → Option ℕ) where
  unfoldable pub apply : Op → Connection D → Done D
  unfolding connect ping disconnect select_db set_option
  apply (op_connect db server port) c = connect dbd is_wnp is_socket getservbyname db server port c
  apply op_ping c = ping dbd is_wnp is_socket getservbyname c
  apply op_disconnect c = disconnect dbd is_wnp is_socket getservbyname c
  apply (op_select_db db) c = select_db dbd is_wnp is_socket getservbyname db c
  apply (op_set_option o) c = set_option dbd is_wnp is_socket getservbyname o c

  err : Connection D → Text
  unfolding error
  err c = error dbd is_wnp is_socket getservbyname c

  abbrev pub quiet : Connection D → Connection D
  quiet c = record c { throws = false }

  abbrev pub text_of : Exception → Text
  text_of (connection_failed t n) = t
  text_of (db_selection_failed t n) = t
  text_of (bad_option t) = t

  -- The end of an operation with exceptions, and without them. Both return the same, or the first
  -- throws the text that error() has where the second returns false; the connections that are left
  -- differ in the mark of the exceptions only.
  abbrev pub Told : Done D → Done D → Type 0
  Told (returned b c) (returned b' c') = (b ≡ b') × (quiet c ≡ c')
  Told (threw x c) (returned b' c') =
      (b' ≡ false) × ((quiet c ≡ c') × (text_of x ≡ error dbd is_wnp is_socket getservbyname c))
  Told undefined undefined = Unit
  Told (returned b c) (threw x c') = true ≡ false
  Told (returned b c) undefined = true ≡ false
  Told (threw x c) (threw y c') = true ≡ false
  Told (threw x c) undefined = true ≡ false
  Told undefined (returned b c) = true ≡ false
  Told undefined (threw x c) = true ≡ false

  -- The end is no false that is returned.
  abbrev pub Loud : Done D → Type 0
  Loud (returned b c) = b ≡ true
  Loud (threw x c) = Unit
  Loud undefined = Unit

  -- What an operation with exceptions ends with: ping() returns.
  abbrev pub Speaks : Op → Done D → Type 0
  Speaks op_ping (returned b c) = Unit
  Speaks op_ping (threw x c) = true ≡ false
  Speaks op_ping undefined = true ≡ false
  Speaks (op_connect db server port) d = Loud d
  Speaks op_disconnect d = Loud d
  Speaks (op_select_db db) d = Loud d
  Speaks (op_set_option o) d = Loud d

  told-Loud :
      (good : Bool) (c : Connection D)
      → c.throws ≡ true
      → Loud (told dbd is_wnp is_socket getservbyname good c)
  unfolding told
  told-Loud true c t = refl
  told-Loud false c t = rw t tt

  connect_by-Loud :
      (db : Text) (c : Connection D) (m : Method D)
      → c.throws ≡ true
      → Loud (connect_by dbd is_wnp is_socket getservbyname db c m)
  unfolding connect_by
  connect_by-Loud db c no_meaning t = tt
  connect_by-Loud db c (rejected x) t = told-Loud false (record c { error_message = x }) t
  connect_by-Loud db c (understood s) t =
      let (good, driver) = dbd.driver_connect s.host s.socket_name s.port db c.driver in
      told-Loud good (record c { driver = driver }) t

  selected-Loud :
      (good : Bool) (c : Connection D)
      → c.throws ≡ true
      → Loud (selected dbd is_wnp is_socket getservbyname good c)
  unfolding selected
  selected-Loud true c t = refl
  selected-Loud false c t = rw t tt

  not_selected-Loud :
      (c : Connection D)
      → c.throws ≡ true
      → Loud (not_selected dbd is_wnp is_socket getservbyname c)
  unfolding not_selected
  not_selected-Loud c t = rw t tt

  option_set-Loud :
      (good : Bool) (c : Connection D)
      → c.throws ≡ true
      → Loud (option_set dbd is_wnp is_socket getservbyname good c)
  unfolding option_set
  option_set-Loud true c t = refl
  option_set-Loud false c t = rw t tt

  apply-Speaks : (op : Op) (c : Connection D) → c.throws ≡ true → Speaks op (apply op c)
  unfolding apply connect ping disconnect select_db set_option connected build_error_message
  apply-Speaks (op_connect db server port) c t =
      connect_by-Loud db (record c { error_message = [] })
        (parse_ipc_method dbd is_wnp is_socket getservbyname server port) t
  apply-Speaks op_ping c t = elim (Bool-cases (dbd.driver_connected c.driver)) [
    | inl up ↦ rw up tt
    | inr down ↦ rw down tt
  ]
  apply-Speaks op_disconnect c t = refl
  apply-Speaks (op_select_db db) c t = elim (Bool-cases (dbd.driver_connected c.driver)) [
    | inl up ↦ rw up (
        selected-Loud (dbd.driver_select_db db c.driver).0
          (record c { error_message = []; driver = (dbd.driver_select_db db c.driver).1 }) t)
    | inr down ↦ rw down (not_selected-Loud _ t)
  ]
  apply-Speaks (op_set_option o) c t =
      let (good, driver) = dbd.driver_set_option o c.driver in
      option_set-Loud good (record c { driver = driver }) t

  told-Told :
      (good : Bool) (c : Connection D)
      → Told
          (told dbd is_wnp is_socket getservbyname good c)
          (told dbd is_wnp is_socket getservbyname good (quiet c))
  unfolding told
  told-Told true c = (refl, refl)
  told-Told false c =
      if_either (λ r. Told r (returned false (record c { copacetic = false; throws = false })))
        c.throws _ _ (λ loud. (refl, (refl, refl))) (λ silent. (refl, refl))

  connect_by-Told :
      (db : Text) (c : Connection D) (m : Method D)
      → Told
          (connect_by dbd is_wnp is_socket getservbyname db c m)
          (connect_by dbd is_wnp is_socket getservbyname db (quiet c) m)
  unfolding connect_by
  connect_by-Told db c no_meaning = tt
  connect_by-Told db c (rejected t) = told-Told false (record c { error_message = t })
  connect_by-Told db c (understood s) =
      let (good, driver) = dbd.driver_connect s.host s.socket_name s.port db c.driver in
      told-Told good (record c { driver = driver })

  selected-Told :
      (good : Bool) (c : Connection D)
      → Told
          (selected dbd is_wnp is_socket getservbyname good c)
          (selected dbd is_wnp is_socket getservbyname good (quiet c))
  unfolding selected
  selected-Told true c = (refl, refl)
  selected-Told false c =
      if_either (λ r. Told r (returned false (quiet c))) c.throws _ _ (λ loud. (refl, (refl, refl)))
        (λ silent. (refl, refl))

  not_selected-Told :
      (core : Text) (c : Connection D)
      → Told
          (not_selected dbd is_wnp is_socket getservbyname
            (build_error_message dbd is_wnp is_socket getservbyname core c))
          (not_selected dbd is_wnp is_socket getservbyname
            (build_error_message dbd is_wnp is_socket getservbyname core (quiet c)))
  unfolding not_selected build_error_message error own_or
  not_selected-Told core c =
      if_either
        (λ r.
          Told r (
            returned false (quiet (build_error_message dbd is_wnp is_socket getservbyname core c))))
        c.throws _ _ (λ loud. (refl, (refl, refl))) (λ silent. (refl, refl))

  own_or_same : (t : Text) → own_or dbd is_wnp is_socket getservbyname t t ≡ t
  unfolding own_or
  own_or_same [] = refl
  own_or_same (b ∷ t) = refl

  option_set-Told :
      (good : Bool) (c : Connection D)
      → Told
          (option_set dbd is_wnp is_socket getservbyname good c)
          (option_set dbd is_wnp is_socket getservbyname good (quiet c))
  unfolding option_set error
  option_set-Told true c = (refl, refl)
  option_set-Told false c =
      if_either
        (λ r.
          Told r (
            returned false
              (record c { error_message = dbd.driver_error c.driver; throws = false })))
        c.throws _ _ (λ loud. (refl, (refl, sym (own_or_same (dbd.driver_error c.driver)))))
        (λ silent. (refl, refl))

  same-Told : (op : Op) (c : Connection D) → Told (apply op c) (apply op (quiet c))
  unfolding apply connect ping disconnect select_db set_option connected build_error_message
  same-Told (op_connect db server port) c =
      connect_by-Told db (record c { error_message = [] })
        (parse_ipc_method dbd is_wnp is_socket getservbyname server port)
  same-Told op_ping c = elim (Bool-cases (dbd.driver_connected c.driver)) [
    | inl up ↦ rw up (refl, refl)
    | inr down ↦ rw down (refl, refl)
  ]
  same-Told op_disconnect c = (refl, refl)
  same-Told (op_select_db db) c = elim (Bool-cases (dbd.driver_connected c.driver)) [
    | inl up ↦ rw up (
        selected-Told (dbd.driver_select_db db c.driver).0
          (record c { error_message = []; driver = (dbd.driver_select_db db c.driver).1 }))
    | inr down ↦
        rw down (not_selected-Told (codes "select a database") (record c { error_message = [] }))
  ]
  same-Told (op_set_option o) c =
      let (good, driver) = dbd.driver_set_option o c.driver in
      option_set-Told good (record c { driver = driver })

  -- For each operation: with exceptions it throws exactly where it returns false without them, and
  -- never returns false itself, except ping(), which never throws; the exception has the text of
  -- error(), and what is left of the connection, its driver and its message is the same.
  pub apply-Told :
      (op : Op) (c : Connection D)
      → Told (apply op c) (apply op (quiet c)) × (c.throws ≡ true → Speaks op (apply op c))
  apply-Told op c = (same-Told op c, apply-Speaks op c)
