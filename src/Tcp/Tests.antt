-- ===== src/Tcp/Tests.antt =====
-- Tests of addresses, and their theorems at concrete inputs.
use libtabula.Prelude.{ℕ, ◌≡◌, ◌≢◌, refl, true, Option, none, some, arith}
use libtabula.Prelude.Bytes.{Text, codes}
use libtabula.Prelude.Decimal.{decimal}
use libtabula.Tcp.{
  malformed_ipv6, connection_failed, connect, parse_address, two_colons, split_at, contains,
  good_char, bad_char,
}
use libtabula.Tcp.Accepts.{bad_char-IsGood, IsGood, PortFits, parse_address-IsGood}
use libtabula.Tcp.Forms.{
  accepted, parse_address-bare, parse_address-number, parse_address-bracketed,
}
use libtabula.Tcp.Silent.{connect-ne-connection_failed}

abbrev no_services : Text → Option ℕ
no_services s = none

-- A bracketed address needs a port.
needs_port :
    parse_address no_services (codes "[::1]") 0
    ≡ some (record { addr = codes "[::1]"; port = 0; error = some malformed_ipv6 })
unfolding parse_address
needs_port = refl

parse_address-IsGood_example : IsGood (codes "db.example.com") × PortFits no_services 3306 3306
unfolding good_char parse_address
parse_address-IsGood_example =
    parse_address-IsGood no_services (codes "db.example.com") 3306
      (accepted (codes "db.example.com") 3306) refl refl

parse_address-bare_case :
    parse_address no_services (codes "10.0.0.1") 3306 ≡ some (accepted (codes "10.0.0.1") 3306)
unfolding bad_char good_char contains
parse_address-bare_case =
    parse_address-bare no_services (codes "10.0.0.1") 3306 (bad_char-IsGood (codes "10.0.0.1") refl)
      refl

parse_address-number_case :
    parse_address no_services (codes "db:3307") 0 ≡ some (accepted (codes "db") 3307)
unfolding bad_char good_char contains decimal
parse_address-number_case =
    parse_address-number no_services (codes "db") 3307 0 (bad_char-IsGood (codes "db") refl) refl
      (ground arith) (ground arith)

parse_address-bracketed_example :
    parse_address no_services (codes "[::1]:3307") 0 ≡ some (accepted (codes "::1") 3307)
unfolding bad_char good_char contains decimal two_colons split_at
parse_address-bracketed_example =
    parse_address-bracketed no_services (codes "::1") 3307 0 (bad_char-IsGood (codes "::1") refl)
      refl (ground arith) (ground arith)

connect-ne-connection_failed_case :
    connect no_services (λ a p. p) true (some (codes "a b")) ≢ connection_failed
connect-ne-connection_failed_case =
    connect-ne-connection_failed no_services (λ a p. p) true (some (codes "a b"))
