-- ===== src/Tcp/Silent.antt =====
-- How connect() reports an address that does not pass the checks.
use libtabula.Prelude.{ℕ, ◌≢◌, Bool, Option, none, some}
use libtabula.Prelude.Bytes.{Text}
use libtabula.Tcp.{
  Error, Result, connection_failed, connect, parsed, if_no_error, if_parsed, parse_address,
}

module _ (getservbyname : Text → Option ℕ) {A : Type 0} (connect_to : Text → ℕ → A)
    (throws : Bool) where
  if_parsed-ne-connection_failed :
      (addr : Text) (port : ℕ) (o : Option Error)
      → if_parsed getservbyname connect_to throws addr port o ≢ connection_failed
  unfolding if_parsed if_no_error
  if_parsed-ne-connection_failed addr port none e = cc
  if_parsed-ne-connection_failed addr port (some x) e = cc

  parsed-ne-connection_failed :
      (o : Option Result) → parsed getservbyname connect_to throws o ≢ connection_failed
  unfolding parsed
  parsed-ne-connection_failed none e = cc
  parsed-ne-connection_failed (some r) e = if_parsed-ne-connection_failed r.addr r.port r.error e

  -- connect() never throws ConnectionFailed for its address, not even with exceptions enabled: for
  -- an address with an error it returns false before it comes to the test that would throw.
  pub connect-ne-connection_failed :
      (addr : Option Text) → connect getservbyname connect_to throws addr ≢ connection_failed
  unfolding connect if_no_error
  connect-ne-connection_failed none e = cc
  connect-ne-connection_failed (some addr) e =
      parsed-ne-connection_failed (parse_address getservbyname addr 0) e
