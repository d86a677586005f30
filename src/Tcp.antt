-- ===== src/Tcp.antt =====
-- TCPConnection::parse_address() and connect(), src/tcp_connection.cpp. An address that is empty
-- counts as one that starts with NUL. The parameter `getservbyname` is the service database, whose
-- ports are numbers in the order of the host; Connection::connect() is `connect_to`.
pub mod Accepts
pub mod Forms
pub mod Silent
pub mod Tests
use libtabula.Prelude.{
  ℕ, zero, suc, ◌+◌, ◌^◌, Bool, true, false, not, ◌&&◌, ◌||◌, List, [], ◌∷◌, ◌++◌, Option, none,
  some, ltb, leb, ◌==◌, if◌then◌else◌,
}
use libtabula.Prelude.Bytes.{Text, is_digit, is_alnum}
use libtabula.Prelude.Decimal.{digits_from}

-- The error messages, with the text that they quote.
pub data Error : Type 0 where
  malformed_ipv6 ipv6_colons ipv4_colons : Error
  invalid_port unknown_service : Text → Error
  bad_character : ℕ → Error

-- find() and two calls of substr(): what is before the first such byte, and what is behind it.
unfoldable pub split_at : ℕ → Text → Option (Text × Text)
split_at b [] = none
split_at b (c ∷ s) =
    let later = split_at b s in
    if c == b
    then some ([], s)
    else elim later [ none ↦ none | some (before, behind) ↦ some (c ∷ before, behind) ]

unfoldable pub contains : ℕ → Text → Bool
contains b [] = false
contains b (c ∷ s) = (c == b) || contains b s

-- The address and the service, or an error.
pub data Pieces : Type 0 where
  pieces : Text → Text → Pieces
  wrong : Text → Error → Pieces

unfoldable pub two_colons : Option (Text × Text) → Bool
two_colons none = false
two_colons (some (before, behind)) = contains b':' behind

-- The text in brackets must be empty or have at least two colons.
check_ipv6 : Text → Text → Pieces
unfolding two_colons split_at
check_ipv6 [] service = pieces [] service
check_ipv6 (c ∷ addr) service =
    if two_colons (split_at b':' (c ∷ addr))
    then pieces (c ∷ addr) service
    else wrong (c ∷ addr) ipv6_colons

-- What follows the closing bracket: a colon, and no further bracket.
behind_bracket : Text → Text → Text → Pieces
unfolding check_ipv6 contains
behind_bracket all addr [] = wrong all malformed_ipv6
behind_bracket all addr (c ∷ service) =
    if (c == b':') && not (contains b'[' service || contains b']' service)
    then check_ipv6 addr service
    else wrong all malformed_ipv6

in_brackets : Text → Option (Text × Text) → Pieces
unfolding behind_bracket
in_brackets all none = wrong all malformed_ipv6
in_brackets all (some (addr, behind)) = behind_bracket all addr behind

plain : Text → Option (Text × Text) → Pieces
plain all none = pieces all []
plain all (some (addr, service)) =
    if contains b':' service then wrong all ipv4_colons else pieces addr service

unfoldable pub take_apart : Text → Pieces
unfolding in_brackets plain split_at
take_apart [] = plain [] none
take_apart (c ∷ s) =
    if c == b'['
    then in_brackets (c ∷ s) (split_at b']' s)
    else plain (c ∷ s) (split_at b':' (c ∷ s))

-- The reference parameters as they are left; it returns true exactly if there is no error.
pub record Result : Type 0 where
  pub addr : Text
  pub port : ℕ
  pub error : Option Error

unfoldable pub good_char : ℕ → Bool
unfolding is_alnum
good_char c = is_alnum c || c == b'.' || c == b'-' || c == b':'

unfoldable pub bad_char : Text → Option Error
unfolding good_char
bad_char [] = none
bad_char (c ∷ s) = let later = bad_char s in if good_char c then later else some (bad_character c)

module _ (getservbyname : Text → Option ℕ) where
  named_service : Text → Text → ℕ → Option ℕ → Result
  unfolding bad_char
  named_service addr service port (some p) = record { addr = addr; port = p; error = bad_char addr }
  named_service addr service port none = record {
    addr = addr;
    port = port;
    error = some (unknown_service service);
  }

  numbered : Text → Text → ℕ → Option Result
  unfolding bad_char
  numbered addr service n =
      if leb (2 ^ 31) n
      then none
      else if ltb n 1 || ltb 65535 n
      then some (record { addr = addr; port = n; error = some (invalid_port service) })
      else some (record { addr = addr; port = n; error = bad_char addr })

  -- none is a number that atoi() is not defined for.
  unfoldable pub resolve : Text → Text → ℕ → Option Result
  unfolding numbered named_service
  resolve addr [] port = some (record { addr = addr; port = port; error = bad_char addr })
  resolve addr (c ∷ service) port =
      if is_digit c
      then numbered addr (c ∷ service) (digits_from 0 (c ∷ service))
      else some (named_service addr (c ∷ service) port (getservbyname (c ∷ service)))

  with_pieces : ℕ → Pieces → Option Result
  unfolding resolve
  with_pieces port (pieces addr service) = resolve addr service port
  with_pieces port (wrong addr e) = some (record { addr = addr; port = port; error = some e })

  unfoldable pub parse_address : Text → ℕ → Option Result
  unfolding with_pieces take_apart
  parse_address addr port = with_pieces port (take_apart addr)

  -- How connect() ends: with what Connection::connect() returns, with false, or with the exception
  -- ConnectionFailed.
  pub data Connected (A : Type 0) : Type 0 where
    attempted : A → Connected A
    returned_false connection_failed undefined : Connected A

  module _ {A : Type 0} (connect_to : Text → ℕ → A) (throws : Bool) where
    -- The test of error_message_, where it is empty or not.
    if_no_error : Text → ℕ → Option Error → Connected A
    if_no_error addr port none = attempted (connect_to addr port)
    if_no_error addr port (some e) = if throws then connection_failed else returned_false

    -- if (!parse_address(...)) return false.
    if_parsed : Text → ℕ → Option Error → Connected A
    unfolding if_no_error
    if_parsed addr port none = if_no_error addr port none
    if_parsed addr port (some e) = returned_false

    parsed : Option Result → Connected A
    unfolding if_parsed
    parsed none = undefined
    parsed (some r) = if_parsed r.addr r.port r.error

    unfoldable pub connect : Option Text → Connected A
    unfolding parsed if_no_error parse_address
    connect none = if_no_error [] 0 none
    connect (some addr) = parsed (parse_address addr 0)
