-- ===== src/Tcp/Forms.antt =====
-- The forms of an address that are understood.
use libtabula.Prelude.{
  ==_iff, false≢true, sym, ap, ◌∙◌, ℕ, ◌≤◌, ◌<◌, ◌≡◌, refl, true, false, [], ◌∷◌, ◌++◌, Option,
  none, some, ◌==◌, arith, Bool-cases, inl, inr,
}
use libtabula.Prelude.Bytes.{Text, is_digit, is_alnum}
use libtabula.Prelude.Decimal.{
  digits_from, decimal, decimal_from, digits_from-decimal, starts_digit, starts_digit-decimal,
}
use libtabula.Tcp.{
  pieces, Result, split_at, contains, two_colons, check_ipv6, behind_bracket, in_brackets, plain,
  take_apart, good_char, bad_char, numbered, resolve, with_pieces, parse_address,
}
use libtabula.Tcp.Accepts.{IsGood}

split_at-append :
    (b : ℕ) (s rest : Text) → contains b s ≡ false → split_at b (s ++ b ∷ rest) ≡ some (s, rest)
unfolding split_at contains
split_at-append b [] rest h = ground arith
split_at-append b (c ∷ s) rest h = ground (arith, split_at-append b s rest)

split_at-none : (b : ℕ) (s : Text) → contains b s ≡ false → split_at b s ≡ none
unfolding split_at contains
split_at-none b [] h = refl
split_at-none b (c ∷ s) h = ground (arith, split_at-none b s)

good_char-differs : (b c : ℕ) → good_char b ≡ false → good_char c ≡ true → (c == b) ≡ false
good_char-differs b c h g = elim (Bool-cases (c == b)) [
  | inl same ↦
      let e : c ≡ b = (==_iff c b).0 same in absurd (false≢true (sym h ∙ ap good_char (sym e) ∙ g))
  | inr other ↦ other
]

IsGood-contains : (b : ℕ) (s : Text) → good_char b ≡ false → IsGood s → contains b s ≡ false
unfolding contains
IsGood-contains b [] h g = refl
IsGood-contains b (c ∷ s) h g = rw (good_char-differs b c h g.0) (IsGood-contains b s h g.1)

bad_char-none : (s : Text) → IsGood s → bad_char s ≡ none
unfolding bad_char
bad_char-none [] g = refl
bad_char-none (c ∷ s) g = rw (g.0) (bad_char-none s g.1)

contains-decimal : (b n : ℕ) → is_digit b ≡ false → n < 65536 → contains b (decimal n) ≡ false
unfolding contains decimal decimal_from is_digit
contains-decimal b n h k = ground arith

resolve-number :
    (getservbyname : Text → Option ℕ) (addr service : Text) (port : ℕ)
    → starts_digit service ≡ true
    → resolve getservbyname addr service port
      ≡ numbered getservbyname addr service (digits_from 0 service)
unfolding resolve
resolve-number getservbyname addr [] port h = cc
resolve-number getservbyname addr (c ∷ service) port h = rw h

-- A result that keeps no error.
abbrev pub accepted : Text → ℕ → Result
accepted addr port = record { addr = addr; port = port; error = none }

numbered-accepted :
    (getservbyname : Text → Option ℕ) (addr service : Text) (n : ℕ)
    → IsGood addr
    → 1 ≤ n
    → n < 65536
    → numbered getservbyname addr service n ≡ some (accepted addr n)
unfolding numbered
numbered-accepted getservbyname addr service n g h k = ground (arith, bad_char-none addr)

resolve-decimal :
    (getservbyname : Text → Option ℕ) (addr : Text) (n port : ℕ)
    → IsGood addr
    → 1 ≤ n
    → n < 65536
    → resolve getservbyname addr (decimal n) port ≡ some (accepted addr n)
resolve-decimal getservbyname addr n port g h k =
    resolve-number getservbyname addr (decimal n) port (starts_digit-decimal n k)
    ∙ ap (numbered getservbyname addr (decimal n)) (digits_from-decimal n k)
    ∙ numbered-accepted getservbyname addr (decimal n) n g h k

open_bracket : good_char b'[' ≡ false
unfolding good_char is_alnum
open_bracket = refl

close_bracket : good_char b']' ≡ false
unfolding good_char is_alnum
close_bracket = refl

-- A good text that has no colon does not start with a bracket either.
take_apart-plain :
    (addr service : Text)
    → IsGood addr
    → contains b':' addr ≡ false
    → contains b':' service ≡ false
    → take_apart (addr ++ b':' ∷ service) ≡ pieces addr service
unfolding take_apart plain
take_apart-plain [] service g h k = rw k
take_apart-plain (c ∷ addr) service g h k =
    rw (good_char-differs b'[' c open_bracket g.0, split_at-append b':' (c ∷ addr) service h, k)

take_apart-bare :
    (addr : Text) → IsGood addr → contains b':' addr ≡ false → take_apart addr ≡ pieces addr []
unfolding take_apart plain
take_apart-bare [] g h = refl
take_apart-bare (c ∷ addr) g h =
    rw (good_char-differs b'[' c open_bracket g.0, split_at-none b':' (c ∷ addr) h)

check_ipv6-pieces :
    (addr service : Text)
    → two_colons (split_at b':' addr) ≡ true
    → check_ipv6 addr service ≡ pieces addr service
unfolding check_ipv6
check_ipv6-pieces [] service h = refl
check_ipv6-pieces (c ∷ addr) service h = rw h

take_apart-bracketed :
    (addr service : Text)
    → IsGood addr
    → two_colons (split_at b':' addr) ≡ true
    → contains b'[' service ≡ false
    → contains b']' service ≡ false
    → take_apart (b'[' ∷ (addr ++ b']' ∷ b':' ∷ service)) ≡ pieces addr service
unfolding take_apart in_brackets behind_bracket
take_apart-bracketed addr service g h k l =
    rw (split_at-append b']' addr (b':' ∷ service) (IsGood-contains b']' addr close_bracket g))
      (rw (k, l) (check_ipv6-pieces addr service h))

module _ (getservbyname : Text → Option ℕ) where
  -- An address without colons, of the characters that are allowed, is accepted as it is, and the port
  -- stays what it was.
  pub parse_address-bare :
      (addr : Text) (port : ℕ)
      → IsGood addr
      → contains b':' addr ≡ false
      → parse_address getservbyname addr port ≡ some (accepted addr port)
  unfolding parse_address with_pieces resolve
  parse_address-bare addr port g h =
      rw (take_apart-bare addr g h)
        (ap (λ e. some (record { addr = addr; port = port; error = e })) (bad_char-none addr g))

  -- Such an address with a colon and a port number from 1 to 65535 behind it is taken apart into the
  -- address and that port.
  pub parse_address-number :
      (addr : Text) (n port : ℕ)
      → IsGood addr
      → contains b':' addr ≡ false
      → 1 ≤ n
      → n < 65536
      → parse_address getservbyname (addr ++ b':' ∷ decimal n) port ≡ some (accepted addr n)
  unfolding parse_address with_pieces is_digit
  parse_address-number addr n port g h k l =
      rw (take_apart-plain addr (decimal n) g h (contains-decimal b':' n refl l))
        (resolve-decimal getservbyname addr n port g k l)

  -- An address of the characters that are allowed, with two colons at least, in brackets and with a
  -- colon and a port number from 1 to 65535 behind it, is taken apart into the address and that port.
  pub parse_address-bracketed :
      (addr : Text) (n port : ℕ)
      → IsGood addr
      → two_colons (split_at b':' addr) ≡ true
      → 1 ≤ n
      → n < 65536
      → parse_address getservbyname (b'[' ∷ (addr ++ b']' ∷ b':' ∷ decimal n)) port
        ≡ some (accepted addr n)
  unfolding parse_address with_pieces is_digit
  parse_address-bracketed addr n port g h k l =
      rw
        (take_apart-bracketed addr (decimal n) g h (contains-decimal b'[' n refl l)
          (contains-decimal b']' n refl l))
        (resolve-decimal getservbyname addr n port g k l)
