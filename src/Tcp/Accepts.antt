-- ===== src/Tcp/Accepts.antt =====
-- What an address that passes the checks looks like.
use libtabula.Prelude.{
  ℕ, ◌≤◌, ◌≡◌, refl, true, ◌||◌, [], ◌∷◌, Option, none, some, ltb, leb, All, arith, ◌⊎◌, inl, inr,
  Bool-cases, Option-cases,
}
use libtabula.Prelude.Bytes.{Text, is_digit}
use libtabula.Prelude.Decimal.{digits_from}
use libtabula.Tcp.{
  Pieces, pieces, wrong, Result, good_char, bad_char, named_service, numbered, resolve, with_pieces,
  parse_address, take_apart,
}

abbrev pub IsGood : Text → Type 0
IsGood = All (λ c. good_char c ≡ true)

pub bad_char-IsGood : (s : Text) → bad_char s ≡ none → IsGood s
unfolding bad_char
bad_char-IsGood [] h = tt
bad_char-IsGood (c ∷ s) h = elim (Bool-cases (good_char c)) [
  | inl good ↦ (good, bad_char-IsGood s (rw good at h))
  | inr bad ↦ ground (arith, bad)
]

module _ (getservbyname : Text → Option ℕ) where
  -- The port is the one that was passed in, a number that was given, or that of a service.
  pub PortFits : ℕ → ℕ → Type 0
  PortFits old port =
      (port ≡ old)
      ⊎ (((1 ≤ port) × (port ≤ 65535)) ⊎ ((service : Text) × (getservbyname service ≡ some port)))

  -- If there is a result without an error, then its address and port are right.
  Fine : ℕ → Option Result → Type 0
  Fine port none = Unit
  Fine port (some r) = r.error ≡ none → IsGood r.addr × PortFits port r.port

  numbered-Fine :
      (addr service : Text) (old n : ℕ) → Fine old (numbered getservbyname addr service n)
  unfolding numbered Fine PortFits
  numbered-Fine addr service old n = elim (Bool-cases (leb (2147483648) n)) [
    | inl big ↦ rw big tt
    | inr fits ↦ elim (Bool-cases (ltb n 1 || ltb 65535 n)) [
      | inl bad ↦ rw (fits, bad) (λ e. cc)
      | inr good ↦ rw (fits, good) (λ e. (bad_char-IsGood addr e, inr (inl (ground arith))))
    ]
  ]

  resolve-Fine :
      (addr service : Text) (port : ℕ) → Fine port (resolve getservbyname addr service port)
  unfolding resolve Fine PortFits named_service
  resolve-Fine addr [] port = λ e. (bad_char-IsGood addr e, inl refl)
  resolve-Fine addr (c ∷ service) port = elim (Bool-cases (is_digit c)) [
    | inl digit ↦ rw digit (numbered-Fine addr (c ∷ service) port (digits_from 0 (c ∷ service)))
    | inr name ↦ elim (Option-cases (getservbyname (c ∷ service))) [
      | inl unknown ↦ rw (name, unknown) (λ e. cc)
      | inr (p, known) ↦
          rw (name, known) (λ e. (bad_char-IsGood addr e, inr (inr (c ∷ service, known))))
    ]
  ]

  with_pieces-Fine : (port : ℕ) (p : Pieces) → Fine port (with_pieces getservbyname port p)
  unfolding with_pieces Fine
  with_pieces-Fine port (pieces addr service) = resolve-Fine addr service port
  with_pieces-Fine port (wrong addr e) = λ h. cc

  -- If an address passes the checks, what is left of it has alphanumeric characters, dots, dashes and
  -- colons only, and the port is the one that was passed in, a number from 1 to 65535, or the port
  -- of a service.
  pub parse_address-IsGood :
      (addr : Text) (port : ℕ) (r : Result)
      → parse_address getservbyname addr port ≡ some r
      → r.error ≡ none
      → IsGood r.addr × PortFits port r.port
  unfolding parse_address Fine
  parse_address-IsGood addr port r h = rw h at (with_pieces-Fine port (take_apart addr))
