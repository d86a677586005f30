-- ===== src/Values/Prefix.antt =====
-- What the comparison of adapters compares.
use libtabula.Prelude.{◌≡◌, ◌≢◌, ◌↔◌, refl, true, [], ◌∷◌, length, All, arith}
use libtabula.Prelude.Bytes.{Text, starts_with}
use libtabula.Adapter.{SqlTypeAdapter}
use libtabula.Strings.{same, strncmp}
use libtabula.Values.{compare_text, compare}

strncmp-starts_with :
    (s t : Text) → All (λ c. c ≢ 0) s → (strncmp (length s) s t ≡ same) ↔ (starts_with s t ≡ true)
unfolding strncmp starts_with
strncmp-starts_with [] t h = (λ e. refl, λ e. refl)
strncmp-starts_with (c ∷ s) [] (h, k) = ground (arith, h)
strncmp-starts_with (c ∷ s) (d ∷ t) (h, k) = ground (arith, h, strncmp-starts_with s t k)

-- An adapter without NULs compares as the same as another one exactly if the other's text starts with
-- its own.
pub compare-starts_with :
    (a other : SqlTypeAdapter)
    → All (λ c. c ≢ 0) a.buffer.bytes
    → (compare a other ≡ same) ↔ (starts_with a.buffer.bytes other.buffer.bytes ≡ true)
unfolding compare compare_text
compare-starts_with a other h = strncmp-starts_with a.buffer.bytes other.buffer.bytes h
