-- ===== src/Ssx/Sound.antt =====
-- Statements on results, with what is asked of a value, of an error and of the bound on the includes.
use libtabula.Prelude.{◌≡◌, refl, Bool, true, false, if◌then◌else◌}
use libtabula.Ssx.{Result, ok, failed, too_deep, ◌>>=◌, Error}

abbrev pub Sound {ℓ} : {A : Type ℓ} → (Error → Type 0) → Type 0 → (A → Type 0) → Result A → Type 0
Sound E D P (ok a) = P a
Sound E D P (failed e) = E e
Sound E D P too_deep = D

module _ (E : Error → Type 0) (D : Type 0) where
  pub Sound-bind {ℓ κ} :
      {A : Type ℓ} {B : Type κ} (P : A → Type 0) (Q : B → Type 0) (r : Result A) (f : A → Result B)
      → Sound E D P r
      → ((a : A) → P a → Sound E D Q (f a))
      → Sound E D Q (r >>= f)
  Sound-bind P Q (ok a) f h k = k a h
  Sound-bind P Q (failed e) f h k = h
  Sound-bind P Q too_deep f h k = h

  pub Sound-weaken {ℓ} :
      {A : Type ℓ} (P Q : A → Type 0) (r : Result A)
      → ((a : A) → P a → Q a)
      → Sound E D P r
      → Sound E D Q r
  Sound-weaken P Q (ok a) f h = f a h
  Sound-weaken P Q (failed e) f h = h
  Sound-weaken P Q too_deep f h = h

  -- One of two results, by a test.
  pub Sound-if {ℓ} :
      {A : Type ℓ} (P : A → Type 0) (b : Bool) (r s : Result A)
      → (b ≡ true → Sound E D P r)
      → (b ≡ false → Sound E D P s)
      → Sound E D P (if b then r else s)
  Sound-if P true r s h k = h refl
  Sound-if P false r s h k = k refl

-- With less asked of errors and of the bound.
pub Sound-allow {ℓ} :
    {A : Type ℓ} (E F : Error → Type 0) (C D : Type 0) (P : A → Type 0) (r : Result A)
    → ((e : Error) → E e → F e)
    → (C → D)
    → Sound E C P r
    → Sound F D P r
Sound-allow E F C D P (ok a) f g h = h
Sound-allow E F C D P (failed e) f g h = f e h
Sound-allow E F C D P too_deep f g h = g h
