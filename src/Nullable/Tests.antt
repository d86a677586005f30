-- ===== src/Nullable/Tests.antt =====
-- Tests of nullable values, and their theorems at concrete inputs.
use libtabula.Prelude.{
  ℕ, ◌≡◌, ◌↔◌, ◌⊎◌, inl, inr, refl, Bool, true, false, ltb, ◌==◌, Bool-cases, arith,
}
use libtabula.Nullable.{
  Null, of_value, of_null, assign_null, equals, equals_null, less, less_null, less_by,
}
use libtabula.Nullable.Order.{view, equals-view, less-order}

abbrev same : ℕ → ℕ → Bool
same x y = x == y

abbrev below : ℕ → ℕ → Bool
below x y = ltb x y

abbrev three : Null ℕ
three = record { data_ = 3; is_null = false }

abbrev nothing : Null ℕ
nothing = record { data_ = 3; is_null = true }

equals-view_case :
    ((equals same below three nothing ≡ true) ↔ (view three ≡ view nothing))
    × ((equals_null three ≡ equals same below three (of_null 0))
        × (less_null three ≡ less same below three (of_null 0)))
equals-view_case =
    equals-view same below (λ x y. (λ h. ground (arith, h), λ h. ground (arith, h))) three nothing 0

less-order_case :
    ((n : Null ℕ) → less same below n n ≡ false)
    × (((l m n : Null ℕ)
          → less same below l m ≡ true
          → less same below m n ≡ true
          → less same below l n ≡ true)
        × ((m n : Null ℕ)
            → (less same below m n ≡ true)
              ⊎ ((equals same below m n ≡ true) ⊎ (less same below n m ≡ true))))
less-order_case =
    less-order same below (λ x. ground arith) (λ x y z h k. ground (arith, h, k))
      (λ x y. elim (Bool-cases (ltb x y)) [
        | inl lower ↦ inl lower
        | inr other ↦ elim (Bool-cases (x == y)) [
          | inl even ↦ inr (inl even)
          | inr odd ↦ inr (inr (ground (arith, other, odd)))
        ]
      ])

-- A null is below a value whatever its data is.
less_case : less same below (assign_null (of_value 9)) (of_value 3) ≡ true
unfolding less less_by assign_null of_value
less_case = refl
