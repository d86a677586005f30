-- ===== src/Nullable/Order.antt =====
-- Null as the abstract type of an optional value, and its order.
use libtabula.Prelude.{
  ◌≡◌, ◌↔◌, ◌⊎◌, inl, inr, refl, ap, Bool, true, false, Option, none, some, if◌then◌else◌,
  false≢true,
}
use libtabula.Nullable.{Null, of_null, equals_null, less_null, equals_by, equals, less_by, less}

-- The optional value that a nullable stands for; the data of a null does not matter.
abbrev pub view : {A : Type 0} → Null A → Option A
view n = if n.is_null then none else some n.data_

module _ {A : Type 0} (eq lt : A → A → Bool)
    (eq_exact : (x y : A) → (eq x y ≡ true) ↔ (x ≡ y)) where
  equals_by-view :
      (m n : Bool) (x y : A)
      → (equals_by eq lt m n (eq x y) ≡ true)
        ↔ ((if m then none else some x) ≡ (if n then none else some y))
  unfolding equals_by
  equals_by-view true true x y = (λ e. refl, λ e. refl)
  equals_by-view true false x y = (λ e. absurd (false≢true e), λ e. cc)
  equals_by-view false true x y = (λ e. absurd (false≢true e), λ e. cc)
  equals_by-view false false x y = (λ e. ap some ((eq_exact x y).0 e), λ e. (eq_exact x y).1 (cc))

  -- Two nullables are equal exactly if they stand for the same optional value, and the comparison
  -- with null says what the comparison with a nullable that is null does.
  pub equals-view :
      (n rhs : Null A) (blank : A)
      → ((equals eq lt n rhs ≡ true) ↔ (view n ≡ view rhs))
        × ((equals_null n ≡ equals eq lt n (of_null blank))
            × (less_null n ≡ less eq lt n (of_null blank)))
  unfolding equals equals_null less_null less of_null
  equals-view n rhs blank = (
    equals_by-view n.is_null rhs.is_null n.data_ rhs.data_,
    (null_mark n.is_null, less_mark n.is_null),
  )
    where
      null_mark : (m : Bool) → m ≡ equals_by eq lt m true (eq n.data_ blank)
      null_mark true = refl
      null_mark false = refl

      less_mark : (m : Bool) → false ≡ less_by eq lt m true (lt n.data_ blank)
      less_mark true = refl
      less_mark false = refl

module _ {A : Type 0} (eq lt : A → A → Bool) (irreflexive : (x : A) → lt x x ≡ false)
    (transitive : (x y z : A) → lt x y ≡ true → lt y z ≡ true → lt x z ≡ true)
    (total : (x y : A) → (lt x y ≡ true) ⊎ ((eq x y ≡ true) ⊎ (lt y x ≡ true))) where
  less_by_self : (m : Bool) (x : A) → less_by eq lt m m (lt x x) ≡ false
  unfolding less_by
  less_by_self true x = refl
  less_by_self false x = irreflexive x

  less_by_trans :
      (l m n : Bool) (x y z : A)
      → less_by eq lt l m (lt x y) ≡ true
      → less_by eq lt m n (lt y z) ≡ true
      → less_by eq lt l n (lt x z) ≡ true
  unfolding less_by
  less_by_trans true true n x y z h k = absurd (false≢true h)
  less_by_trans true false true x y z h k = absurd (false≢true k)
  less_by_trans true false false x y z h k = refl
  less_by_trans false true n x y z h k = absurd (false≢true h)
  less_by_trans false false true x y z h k = absurd (false≢true k)
  less_by_trans false false false x y z h k = transitive x y z h k

  less_by_total :
      (m n : Bool) (x y : A)
      → (less_by eq lt m n (lt x y) ≡ true)
        ⊎ ((equals_by eq lt m n (eq x y) ≡ true) ⊎ (less_by eq lt n m (lt y x) ≡ true))
  unfolding less_by equals_by
  less_by_total true true x y = inr (inl refl)
  less_by_total true false x y = inl refl
  less_by_total false true x y = inr (inr refl)
  less_by_total false false x y = total x y

  -- If the < of values is a strict total order up to their ==, then the < of nullables is
  -- a strict total order, too, up to their ==.
  pub less-order :
      ((n : Null A) → less eq lt n n ≡ false)
      × (((l m n : Null A) → less eq lt l m ≡ true → less eq lt m n ≡ true → less eq lt l n ≡ true)
          × ((m n : Null A)
              → (less eq lt m n ≡ true) ⊎ ((equals eq lt m n ≡ true) ⊎ (less eq lt n m ≡ true))))
  unfolding less equals
  less-order = (
    λ n. less_by_self n.is_null n.data_,
    (
      λ l m n. less_by_trans l.is_null m.is_null n.is_null l.data_ m.data_ n.data_,
      λ m n. less_by_total m.is_null n.is_null m.data_ n.data_,
    ),
  )
