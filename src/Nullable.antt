-- ===== src/Nullable.antt =====
-- Nullable values: Null of src/null.h, over a type with its own == and <. A null value keeps whatever
-- data it had.
pub mod Order
pub mod Tests
use libtabula.Prelude.{Bool, true, false, not, ◌&&◌, ◌||◌, if◌then◌else◌}
use libtabula.Prelude.Bytes.{Text, codes}

pub record Null (A : Type 0) : Type 0 where
  pub data_ : A
  pub is_null : Bool

-- null_is() and null_ostr() of a Behavior: what a null is converted to, and what is printed for it.
pub record Behavior (A : Type 0) : Type 0 where
  pub null_is : A
  pub null_ostr : Text

module _ {A : Type 0} where
  -- The constructors for a value and for null, where `blank` is a default value.
  unfoldable pub of_value : A → Null A
  of_value x = record { data_ = x; is_null = false }

  unfoldable pub of_null : A → Null A
  of_null blank = record { data_ = blank; is_null = true }

  unfoldable pub assign : A → Null A → Null A
  assign x n = record { data_ = x; is_null = false }

  unfoldable pub assign_null : Null A → Null A
  assign_null n = record n { is_null = true }

  unfoldable pub convert : Behavior A → Null A → A
  convert behavior n = if n.is_null then behavior.null_is else n.data_

  unfoldable pub print : Behavior A → (A → Text) → Null A → Text
  print behavior show n = if n.is_null then behavior.null_ostr else show n.data_

  unfoldable pub equals_null : Null A → Bool
  equals_null n = n.is_null

  unfoldable pub less_null : Null A → Bool
  less_null n = false

  module _ (eq lt : A → A → Bool) where
    -- The test of operator == by the two marks and the equality of the data.
    unfoldable pub equals_by : Bool → Bool → Bool → Bool
    equals_by true true same = true
    equals_by true false same = false
    equals_by false true same = false
    equals_by false false same = same

    unfoldable pub equals : Null A → Null A → Bool
    unfolding equals_by
    equals n rhs = equals_by n.is_null rhs.is_null (eq n.data_ rhs.data_)

    unfoldable pub differs : Null A → Null A → Bool
    unfolding equals
    differs n rhs = not (equals n rhs)

    unfoldable pub less_by : Bool → Bool → Bool → Bool
    less_by true rhs_null below = not rhs_null
    less_by false true below = false
    less_by false false below = below

    unfoldable pub less : Null A → Null A → Bool
    unfolding less_by
    less n rhs = less_by n.is_null rhs.is_null (lt n.data_ rhs.data_)
