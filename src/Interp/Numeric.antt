-- ===== src/Interp/Numeric.antt =====
-- On interp/relational.go: the numeric comparison, and numbers with an infinity above them.
use go_sieve.Interp.Relational.{
  Relational, compare_uint64, greater_than, less_than, equal_numbers, compare_numeric_value,
}
use go_sieve.Prelude.{ℕ, ◌<◌, ◌≡◌, Option, none, some, arith}

-- The number, or the bound in place of infinity.
abbrev pub below : ℕ → Option ℕ → ℕ
below bound none = bound
below bound (some n) = n

-- A number is below the bound, and infinity has no condition.
abbrev pub IsBelow : ℕ → Option ℕ → Type 0
IsBelow bound none = Unit
IsBelow bound (some n) = n < bound

-- `CompareNumericValue` is `CompareUint64` with any bound above both numbers in the place of a missing one,
-- for all six operators and for a string that is none: a missing number is equal to a missing one and greater
-- than every other.
pub compare_numeric_value-below :
    (rel : Relational) (bound : ℕ) (l r : Option ℕ)
    → IsBelow bound l
    → IsBelow bound r
    → compare_numeric_value rel l r ≡ compare_uint64 rel (below bound l) (below bound r)
unfolding compare_numeric_value compare_uint64 greater_than less_than equal_numbers
compare_numeric_value-below rel bound none none h k = ground arith
compare_numeric_value-below rel bound none (some n) h k = ground arith
compare_numeric_value-below rel bound (some m) none h k = ground arith
compare_numeric_value-below rel bound (some m) (some n) h k = ground arith
