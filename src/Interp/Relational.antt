-- ===== src/Interp/Relational.antt =====
-- interp/relational.go. A number is `none` where the string does not start with a digit.
use go_sieve.Prelude.{ℕ, Bool, true, false, not, Option, none, some, ltb, leb, ◌==◌, Bytes}

-- The six operators; any other string holds of nothing.
pub data Relational : Type 0 where
  gt ge lt le eq ne : Relational
  other : Bytes → Relational

-- `CompareUint64`
unfoldable pub compare_uint64 : Relational → ℕ → ℕ → Bool
compare_uint64 gt l r = ltb r l
compare_uint64 ge l r = leb r l
compare_uint64 lt l r = ltb l r
compare_uint64 le l r = leb l r
compare_uint64 eq l r = l == r
compare_uint64 ne l r = not (l == r)
compare_uint64 (other s) l r = false

unfoldable pub greater_than : Option ℕ → Option ℕ → Bool
greater_than none none = false
greater_than none (some r) = true
greater_than (some l) none = false
greater_than (some l) (some r) = ltb r l

unfoldable pub less_than : Option ℕ → Option ℕ → Bool
less_than none none = false
less_than (some l) none = true
less_than none (some r) = false
less_than (some l) (some r) = ltb l r

unfoldable pub equal_numbers : Option ℕ → Option ℕ → Bool
equal_numbers none none = true
equal_numbers (some l) (some r) = l == r
equal_numbers none (some r) = false
equal_numbers (some l) none = false

-- `CompareNumericValue`
unfoldable pub compare_numeric_value : Relational → Option ℕ → Option ℕ → Bool
compare_numeric_value gt l r = greater_than l r
compare_numeric_value ge l r = not (less_than l r)
compare_numeric_value lt l r = less_than l r
compare_numeric_value le l r = not (greater_than l r)
compare_numeric_value eq l r = equal_numbers l r
compare_numeric_value ne l r = not (equal_numbers l r)
compare_numeric_value (other s) l r = false
