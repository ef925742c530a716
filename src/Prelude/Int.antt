-- ===== src/Prelude/Int.antt =====
-- Go's int: 64 bits, two's complement.
use Prim.Native.Nat.{ℕ, ◌-◌, ◌%◌, ◌^◌, ◌<◌}
use mathlib.Core.Path.{◌≡◌}
use native.Mathlib.Omega.{arith}
use go_sieve.Prelude.Tests.{ltb, if◌then◌else◌}

-- `negsuc n` is -(n + 1).
pub data ℤ : Type 0 where
  pos : ℕ → ℤ
  negsuc : ℕ → ℤ

-- The int that a product or a sum of non-negative ints wraps round to.
unfoldable pub to_int : ℕ → ℤ
to_int n = let low = n % 2 ^ 64 in if ltb low (2 ^ 63) then pos low else negsuc (2 ^ 64 - 1 - low)

-- Below 2^63 nothing is lost.
pub to_int-pos : (n : ℕ) → n < 2 ^ 63 → to_int n ≡ pos n
unfolding to_int
to_int-pos n h = ground arith
