-- ===== src/Common/Word.antt =====
-- Go's int and int64 as bit patterns below 2 ^ 64: sums wrap around, and the order is that of two's
-- complement.
use Prim.Native.Nat.{ℕ, ◌+◌, ◌-◌, ◌%◌, ◌<◌}
use mathlib.Core.Path.{◌≡◌}
use mathlib.Core.Bool.{Bool}
use native.Mathlib.Omega.{arith}
use llm_cache.Common.Tests.{ltb, ◌==◌}

-- 2 ^ 63 and 2 ^ 64
abbrev pub half64 : ℕ
half64 = 9223372036854775808

abbrev pub word64 : ℕ
word64 = 18446744073709551616

unfoldable pub add64 : ℕ → ℕ → ℕ
add64 a b = (a + b) % word64

-- `a - b`
unfoldable pub sub64 : ℕ → ℕ → ℕ
sub64 a b = (a + (word64 - b % word64)) % word64

-- `n++`
unfoldable pub inc64 : ℕ → ℕ
inc64 n = (n + 1) % word64

-- Where a bit pattern stands in the signed order.
unfoldable pub rank : ℕ → ℕ
rank n = (n + half64) % word64

-- `a < b`
abbrev pub slt64 : ℕ → ℕ → Bool
slt64 a b = ltb (rank a) (rank b)

-- `a == b`
abbrev pub eq64 : ℕ → ℕ → Bool
eq64 a b = rank a == rank b

pub inc64_small : (n : ℕ) → n + 1 < word64 → inc64 n ≡ n + 1
unfolding inc64
inc64_small n h = omega arith

pub rank_small : (n : ℕ) → n < half64 → rank n ≡ n + half64
unfolding rank
rank_small n h = omega arith

pub add64_small : (a b : ℕ) → a + b < word64 → add64 a b ≡ a + b
unfolding add64
add64_small a b h = omega arith
