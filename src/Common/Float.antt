-- ===== src/Common/Float.antt =====
-- Go's float64 by its IEEE 754 bits, with the order, and a few constants. Sums and quotients of
-- floats are rounded by the processor and enter the model as parameters.
use Prim.Native.Nat.{ℕ, ◌+◌, ◌%◌}
use mathlib.Core.Bool.{Bool, false, not, ◌&&◌, ◌||◌}
use llm_cache.Common.Tests.{ltb, leb, if◌then◌else◌}
use llm_cache.Common.Word.{half64}

abbrev pub Float64 : Type 0
Float64 = ℕ

-- The bits below the sign.
abbrev pub magnitude : Float64 → ℕ
magnitude x = x % half64

abbrev pub is_negative : Float64 → Bool
is_negative x = leb half64 x

-- Above the bits of infinity.
abbrev pub is_nan : Float64 → Bool
is_nan x = ltb 0x7FF0_0000_0000_0000 (magnitude x)

-- `x < y`: nothing is below or above a NaN, and the zeros are equal.
unfoldable pub float_lt : Float64 → Float64 → Bool
float_lt x y =
    if is_nan x || is_nan y
    then false
    else if is_negative x
    then (if is_negative y
        then ltb (magnitude y) (magnitude x)
        else ltb 0 (magnitude x + magnitude y))
    else not (is_negative y) && ltb (magnitude x) (magnitude y)

-- `x <= y` and `x == y`
abbrev pub float_le : Float64 → Float64 → Bool
float_le x y = not (is_nan x || is_nan y) && not (float_lt y x)

abbrev pub float_eq : Float64 → Float64 → Bool
float_eq x y = float_le x y && float_le y x

-- 0, -1, 1e-6 and -1e-6
abbrev pub float_zero : Float64
float_zero = 0

abbrev pub float_minus_one : Float64
float_minus_one = 0xBFF0_0000_0000_0000

abbrev pub float_micro : Float64
float_micro = 0x3EB0_C6F7_A0B5_ED8D

abbrev pub float_minus_micro : Float64
float_minus_micro = 0xBEB0_C6F7_A0B5_ED8D
