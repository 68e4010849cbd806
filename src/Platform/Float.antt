-- ===== src/Platform/Float.antt =====
-- A float64, exactly. Every finite float64 is a whole number of units of 2^-1074, the least
-- positive one, so the model keeps that number and compares without rounding. The two zeros, which
-- compare equal, are one value.
use Prim.Native.Nat.{ℕ, suc, ◌*◌, ◌/◌, ◌%◌, ◌^◌, ◌<◌}
use native.Mathlib.Bridge.{le_by_compare, IsLe}
use kessa.Base.Int.{ℤ, pos, negsuc, neg}

pub data Float64 : Type 0 where
  nan : Float64
  plus_inf minus_inf : Float64
  finite : ℤ → Float64

-- The number of units in one.
pub scale : ℕ
scale = 2 ^ 1074

pub scale_pos : 0 < scale
unfolding scale IsLe
scale_pos = le_by_compare 1 (2 ^ 1074) tt

-- An integer, counted in units of a float.
unfoldable pub scaled : ℤ → ℤ
scaled (pos n) = pos (n * scale)
scaled (negsuc n) = neg (suc n * scale)

-- `math.Trunc`, towards zero, as an integer.
unfoldable pub trunc : ℤ → ℤ
trunc (pos n) = pos (n / scale)
trunc (negsuc n) = neg (suc n / scale)

-- `f - math.Trunc(f)`, in units.
unfoldable pub fraction : ℤ → ℤ
fraction (pos n) = pos (n % scale)
fraction (negsuc n) = neg (suc n % scale)
