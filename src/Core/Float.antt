-- ===== src/Core/Float.antt =====
-- float64 values, exactly: a finite one is the dyadic fraction z / 2^k. Comparison is exact; the
-- arithmetic of the machine, which rounds, is not defined here.
use restorelab.Prelude.{ℕ, ◌*◌, ◌^◌, Bool, true, false}
use restorelab.Prelude.Int.{ℤ, pos, negsuc, ltb_ℤ}
use restorelab.Prelude.{suc, ◌-◌}

pub data Float64 : Type 0 where
  finite : ℤ → ℕ → Float64
  infinity : Float64
  minus_infinity : Float64
  nan : Float64

-- z * 2^k
pub scale : ℤ → ℕ → ℤ
scale (pos n) k = pos (n * 2 ^ k)
scale (negsuc n) k = negsuc (suc n * 2 ^ k - 1)

-- `a < b` of Go: false as soon as one side is a NaN.
unfoldable pub lt_float : Float64 → Float64 → Bool
unfolding scale
lt_float (finite y j) (finite z k) = ltb_ℤ (scale y k) (scale z j)
lt_float (finite y j) infinity = true
lt_float minus_infinity (finite z k) = true
lt_float minus_infinity infinity = true
lt_float _ _ = false

-- `finite` of checks/values.go: neither a NaN nor an infinity.
unfoldable pub is_finite : Float64 → Bool
is_finite (finite _ _) = true
is_finite _ = false
