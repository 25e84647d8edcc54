-- ===== src/Base/Floats.antt =====
-- `float64`. The language gives its arithmetic; a development over it takes the type and the
-- operations that the source uses as a parameter. A comparison is a test, as in Go, so a NaN is a
-- value at which every comparison is false.
use Prim.Native.Nat.{ℕ}
use mathlib.Core.Bool.{Bool, ◌&&◌}
use calculated_tennis.Base.Int.{ℤ}

pub record Float64 : Type 1 where
  pub F : Type 0
  pub zero : F
  pub one : F
  pub two : F
  pub half : F
  pub lt : F → F → Bool
  pub le : F → F → Bool
  pub add : F → F → F
  pub sub : F → F → F
  pub div : F → F → F
  -- `math.Pow`.
  pub pow : F → F → F
  pub mul : F → F → F
  pub neg : F → F
  -- `float64(n)`.
  pub of_int : ℤ → F
  -- The literal of the digits `n` with `k` of them after the point.
  pub literal : ℕ → ℕ → F

-- `x == y`.
abbrev pub float_eq : (R : Float64) → R.F → R.F → Bool
float_eq R x y = R.le x y && R.le y x
