-- ===== src/Prelude/Float.antt =====
-- `float64`: a value is its 64-bit pattern. The arithmetic is the hardware's, so its operations are
-- a parameter of the models that use it.
use blockchain_test.Prelude.{ℕ, Bool}
use blockchain_test.Prelude.Int.{ℤ}

abbrev pub Float64 : Type 0
Float64 = ℕ

pub record FloatOps : Type 0 where
  pub add : Float64 → Float64 → Float64
  pub sub : Float64 → Float64 → Float64
  pub mul : Float64 → Float64 → Float64
  pub div : Float64 → Float64 → Float64
  -- `a < b`, `a <= b`, `a == b`
  pub lt : Float64 → Float64 → Bool
  pub le : Float64 → Float64 → Bool
  pub eq : Float64 → Float64 → Bool
  -- `math.Min`, `math.Max`
  pub min : Float64 → Float64 → Float64
  pub max : Float64 → Float64 → Float64
  -- `float64(n)`
  pub of_int : ℤ → Float64
  -- `int(a)`
  pub to_int : Float64 → ℤ
  -- the literal n / 10 ^ k
  pub literal : ℕ → ℕ → Float64
