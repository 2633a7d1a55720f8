-- ===== src/Prelude/Double.antt =====
-- The type `double` and the operations that the program uses on it, as an interface: the native
-- numbers have no floating point, and no theorem rests on how a `double` is rounded.
use foren6_analyzer.Prelude.Tests.{ltb, ◌==◌}
use Prim.Native.Nat.{ℕ, ◌-◌}
use mathlib.Core.Bool.{Bool}

pub record Double (D : Type 0) : Type 0 where
  pub zero_d : D
  pub sub_d : D → D → D
  -- `x == 0`
  pub is_zero_d : D → Bool
  -- `x < y`
  pub lt_d : D → D → Bool

-- Whole numbers, for runs on concrete inputs.
instance abbrev pub whole_double : Double ℕ
whole_double = record { zero_d = 0; sub_d = λ x y. x - y; is_zero_d = λ x. x == 0; lt_d = ltb }
