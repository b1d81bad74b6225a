-- ===== src/Base/Real.antt =====
-- Floating-point numbers: the type, its operations and the constants of the source are parameters,
-- with no law assumed.
use mathlib.Core.Bool.{Bool}
use Prim.Native.Nat.{ℕ}

pub record Real (R : Type 0) : Type 0 where
  pub nought : R
  pub one : R
  -- 0.5
  pub half : R
  -- 1e-12
  pub tiny : R
  -- The largest number below 1.
  pub below_one : R
  pub of_nat : ℕ → R
  -- static_cast<uint32_t>
  pub to_nat : R → ℕ
  pub add : R → R → R
  pub sub : R → R → R
  pub mul : R → R → R
  pub div : R → R → R
  pub sqrt : R → R
  pub lt : R → R → Bool
  pub le : R → R → Bool
  pub same : R → R → Bool
