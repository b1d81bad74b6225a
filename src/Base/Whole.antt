-- ===== src/Base/Whole.antt =====
-- Whole numbers in place of floating-point numbers, for running definitions that take these.
use Prim.Native.Nat.{ℕ, zero, suc, ◌+◌, ◌-◌, ◌*◌, ◌/◌}
use amt_bh_benchmark.Base.Tests.{ltb, leb, ◌==◌, if◌then◌else◌}
use amt_bh_benchmark.Base.Real.{Real}

-- The largest number up to k whose square is at most n.
pub root_up_to : ℕ → ℕ → ℕ
root_up_to n zero = 0
root_up_to n (suc k) = if leb (suc k * suc k) n then suc k else root_up_to n k

abbrev pub whole : Real ℕ
whole = record {
  nought = 0;
  one = 1;
  half = 0;
  tiny = 0;
  below_one = 0;
  of_nat = λ n. n;
  to_nat = λ n. n;
  add = ◌+◌;
  sub = ◌-◌;
  mul = ◌*◌;
  div = ◌/◌;
  sqrt = λ n. root_up_to n n;
  lt = ltb;
  le = leb;
  same = ◌==◌;
}
