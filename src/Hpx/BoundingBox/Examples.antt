-- ===== src/Hpx/BoundingBox/Examples.antt =====
-- The theorem on boxes at concrete positions.
use amt_bh_benchmark.Base.{ℕ, [], ◌∷◌, All, arith}
use amt_bh_benchmark.Base.Real.{Real}
use amt_bh_benchmark.Base.Whole.{whole}
use amt_bh_benchmark.Hpx.Octree.{Position}
use amt_bh_benchmark.Hpx.Scene.{BoundingBox}
use amt_bh_benchmark.Hpx.BoundingBox.{compute_local_bbox}
use amt_bh_benchmark.Hpx.BoundingBox.Bounds.{IsOrdered, Inside, compute_local_bbox-Inside}

-- Whole numbers in place of floating-point ones.
instance abbrev numbers : Real ℕ
numbers = whole

numbers-IsOrdered : IsOrdered numbers
numbers-IsOrdered = record {
  lt_asym = λ a b h. ground (arith, h);
  up_to_trans = λ a b c h k. ground (arith, h, k);
}

abbrev spot : ℕ → ℕ → Position ℕ
spot x y = record { x = x; y = y; z = 3 }

abbrev no_box : BoundingBox ℕ
no_box = record { min = spot 9 9; max = spot 0 0 }

compute_local_bbox-Inside_example :
    All (Inside (compute_local_bbox no_box (spot 4 1 ∷ spot 2 7 ∷ []))) (spot 4 1 ∷ spot 2 7 ∷ [])
compute_local_bbox-Inside_example =
    compute_local_bbox-Inside numbers-IsOrdered no_box (spot 4 1 ∷ spot 2 7 ∷ [])
