-- ===== src/Hpx/Forces.antt =====
-- The accelerations of the bodies: `computeAccelerations` and `computeAccelerationsWithRemoteDirectSum`
-- of hpx/src/traversal.cpp.
pub mod Descent
mod Examples
use amt_bh_benchmark.Base.{ℕ, ◌+◌, List, [], ◌∷◌, length, if◌then◌else◌, get_or, range_from}
use amt_bh_benchmark.Base.Real.{Real}
use amt_bh_benchmark.Base.Eq.{HashMap}
use amt_bh_benchmark.Hpx.Octree.{Position, OctreeKey, OctreeNode}
use amt_bh_benchmark.Hpx.OctreeMap.{octree_key_eq, OctreeMap}
use amt_bh_benchmark.Hpx.Flatten.{flatten_tree}
use amt_bh_benchmark.Hpx.Merge.{NodeRecord}
use amt_bh_benchmark.Hpx.Walk.{
  Outcome, finished, overflow, out_of_fuel, each_body, map_outcome, and_then,
}
use amt_bh_benchmark.Hpx.Scene.{
  BoundingBox, FlatNode, Scene, Kernel, origin, displacement, softened, scene_of,
}
use amt_bh_benchmark.Hpx.Traversal.{walk_body}

module _ {R : Type 0} ⦃real : Real R⦄ where
  open real use {nought, one, tiny, add, mul, div, sqrt, le}

  -- The kernel of the forces: s = G * m * invR3, and the sum grows by s times the displacement.
  pub pull : R → R → Position R → R → Position R → Position R
  pull g m d r2 a =
      let inv_r = div one (sqrt r2) in
      let s = mul (mul g m) (mul (mul inv_r inv_r) inv_r) in
      record { x = add a.x (mul s d.x); y = add a.y (mul s d.y); z = add a.z (mul s d.z) }

  abbrev pub force : R → Kernel R (Position R)
  force g = record { near = pull g; far = pull g }

  -- `computeAccelerations` after flattenTree.
  pub compute_accelerations :
      List (FlatNode R)
      → List ℕ
      → List (Position R)
      → List R
      → R
      → R
      → R
      → BoundingBox R
      → Outcome (List (Position R))
  compute_accelerations flat key pos mass theta g soft2 global_bb =
      let scene = scene_of flat key pos mass theta soft2 global_bb in
      each_body (λ i. walk_body scene i (force g) origin) (range_from 0 (length pos))

  -- The softened force of the remote nodes, summed directly; near ones add nothing.
  pub add_remote : R → R → Position R → List (NodeRecord R) → Position R → Position R
  add_remote g soft2 p [] a = a
  add_remote g soft2 p (r ∷ remote) a =
      let d = displacement (record { x = r.com_x; y = r.com_y; z = r.com_z }) p in
      let r2 = softened soft2 d in
      let inv_r = div one (sqrt r2) in
      let s = mul (mul r.mass g) (mul (mul inv_r inv_r) inv_r) in
      let pulled : Position R = record {
        x = add a.x (mul s d.x);
        y = add a.y (mul s d.y);
        z = add a.z (mul s d.z);
      } in
      add_remote g soft2 p remote (if le r2 tiny then a else pulled)

  abbrev pub plus : Position R → Position R → Position R
  plus a b = record { x = add a.x b.x; y = add a.y b.y; z = add a.z b.z }

  -- The second pass, from body i on: out[i] += the sum of the remote forces.
  pub remote_pass :
      R → R → List (Position R) → List (NodeRecord R) → ℕ → List (Position R) → List (Position R)
  remote_pass g soft2 pos remote i [] = []
  remote_pass g soft2 pos remote i (a ∷ out) =
      plus a (add_remote g soft2 (get_or pos i origin) remote origin)
      ∷ remote_pass g soft2 pos remote (i + 1) out

  pub compute_accelerations_with_remote_direct_sum :
      List (FlatNode R)
      → List (NodeRecord R)
      → List ℕ
      → List (Position R)
      → List R
      → R
      → R
      → R
      → BoundingBox R
      → Outcome (List (Position R))
  compute_accelerations_with_remote_direct_sum flat remote key pos mass theta g soft2 global_bb =
      map_outcome (remote_pass g soft2 pos remote 0)
        (compute_accelerations flat key pos mass theta g soft2 global_bb)

  module _ (H : HashMap OctreeKey (OctreeNode R) octree_key_eq) (tree : OctreeMap H)
      (threads : ℕ) where
    -- The whole of `computeAccelerations`.
    pub compute_accelerations_of_tree :
        List ℕ
        → List (Position R)
        → List R
        → R
        → R
        → R
        → BoundingBox R
        → Outcome (List (Position R))
    compute_accelerations_of_tree key pos mass theta g soft2 global_bb =
        and_then (flatten_tree H tree threads)
          (λ flat. compute_accelerations flat key pos mass theta g soft2 global_bb)
