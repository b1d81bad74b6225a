-- ===== src/Hpx/Forces/Descent.antt =====
-- The accelerations against the recursive descent into the tree.
use amt_bh_benchmark.Base.{ℕ, ◌^◌, ◌≤◌, List, map, ◌≡◌, refl, length, range_from, ◌⊎◌, inl, inr}
use amt_bh_benchmark.Base.Real.{Real}
use amt_bh_benchmark.Base.Eq.{HashMap}
use amt_bh_benchmark.Hpx.Octree.{Position, OctreeKey, OctreeNode}
use amt_bh_benchmark.Hpx.OctreeMap.{octree_key_eq, octree_sharding, OctreeMap}
use amt_bh_benchmark.Hpx.ShardedMap.{lookup}
use amt_bh_benchmark.Hpx.Exchange.{root_key}
use amt_bh_benchmark.Hpx.Flatten.{flatten_tree}
use amt_bh_benchmark.Hpx.Flatten.Returns.{HasTooManyNodes, flatten_tree-IsFlat}
use amt_bh_benchmark.Hpx.Walk.{finished, overflow, and_then}
use amt_bh_benchmark.Hpx.Walk.Descent.{each_body-finished}
use amt_bh_benchmark.Hpx.Scene.{BoundingBox, FlatNode, Scene, origin, scene_of}
use amt_bh_benchmark.Hpx.Traversal.{walk_body}
use amt_bh_benchmark.Hpx.Traversal.Acceptance.{IsFlat, descend_root, walk_body-descend_root}
use amt_bh_benchmark.Hpx.Forces.{force, compute_accelerations, compute_accelerations_of_tree}

module _ {R : Type 0} ⦃real : Real R⦄ (flat : List (FlatNode R)) (key : List ℕ)
    (pos : List (Position R)) (mass : List R) (theta g soft2 : R) (global_bb : BoundingBox R) where
  -- Over a flat tree of at most 21 levels, the loop of computeAccelerations ends without a stack
  -- overflow, and the acceleration of each body is the one of the recursive descent from the root that
  -- opens and accepts the same cells, in the same order of the sums.
  pub compute_accelerations-descend_root :
      IsFlat flat
      → compute_accelerations flat key pos mass theta g soft2 global_bb
        ≡ finished (
            map
              (λ i.
                descend_root (scene_of flat key pos mass theta soft2 global_bb) i (force g) origin)
              (range_from 0 (length pos)))
  unfolding compute_accelerations
  compute_accelerations-descend_root h =
      let scene : Scene R = scene_of flat key pos mass theta soft2 global_bb in
      each_body-finished (λ i. walk_body scene i (force g) origin)
        (λ i. descend_root scene i (force g) origin)
        (λ i. walk_body-descend_root scene i (force g) h origin) (range_from 0 (length pos))

module _ {R : Type 0} ⦃real : Real R⦄ (key : List ℕ) (pos : List (Position R)) (mass : List R)
    (theta g soft2 : R) (global_bb : BoundingBox R) where
  module _ (H : HashMap OctreeKey (OctreeNode R) octree_key_eq) (tree : OctreeMap H) where
    -- On any map of nodes and with any number of threads, either the stitched array has 2^32 nodes or
    -- more, flattenTree throws the exception for it, and computeAccelerations stops there, or
    -- flattenTree returns an array, and if this has at most 2^32 nodes, each body gets the acceleration of the recursive
    -- descent over it.
    pub compute_accelerations_of_tree-descend_root :
        (threads : ℕ)
        → ((nodes : List (FlatNode R)) × (flatten_tree H tree threads ≡ finished nodes)
            × (length nodes ≤ 2 ^ 32
                → compute_accelerations_of_tree H tree threads key pos mass theta g soft2 global_bb
                  ≡ finished (
                      map
                        (λ i.
                          descend_root
                            (scene_of nodes key pos mass theta soft2 global_bb)
                            i
                            (force g)
                            origin)
                        (range_from 0 (length pos)))))
          ⊎ ((flatten_tree H tree threads ≡ overflow)
              × (compute_accelerations_of_tree H tree threads key pos mass theta g soft2 global_bb
                  ≡ overflow)
              × HasTooManyNodes H tree threads (lookup (octree_sharding H) tree root_key))
    unfolding compute_accelerations_of_tree and_then
    compute_accelerations_of_tree-descend_root threads = elim (flatten_tree-IsFlat H tree threads) [
      | inl (nodes, same, fits) ↦ inl (
        nodes,
        same,
        λ room. rw same (
            compute_accelerations-descend_root nodes key pos mass theta g soft2 global_bb
              (fits room)),
      )
      | inr (thrown, cause) ↦ inr (thrown, rw thrown refl, cause)
    ]
