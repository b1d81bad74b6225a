-- ===== src/Hpx/Forces/Examples.antt =====
-- The theorems on accelerations and energies at a concrete tree.
use amt_bh_benchmark.Base.{
  ℕ, zero, suc, ◌^◌, ◌≤◌, ◌⊎◌, length, ◌+◌, get_or, ◌<◌, true, List, [], ◌∷◌, map, range_from, ◌≡◌,
  refl, arith,
}
use amt_bh_benchmark.Base.Real.{Real}
use amt_bh_benchmark.Base.Whole.{whole}
use amt_bh_benchmark.Base.Eq.{HashMap}
use amt_bh_benchmark.Base.Table.{assoc_table}
use amt_bh_benchmark.Hpx.Octree.{Position, OctreeKey, OctreeNode}
use amt_bh_benchmark.Hpx.OctreeMap.{octree_key_eq, octree_sharding, OctreeMap}
use amt_bh_benchmark.Hpx.ShardedMap.{new, change, lookup}
use amt_bh_benchmark.Hpx.Exchange.{root_key}
use amt_bh_benchmark.Hpx.Flatten.{flatten_tree}
use amt_bh_benchmark.Hpx.Flatten.Returns.{HasTooManyNodes}
use amt_bh_benchmark.Hpx.Merge.{default_node}
use amt_bh_benchmark.Hpx.Walk.{finished, overflow}
use amt_bh_benchmark.Hpx.Scene.{BoundingBox, FlatNode, no_node, origin, scene_of}
use amt_bh_benchmark.Hpx.Traversal.Acceptance.{IsFlat, descend_root}
use amt_bh_benchmark.Hpx.Forces.{force, compute_accelerations, compute_accelerations_of_tree}
use amt_bh_benchmark.Hpx.Forces.Descent.{
  compute_accelerations-descend_root, compute_accelerations_of_tree-descend_root,
}
use amt_bh_benchmark.Hpx.Energy.{compute_local_potential_energy, half_sum}
use amt_bh_benchmark.Hpx.Energy.Descent.{
  compute_local_potential_energy-descend_root, descend_potentials,
}

-- Whole numbers in place of floating-point ones.
instance abbrev numbers : Real ℕ
numbers = whole

abbrev spot : ℕ → Position ℕ
spot n = record { x = n; y = n; z = n }

abbrev box : BoundingBox ℕ
box = record { min = spot 0; max = spot 8 }

abbrev leaf : ℕ → ℕ → FlatNode ℕ
leaf body place = record no_node {
  mass = 2;
  com_x = place;
  com_y = place;
  com_z = place;
  depth = 1;
  is_leaf = true;
  body_begin = body;
  body_count = 1;
}

-- A root with two leaves of one body each.
abbrev three_nodes : List (FlatNode ℕ)
three_nodes =
    record no_node {
      mass = 4;
      com_x = 3;
      com_y = 3;
      com_z = 3;
      children_offset = 1;
      child_count = 2;
    }
    ∷ leaf 0 1
    ∷ leaf 1 6
    ∷ []

children_below : (c : ℕ) → c < 2 → (get_or three_nodes (1 + c) no_node).depth ≡ 1
children_below zero lt = refl
children_below (suc zero) lt = refl
children_below (suc (suc c)) lt = absurd (omega (arith, lt))

three_nodes-IsFlat : IsFlat three_nodes
unfolding IsFlat
three_nodes-IsFlat zero = (omega arith, omega arith, children_below)
three_nodes-IsFlat (suc zero) = (omega arith, omega arith, λ c lt. absurd (omega (arith, lt)))
three_nodes-IsFlat (suc (suc zero)) = (omega arith, omega arith, λ c lt. absurd (omega (arith, lt)))
three_nodes-IsFlat (suc (suc (suc n))) =
    (omega arith, omega arith, λ c lt. absurd (omega (arith, lt)))

abbrev keys : List ℕ
keys = 0 ∷ 7 ∷ []

abbrev places : List (Position ℕ)
places = spot 1 ∷ spot 6 ∷ []

abbrev masses : List ℕ
masses = 2 ∷ 2 ∷ []

compute_accelerations-descend_root_example :
    compute_accelerations three_nodes keys places masses 0 5 1 box
    ≡ finished (
        map
          (λ i. descend_root (scene_of three_nodes keys places masses 0 1 box) i (force 5) origin)
          (range_from 0 2))
compute_accelerations-descend_root_example =
    compute_accelerations-descend_root three_nodes keys places masses 0 5 1 box three_nodes-IsFlat

compute_local_potential_energy-descend_root_example :
    compute_local_potential_energy three_nodes keys places masses 0 5 1 box
    ≡ finished (half_sum masses (descend_potentials three_nodes keys places masses 0 5 1 box))
compute_local_potential_energy-descend_root_example =
    compute_local_potential_energy-descend_root three_nodes keys places masses 0 5 1 box
      three_nodes-IsFlat

abbrev table : HashMap OctreeKey (OctreeNode ℕ) octree_key_eq
table = assoc_table octree_key_eq

-- A root with one leaf, in the first octant.
abbrev tree : OctreeMap table
tree =
    let s = octree_sharding table in
    change s default_node
      (change s default_node (new s) root_key (λ n. record n { mass = 4; child_mask = 1 }))
      (record { prefix = 0; depth = 1 })
      (λ n. record n { mass = 4; is_leaf = true; body_count = 2 })

compute_accelerations_of_tree-descend_root_example :
    ((nodes : List (FlatNode ℕ)) × (flatten_tree table tree 2 ≡ finished nodes)
      × (length nodes ≤ 2 ^ 32
          → compute_accelerations_of_tree table tree 2 keys places masses 0 5 1 box
            ≡ finished (
                map
                  (λ i. descend_root (scene_of nodes keys places masses 0 1 box) i (force 5) origin)
                  (range_from 0 2))))
    ⊎ ((flatten_tree table tree 2 ≡ overflow)
        × (compute_accelerations_of_tree table tree 2 keys places masses 0 5 1 box ≡ overflow)
        × HasTooManyNodes table tree 2 (lookup (octree_sharding table) tree root_key))
compute_accelerations_of_tree-descend_root_example =
    compute_accelerations_of_tree-descend_root keys places masses 0 5 1 box table tree 2
