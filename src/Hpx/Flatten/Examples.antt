-- ===== src/Hpx/Flatten/Examples.antt =====
-- The theorem on flattenTree at a concrete tree.
use amt_bh_benchmark.Base.{ℕ, ◌^◌, ◌*◌, ◌≤◌, ◌⊎◌, true, List, length, ◌≡◌}
use amt_bh_benchmark.Base.Real.{Real}
use amt_bh_benchmark.Base.Whole.{whole}
use amt_bh_benchmark.Base.Eq.{HashMap}
use amt_bh_benchmark.Base.Table.{assoc_table}
use amt_bh_benchmark.Hpx.Octree.{OctreeKey, OctreeNode}
use amt_bh_benchmark.Hpx.OctreeMap.{octree_key_eq, octree_sharding, OctreeMap}
use amt_bh_benchmark.Hpx.ShardedMap.{new, change, lookup}
use amt_bh_benchmark.Hpx.Merge.{default_node}
use amt_bh_benchmark.Hpx.Scene.{FlatNode}
use amt_bh_benchmark.Hpx.Walk.{finished, overflow}
use amt_bh_benchmark.Hpx.Traversal.Acceptance.{IsFlat}
use amt_bh_benchmark.Hpx.Exchange.{root_key}
use amt_bh_benchmark.Hpx.Flatten.{flatten_tree}
use amt_bh_benchmark.Hpx.Flatten.Returns.{HasTooManyNodes, flatten_tree-IsFlat}

-- Whole numbers in place of floating-point ones.
instance abbrev numbers : Real ℕ
numbers = whole

abbrev nodes : HashMap OctreeKey (OctreeNode ℕ) octree_key_eq
nodes = assoc_table octree_key_eq

-- A root with one child, in the last octant.
abbrev tree : OctreeMap nodes
tree =
    let s = octree_sharding nodes in
    change s default_node
      (change s default_node (new s) root_key (λ n. record n { mass = 4; child_mask = 128 }))
      (record { prefix = 7 * 2 ^ 60; depth = 1 }) (λ n. record n { mass = 4; is_leaf = true })

flatten_tree-IsFlat_example :
    ((flat : List (FlatNode ℕ)) × (flatten_tree nodes tree 8 ≡ finished flat)
      × (length flat ≤ 2 ^ 32 → IsFlat flat))
    ⊎ ((flatten_tree nodes tree 8 ≡ overflow)
        × HasTooManyNodes nodes tree 8 (lookup (octree_sharding nodes) tree root_key))
flatten_tree-IsFlat_example = flatten_tree-IsFlat nodes tree 8
