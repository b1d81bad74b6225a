-- ===== src/Hpx/FullTrees/Examples.antt =====
-- The theorem on exchangeFullTrees at a concrete tree.
use amt_bh_benchmark.Base.{ℕ, true, some, List, [], ◌∷◌, ◌≡◌, refl, ap, ◌∙◌, arith}
use amt_bh_benchmark.Base.Real.{Real}
use amt_bh_benchmark.Base.Whole.{whole}
use amt_bh_benchmark.Base.Eq.{HashMap}
use amt_bh_benchmark.Base.Table.{assoc_table}
use amt_bh_benchmark.Hpx.Octree.{OctreeKey, OctreeNode}
use amt_bh_benchmark.Hpx.OctreeMap.{octree_key_eq, octree_key_eqb_iff, octree_sharding, OctreeMap}
use amt_bh_benchmark.Hpx.ShardedMap.{new, change, lookup}
use amt_bh_benchmark.Hpx.ShardedMap.Refinement.{
  new-IsSharded, change-IsUpdate, lookup-change, IsSharded,
}
use amt_bh_benchmark.Hpx.Merge.{NodeRecord, default_node}
use amt_bh_benchmark.Hpx.Merge.Flags.{leaf_flag}
use amt_bh_benchmark.Hpx.Exchange.{root_key}
use amt_bh_benchmark.Hpx.FullTrees.{exchange_full_trees}
use amt_bh_benchmark.Hpx.FullTrees.Flags.{leaf_flag-exchange_full_trees}

-- Whole numbers in place of floating-point ones.
instance abbrev numbers : Real ℕ
numbers = whole

abbrev nodes : HashMap OctreeKey (OctreeNode ℕ) octree_key_eq
nodes = assoc_table octree_key_eq

abbrev keys : HashMap OctreeKey Unit octree_key_eq
keys = assoc_table octree_key_eq

abbrev as_leaf : OctreeNode ℕ → OctreeNode ℕ
as_leaf n = record n { is_leaf = true; mass = 2 }

abbrev local_tree : OctreeMap nodes
local_tree =
    change (octree_sharding nodes) default_node (new (octree_sharding nodes)) root_key as_leaf

local_tree-IsSharded : IsSharded (octree_sharding nodes) local_tree
local_tree-IsSharded =
    (change-IsUpdate (octree_sharding nodes) default_node (new (octree_sharding nodes)) root_key
      as_leaf (new-IsSharded (octree_sharding nodes))).sharded

root_flag : leaf_flag (lookup (octree_sharding nodes) local_tree root_key) ≡ some true
root_flag =
    ap leaf_flag (
      lookup-change (octree_sharding nodes) default_node (new (octree_sharding nodes)) root_key
        root_key as_leaf (new-IsSharded (octree_sharding nodes)))
    ∙ rw ((octree_key_eqb_iff root_key root_key).1 refl) refl

abbrev sent : List (NodeRecord ℕ)
sent = record { prefix = 0; depth = 0; is_leaf = 0; mass = 5; com_x = 1; com_y = 1; com_z = 1 } ∷ []

leaf_flag-exchange_full_trees_example :
    leaf_flag (
      lookup
        (octree_sharding nodes)
        (exchange_full_trees nodes keys
          (λ t. (root_key, as_leaf default_node) ∷ [])
          (λ mine. mine ∷ sent ∷ [])
          0
          2
          local_tree
          (new (octree_sharding nodes)))
        root_key)
    ≡ some true
leaf_flag-exchange_full_trees_example =
    leaf_flag-exchange_full_trees nodes keys (λ t. (root_key, as_leaf default_node) ∷ [])
      (λ mine. mine ∷ sent ∷ []) 0 2 local_tree (new (octree_sharding nodes)) root_key true
      (omega arith) local_tree-IsSharded root_flag
