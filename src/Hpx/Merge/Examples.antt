-- ===== src/Hpx/Merge/Examples.antt =====
-- The theorems on the sharded map and on `mergeRecordsIntoTree` at concrete inputs.
use amt_bh_benchmark.Base.{ℕ, ◌+◌, ◌^◌, ◌≡◌, List, [], ◌∷◌}
use amt_bh_benchmark.Base.Real.{Real}
use amt_bh_benchmark.Base.Whole.{whole}
use amt_bh_benchmark.Base.Eq.{HashMap}
use amt_bh_benchmark.Base.Table.{assoc_table}
use amt_bh_benchmark.Hpx.Octree.{OctreeKey, OctreeNode}
use amt_bh_benchmark.Hpx.OctreeMap.{octree_key_eq, octree_sharding}
use amt_bh_benchmark.Hpx.ShardedMap.{new, lookup, shard_of, change, insert_shard_unsynchronized}
use amt_bh_benchmark.Hpx.ShardedMap.Refinement.{
  IsUpdate, or_default, new-IsSharded, insert_shard_unsynchronized-IsUpdate, change-IsUpdate,
}
use amt_bh_benchmark.Hpx.Merge.{NodeRecord, default_node, merge_records_into_tree}
use amt_bh_benchmark.Hpx.Merge.Flags.{leaf_flag, flag_after}
use amt_bh_benchmark.Hpx.Merge.Leaves.{leaf_flag-merge_records_into_tree}

-- Whole numbers in place of floating-point ones.
instance abbrev numbers : Real ℕ
numbers = whole

abbrev nodes : HashMap OctreeKey (OctreeNode ℕ) octree_key_eq
nodes = assoc_table octree_key_eq

abbrev keys : HashMap OctreeKey Unit octree_key_eq
keys = assoc_table octree_key_eq

abbrev root_key : OctreeKey
root_key = record { prefix = 0; depth = 0 }

insert_shard_unsynchronized-IsUpdate_example :
    IsUpdate (octree_sharding nodes) (new (octree_sharding nodes)) root_key default_node (
      insert_shard_unsynchronized
        (octree_sharding nodes)
        (shard_of (octree_sharding nodes) root_key)
        root_key
        default_node
        (new (octree_sharding nodes)))
insert_shard_unsynchronized-IsUpdate_example =
    insert_shard_unsynchronized-IsUpdate (octree_sharding nodes) (new (octree_sharding nodes))
      root_key default_node (new-IsSharded (octree_sharding nodes))

heavier : OctreeNode ℕ → OctreeNode ℕ
heavier n = record n { mass = n.mass + 1 }

change-IsUpdate_example :
    IsUpdate
      (octree_sharding nodes)
      (new (octree_sharding nodes))
      root_key
      (heavier (
        or_default default_node
          (lookup (octree_sharding nodes) (new (octree_sharding nodes)) root_key)))
      (change (octree_sharding nodes) default_node (new (octree_sharding nodes)) root_key heavier)
change-IsUpdate_example =
    change-IsUpdate (octree_sharding nodes) default_node (new (octree_sharding nodes)) root_key
      heavier (new-IsSharded (octree_sharding nodes))

abbrev one_leaf : List (NodeRecord ℕ)
one_leaf =
    record { prefix = 2 ^ 60; depth = 1; is_leaf = 1; mass = 4; com_x = 1; com_y = 1; com_z = 1 }
    ∷ []

leaf_flag-merge_records_into_tree_example :
    leaf_flag (
      lookup
        (octree_sharding nodes)
        (merge_records_into_tree nodes keys (new (octree_sharding nodes)) one_leaf)
        (record { prefix = 2 ^ 60; depth = 1 }))
    ≡ flag_after
        (record { prefix = 2 ^ 60; depth = 1 })
        one_leaf
        (leaf_flag (
          lookup
            (octree_sharding nodes)
            (new (octree_sharding nodes))
            (record { prefix = 2 ^ 60; depth = 1 })))
leaf_flag-merge_records_into_tree_example =
    leaf_flag-merge_records_into_tree nodes keys (new (octree_sharding nodes)) one_leaf
      (record { prefix = 2 ^ 60; depth = 1 }) (new-IsSharded (octree_sharding nodes))
