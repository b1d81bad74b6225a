-- ===== src/Hpx/FullTrees/Flags.antt =====
-- The nodes of a rank in the full tree.
use amt_bh_benchmark.Base.{
  ℕ, ◌+◌, ◌<◌, Bool, false, leb, ◌==◌, Bool-cases, inl, inr, some, List, [], ◌∷◌, ◌≡◌, ap, ◌∙◌,
  arith,
}
use amt_bh_benchmark.Base.Eq.{HashMap}
use amt_bh_benchmark.Base.Real.{Real}
use amt_bh_benchmark.Hpx.Octree.{OctreeKey, OctreeNode}
use amt_bh_benchmark.Hpx.OctreeMap.{octree_key_eq, octree_sharding, OctreeMap}
use amt_bh_benchmark.Hpx.ShardedMap.{lookup}
use amt_bh_benchmark.Hpx.ShardedMap.Refinement.{IsSharded}
use amt_bh_benchmark.Hpx.Merge.{NodeRecord, merge_records_into_tree}
use amt_bh_benchmark.Hpx.Merge.Flags.{leaf_flag, flag_after}
use amt_bh_benchmark.Hpx.Merge.Leaves.{
  leaf_flag-merge_records_into_tree, merge_records_into_tree-IsSharded,
}
use amt_bh_benchmark.Hpx.FullTrees.{serialize_tree_to_records, merge_sites, exchange_full_trees}

module _ {R : Type 0} ⦃real : Real R⦄ (H : HashMap OctreeKey (OctreeNode R) octree_key_eq)
    (P : HashMap OctreeKey Unit octree_key_eq)
    (entries : OctreeMap H → List (OctreeKey × OctreeNode R)) where
  merge_kept :
      (tree : OctreeMap H) (records : List (NodeRecord R)) (q : OctreeKey) (b : Bool)
      → IsSharded (octree_sharding H) tree
      → leaf_flag (lookup (octree_sharding H) tree q) ≡ some b
      → leaf_flag (lookup (octree_sharding H) (merge_records_into_tree H P tree records) q) ≡ some b
  unfolding flag_after
  merge_kept tree records q b h kept =
      leaf_flag-merge_records_into_tree H P tree records q h ∙ ap (flag_after q records) kept

  merge_sites_kept :
      (rank site : ℕ) (per_site : List (List (NodeRecord R))) (tree : OctreeMap H) (q : OctreeKey)
      (b : Bool)
      → IsSharded (octree_sharding H) tree
      → leaf_flag (lookup (octree_sharding H) tree q) ≡ some b
      → leaf_flag (lookup (octree_sharding H) (merge_sites H P entries rank site per_site tree) q)
        ≡ some b
  unfolding merge_sites
  merge_sites_kept rank site [] tree q b h kept = kept
  merge_sites_kept rank site (records ∷ per_site) tree q b h kept =
      elim (Bool-cases (site == rank)) [
        | inl own ↦ rw own (merge_sites_kept rank (site + 1) per_site tree q b h kept)
        | inr other ↦ rw other (
            merge_sites_kept rank (site + 1) per_site (merge_records_into_tree H P tree records) q b
              (merge_records_into_tree-IsSharded H P tree records h)
              (merge_kept tree records q b h kept))
      ]

  -- On more than one locality, a node of the local tree is in the tree that exchangeFullTrees makes,
  -- with the leaf flag that it has locally, whatever the other localities send.
  pub leaf_flag-exchange_full_trees :
      (all_gather : List (NodeRecord R) → List (List (NodeRecord R))) (rank size : ℕ)
      (local_tree full_tree : OctreeMap H) (q : OctreeKey) (b : Bool)
      → 1 < size
      → IsSharded (octree_sharding H) local_tree
      → leaf_flag (lookup (octree_sharding H) local_tree q) ≡ some b
      → leaf_flag (
          lookup
            (octree_sharding H)
            (exchange_full_trees H P entries all_gather rank size local_tree full_tree)
            q)
        ≡ some b
  unfolding exchange_full_trees
  leaf_flag-exchange_full_trees all_gather rank size local_tree full_tree q b many h kept =
      let several : leb size 1 ≡ false = ground (arith, many) in
      rw several (
        merge_sites_kept rank 0 (all_gather (serialize_tree_to_records (entries local_tree)))
          local_tree q b h kept)
