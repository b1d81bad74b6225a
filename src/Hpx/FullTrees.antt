-- ===== src/Hpx/FullTrees.antt =====
-- `exchangeFullTrees` of hpx/src/exchange.cpp and `serializeTreeToRecords` of
-- hpx/src/linear_octree.cpp. What the iteration over a map gives, in its order, is a parameter, and so
-- is all_gather, whose result has an entry for each rank.
pub mod Flags
mod Examples
use amt_bh_benchmark.Base.{ℕ, ◌+◌, leb, ◌==◌, if◌then◌else◌, List, [], ◌∷◌, map}
use amt_bh_benchmark.Base.Eq.{HashMap}
use amt_bh_benchmark.Base.Real.{Real}
use amt_bh_benchmark.Hpx.Octree.{OctreeKey, OctreeNode}
use amt_bh_benchmark.Hpx.OctreeMap.{octree_key_eq, OctreeMap}
use amt_bh_benchmark.Hpx.Merge.{NodeRecord, merge_records_into_tree}

abbrev pub serialize_entry : {R : Type 0} → OctreeKey × OctreeNode R → NodeRecord R
serialize_entry e = record {
  prefix = e.0.prefix;
  depth = e.0.depth;
  is_leaf = if e.1.is_leaf then 1 else 0;
  mass = e.1.mass;
  com_x = e.1.com_x;
  com_y = e.1.com_y;
  com_z = e.1.com_z;
}

pub serialize_tree_to_records : {R : Type 0} → List (OctreeKey × OctreeNode R) → List (NodeRecord R)
serialize_tree_to_records entries = map serialize_entry entries

module _ {R : Type 0} ⦃real : Real R⦄ (H : HashMap OctreeKey (OctreeNode R) octree_key_eq)
    (P : HashMap OctreeKey Unit octree_key_eq)
    (entries : OctreeMap H → List (OctreeKey × OctreeNode R)) where
  -- The loop over the sites, from `site` on: the records of every other site are merged.
  pub merge_sites : ℕ → ℕ → List (List (NodeRecord R)) → OctreeMap H → OctreeMap H
  merge_sites rank site [] full_tree = full_tree
  merge_sites rank site (records ∷ per_site) full_tree =
      merge_sites rank (site + 1) per_site
        (if site == rank then full_tree else merge_records_into_tree H P full_tree records)

  -- With a single locality, full_tree stays as it is.
  pub exchange_full_trees :
      (List (NodeRecord R) → List (List (NodeRecord R)))
      → ℕ
      → ℕ
      → OctreeMap H
      → OctreeMap H
      → OctreeMap H
  exchange_full_trees all_gather rank size local_tree full_tree =
      let per_site = all_gather (serialize_tree_to_records (entries local_tree)) in
      if leb size 1 then full_tree else merge_sites rank 0 per_site local_tree
