-- ===== src/Hpx/Merge/Leaves.antt =====
-- Which nodes `mergeRecordsIntoTree` flags as leaves.
use amt_bh_benchmark.Base.{
  ◌≡◌, refl, ap, ◌∙◌, false, ◌||◌, ◌&&◌, if◌then◌else◌, Option, none, some, List, [], ◌∷◌,
  Bool-cases, inl, inr, arith,
}
use amt_bh_benchmark.Base.Eq.{HashMap}
use amt_bh_benchmark.Base.Real.{Real}
use amt_bh_benchmark.Hpx.Octree.{OctreeKey, OctreeNode}
use amt_bh_benchmark.Hpx.OctreeMap.{
  octree_key_eq, octree_key_eqb, octree_key_eqb_iff, octree_sharding, OctreeMap,
}
use amt_bh_benchmark.Hpx.ShardedMap.{lookup}
use amt_bh_benchmark.Hpx.ShardedMap.Refinement.{IsSharded, or_default}
use amt_bh_benchmark.Hpx.Merge.{
  NodeRecord, key_of, default_node, merge_node, protect, more_keys, is_protected, merge_loop,
  merge_records_into_tree,
}
use amt_bh_benchmark.Hpx.Merge.View.{
  merge_view, merge_loop-merge_view, mark_loop-mark_view, mark_loop-IsSharded,
}
use amt_bh_benchmark.Hpx.Merge.Flags.{
  or_false, or_and, is_internal, present, leaf_flag, names, says_leaf, flag_after, merge_node_leaf,
  flag_view, flags, mark_view_flag,
}

module _ {R : Type 0} ⦃real : Real R⦄ where
  module _ (H : HashMap OctreeKey (OctreeNode R) octree_key_eq)
      (P : HashMap OctreeKey Unit octree_key_eq) where
    is_protected-present :
        (keys : P.Map) (r : NodeRecord R)
        → is_protected H P keys r ≡ present (P.find keys (key_of r))
    unfolding is_protected
    is_protected-present keys r = refl

    old_flag :
        (o : Option (OctreeNode R))
        → (or_default default_node o).is_leaf ≡ or_default false (leaf_flag o)
    old_flag none = refl
    old_flag (some n) = refl

    merged_flag :
        (keys : P.Map) (q : OctreeKey) (r : NodeRecord R) (o : Option (OctreeNode R))
        → leaf_flag (
            if octree_key_eqb q (key_of r)
            then some (merge_node (is_protected H P keys r) r (or_default default_node o))
            else o)
          ≡ (if octree_key_eqb q (key_of r)
              then some (
                  if present (P.find keys q)
                  then or_default false (leaf_flag o)
                  else or_default false (leaf_flag o) || says_leaf r)
              else leaf_flag o)
    merged_flag keys q r o = elim (Bool-cases (octree_key_eqb q (key_of r))) [
      | inl here ↦
          let same = (octree_key_eqb_iff q (key_of r)).0 here in
          rw (here, same)
            (ap some (
              merge_node_leaf (is_protected H P keys r) r (or_default default_node o)
              ∙ rw (is_protected-present keys r, old_flag o) refl))
      | inr elsewhere ↦ rw elsewhere refl
    ]

    merge_view_flag :
        (keys : P.Map) (q : OctreeKey) (records : List (NodeRecord R)) (o : Option (OctreeNode R))
        → leaf_flag (merge_view H P keys records q o)
          ≡ flag_view (present (P.find keys q)) q records (leaf_flag o)
    unfolding merge_view flag_view
    merge_view_flag keys q [] o = refl
    merge_view_flag keys q (r ∷ records) o =
        merge_view_flag keys q records _
        ∙ ap (flag_view (present (P.find keys q)) q records) (merged_flag keys q r o)

    more_keys-present :
        (found : Option (OctreeNode R)) (r : NodeRecord R) (keys : P.Map) (q : OctreeKey)
        → present (P.find (more_keys H P found r keys) q) ≡ (
            present (P.find keys q)
            || (octree_key_eqb q (key_of r) && is_internal (leaf_flag found)))
    unfolding more_keys
    more_keys-present none r keys q = ground arith
    more_keys-present (some node) r keys q = elim (Bool-cases node.is_leaf) [
      | inl leaf ↦ rw leaf (ground arith)
      | inr internal ↦ rw (internal, P.find-insert_or_assign keys (key_of r) q tt) (ground arith)
    ]

    protected_one :
        (tree : OctreeMap H) (r : NodeRecord R) (keys : P.Map) (q : OctreeKey)
        → present (P.find (more_keys H P (lookup (octree_sharding H) tree (key_of r)) r keys) q) ≡ (
            present (P.find keys q)
            || (octree_key_eqb q (key_of r)
                && is_internal (leaf_flag (lookup (octree_sharding H) tree q))))
    protected_one tree r keys q =
        more_keys-present (lookup (octree_sharding H) tree (key_of r)) r keys q
        ∙ elim (Bool-cases (octree_key_eqb q (key_of r))) [
          | inl here ↦ rw ((octree_key_eqb_iff q (key_of r)).0 here) refl
          | inr elsewhere ↦ rw elsewhere refl
        ]

    -- The first loop protects the keys of internal nodes that a record names.
    protected :
        (tree : OctreeMap H) (records : List (NodeRecord R)) (keys : P.Map) (q : OctreeKey)
        → present (P.find (protect H P tree records keys) q) ≡ (
            present (P.find keys q)
            || (names q records && is_internal (leaf_flag (lookup (octree_sharding H) tree q))))
    unfolding protect names more_keys
    protected tree [] keys q = or_false _
    protected tree (r ∷ records) keys q =
        protected tree records _ q
        ∙ ap
            (λ b.
              b || (names q records && is_internal (leaf_flag (lookup (octree_sharding H) tree q))))
            (protected_one tree r keys q)
        ∙ or_and (present (P.find keys q)) (octree_key_eqb q (key_of r)) (names q records)
            (is_internal (leaf_flag (lookup (octree_sharding H) tree q)))

    -- A node that is in the tree keeps its leaf flag, whatever the records say, and no node goes; a new
    -- node is there just if a record names its key, and is a leaf just if some record for it is one.
    pub leaf_flag-merge_records_into_tree :
        (tree : OctreeMap H) (records : List (NodeRecord R)) (q : OctreeKey)
        → IsSharded (octree_sharding H) tree
        → leaf_flag (lookup (octree_sharding H) (merge_records_into_tree H P tree records) q)
          ≡ flag_after q records (leaf_flag (lookup (octree_sharding H) tree q))
    unfolding merge_records_into_tree
    leaf_flag-merge_records_into_tree tree records q h =
        let S = octree_sharding H in
        let keys = protect H P tree records P.empty in
        let merged = merge_loop H P keys records tree in
        let (s, found) = merge_loop-merge_view H P keys records tree q h in
        ap leaf_flag (mark_loop-mark_view H P records merged q s)
        ∙ mark_view_flag records q (lookup S merged q)
        ∙ ap leaf_flag found
        ∙ merge_view_flag keys q records (lookup S tree q)
        ∙ ap (λ p. flag_view p q records (leaf_flag (lookup S tree q)))
            (protected tree records P.empty q)
        ∙ rw (P.find-empty q) (flags q records (leaf_flag (lookup S tree q)))

    pub merge_records_into_tree-IsSharded :
        (tree : OctreeMap H) (records : List (NodeRecord R))
        → IsSharded (octree_sharding H) tree
        → IsSharded (octree_sharding H) (merge_records_into_tree H P tree records)
    unfolding merge_records_into_tree
    merge_records_into_tree-IsSharded tree records h =
        let keys = protect H P tree records P.empty in
        let root : OctreeKey = record { prefix = 0; depth = 0 } in
        mark_loop-IsSharded H P records (merge_loop H P keys records tree)
          (merge_loop-merge_view H P keys records tree root h).0
