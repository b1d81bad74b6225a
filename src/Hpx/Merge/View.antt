-- ===== src/Hpx/Merge/View.antt =====
-- What `mergeRecordsIntoTree` does at one key, as a function on what `lookup` finds there.
use amt_bh_benchmark.Base.{
  ℕ, ◌-◌, ◌≡◌, refl, ap, ◌∙◌, Bool, ◌||◌, ltb, ◌==◌, if◌then◌else◌, Option, none, some, List, [],
  ◌∷◌, Bool-cases, Option-cases, inl, inr,
}
use amt_bh_benchmark.Base.Eq.{HashMap}
use amt_bh_benchmark.Base.Real.{Real}
use amt_bh_benchmark.Hpx.Morton.{morton_prefix}
use amt_bh_benchmark.Hpx.Octree.{OctreeKey, OctreeNode, bh_max_depth, set_octant}
use amt_bh_benchmark.Hpx.OctreeMap.{
  octree_key_eq, octree_key_eqb, octree_key_eqb_iff, octree_sharding, OctreeMap,
}
use amt_bh_benchmark.Hpx.ShardedMap.{lookup, change}
use amt_bh_benchmark.Hpx.ShardedMap.Refinement.{
  IsSharded, change-IsUpdate, lookup-change, or_default,
}
use amt_bh_benchmark.Hpx.Merge.{
  NodeRecord, key_of, octant_in_parent, default_node, merge_node, is_protected, merge_loop,
  mark_in_parent, mark_loop,
}

abbrev pub parent_key : ℕ → ℕ → OctreeKey
parent_key prefix depth = record { prefix = morton_prefix prefix (depth - 1); depth = depth - 1 }

module _ {R : Type 0} ⦃real : Real R⦄ where
  abbrev pub skips : NodeRecord R → Bool
  skips r = (r.depth == 0) || ltb bh_max_depth r.depth

  unfoldable pub mark_node : ℕ → ℕ → OctreeNode R → OctreeNode R
  mark_node prefix depth p = record p {
    child_mask = set_octant p.child_mask (octant_in_parent prefix depth);
  }

  unfoldable pub mark_found : ℕ → ℕ → Option (OctreeNode R) → Option (OctreeNode R)
  mark_found prefix depth none = none
  mark_found prefix depth (some p) = some (mark_node prefix depth p)

  unfoldable pub mark_view :
      List (NodeRecord R) → OctreeKey → Option (OctreeNode R) → Option (OctreeNode R)
  mark_view [] q o = o
  mark_view (r ∷ records) q o = mark_view records q (
      if skips r
      then o
      else if octree_key_eqb q (parent_key r.prefix r.depth)
      then mark_found r.prefix r.depth o
      else o)

  module _ (H : HashMap OctreeKey (OctreeNode R) octree_key_eq)
      (P : HashMap OctreeKey Unit octree_key_eq) where
    unfoldable pub merge_view :
        P.Map → List (NodeRecord R) → OctreeKey → Option (OctreeNode R) → Option (OctreeNode R)
    merge_view keys [] q o = o
    merge_view keys (r ∷ records) q o = merge_view keys records q (
        if octree_key_eqb q (key_of r)
        then some (merge_node (is_protected H P keys r) r (or_default default_node o))
        else o)

    pub merge_loop-merge_view :
        (keys : P.Map) (records : List (NodeRecord R)) (tree : OctreeMap H) (q : OctreeKey)
        → IsSharded (octree_sharding H) tree
        → IsSharded (octree_sharding H) (merge_loop H P keys records tree)
          × (lookup (octree_sharding H) (merge_loop H P keys records tree) q
              ≡ merge_view keys records q (lookup (octree_sharding H) tree q))
    unfolding merge_loop merge_view
    merge_loop-merge_view keys [] tree q h = (h, refl)
    merge_loop-merge_view keys (r ∷ records) tree q h =
        let after =
          change (octree_sharding H) default_node tree (key_of r)
            (merge_node (is_protected H P keys r) r) in
        let u =
          change-IsUpdate (octree_sharding H) default_node tree (key_of r)
            (merge_node (is_protected H P keys r) r) h in
        let (s, found) = merge_loop-merge_view keys records after q u.sharded in
        (
          s,
          found
              ∙ ap (merge_view keys records q) (
                  lookup-change (octree_sharding H) default_node tree (key_of r) q
                    (merge_node (is_protected H P keys r) r) h),
        )

    pub mark_in_parent-mark_found :
        (prefix depth : ℕ) (tree : OctreeMap H) (q : OctreeKey)
        → IsSharded (octree_sharding H) tree
        → IsSharded (octree_sharding H) (mark_in_parent H P prefix depth tree)
          × (lookup (octree_sharding H) (mark_in_parent H P prefix depth tree) q ≡ (
              if octree_key_eqb q (parent_key prefix depth)
              then mark_found prefix depth (lookup (octree_sharding H) tree q)
              else lookup (octree_sharding H) tree q))
    unfolding mark_in_parent mark_found mark_node
    mark_in_parent-mark_found prefix depth tree q h =
        let S = octree_sharding H in
        let pk = parent_key prefix depth in
        elim (Option-cases (lookup S tree pk)) [
          | inl missing ↦
              rw (mark_in_parent, missing)
                (
                  h,
                  elim (Bool-cases (octree_key_eqb q pk)) [
                    | inl equal ↦ rw (equal, (octree_key_eqb_iff q pk).0 equal, missing) refl
                    | inr other ↦ rw other refl
                  ],
                )
          | inr (p, found) ↦
              let u = change-IsUpdate S p tree pk (mark_node prefix depth) h in
              rw (mark_in_parent, found)
                (
                  u.sharded,
                  lookup-change S p tree pk q (mark_node prefix depth) h
                      ∙ elim (Bool-cases (octree_key_eqb q pk)) [
                        | inl equal ↦ rw (equal, (octree_key_eqb_iff q pk).0 equal, found) refl
                        | inr other ↦ rw other refl
                      ],
                )
        ]

    pub mark_loop-mark_view :
        (records : List (NodeRecord R)) (tree : OctreeMap H) (q : OctreeKey)
        → IsSharded (octree_sharding H) tree
        → lookup (octree_sharding H) (mark_loop H P records tree) q
          ≡ mark_view records q (lookup (octree_sharding H) tree q)
    unfolding mark_loop mark_view
    mark_loop-mark_view [] tree q h = refl
    mark_loop-mark_view (r ∷ records) tree q h = elim (Bool-cases (skips r)) [
      | inl skip ↦ rw skip (mark_loop-mark_view records tree q h)
      | inr marks ↦
          let (s, found) = mark_in_parent-mark_found r.prefix r.depth tree q h in
          rw marks (
            mark_loop-mark_view records (mark_in_parent H P r.prefix r.depth tree) q s
            ∙ ap (mark_view records q) found)
    ]

    pub mark_loop-IsSharded :
        (records : List (NodeRecord R)) (tree : OctreeMap H)
        → IsSharded (octree_sharding H) tree
        → IsSharded (octree_sharding H) (mark_loop H P records tree)
    unfolding mark_loop
    mark_loop-IsSharded [] tree h = h
    mark_loop-IsSharded (r ∷ records) tree h = elim (Bool-cases (skips r)) [
      | inl skip ↦ rw (mark_loop, skip) (mark_loop-IsSharded records tree h)
      | inr marks ↦
          let (s, found) = mark_in_parent-mark_found r.prefix r.depth tree (key_of r) h in
          rw (mark_loop, marks)
            (mark_loop-IsSharded records (mark_in_parent H P r.prefix r.depth tree) s)
    ]
