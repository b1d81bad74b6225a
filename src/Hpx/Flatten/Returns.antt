-- ===== src/Hpx/Flatten/Returns.antt =====
-- The fuel of the loops of flattenTree is enough.
use amt_bh_benchmark.Base.{
  ℕ, zero, suc, ◌+◌, ◌-◌, ◌%◌, ◌^◌, ◌≤◌, ◌<◌, ltb, Bool-cases, inl, inr, ◌⊎◌, Option, none, some,
  List, [], ◌∷◌, ◌++◌, length, length-append, All, All-append, ◌≡◌, refl, ap, arith,
}
use native.Mathlib.Nat.{mul-le-mul_right, pow-le-pow_right}
use amt_bh_benchmark.Base.Eq.{HashMap}
use amt_bh_benchmark.Base.Real.{Real}
use amt_bh_benchmark.Hpx.Traversal.Acceptance.{IsFlat}
use amt_bh_benchmark.Hpx.Flatten.Stitch.{flatten_found-IsFlat}
use amt_bh_benchmark.Hpx.Octree.{OctreeKey, OctreeNode, bh_max_depth}
use amt_bh_benchmark.Hpx.OctreeMap.{octree_key_eq, octree_sharding, OctreeMap}
use amt_bh_benchmark.Hpx.ShardedMap.{lookup}
use amt_bh_benchmark.Hpx.Scene.{FlatNode}
use amt_bh_benchmark.Hpx.Walk.{Outcome, finished, overflow, map_outcome, and_then, with_result}
use amt_bh_benchmark.Hpx.Walk.Descent.{weight, weight-append, weight_level, nine_pow_pos}
use amt_bh_benchmark.Hpx.Traversal.{walk_fuel}
use amt_bh_benchmark.Hpx.Exchange.{octants_of, root_key}
use amt_bh_benchmark.Hpx.Flatten.{
  FrontierItem, Frontier, Subtree, Appended, add_child, append_loop, append_children, octant_key,
  flat_expandable, make_flat, expand_item, expand_bfs, expand_subtree, expand_subtrees, close,
  no_stop, target, stitch, checked, root_queue, expand_rest, flatten_rest, flatten_found,
  flatten_tree,
}
use amt_bh_benchmark.Hpx.Flatten.Children.{IsQueued, append_children-IsAppended}

module _ {R : Type 0} where
  -- The levels below an entry.
  abbrev levels : FrontierItem R → ℕ
  levels p = bh_max_depth - p.depth

  abbrev IsAbove : FrontierItem R → Type 0
  IsAbove p = p.depth < bh_max_depth

  Queued-IsAbove :
      (d size n : ℕ) (items : List (FrontierItem R))
      → All (IsQueued (d + 1) size n) items
      → All IsAbove items × All (λ p. levels p ≡ bh_max_depth - (d + 1)) items
  Queued-IsAbove d size n [] all = (tt, tt)
  Queued-IsAbove d size n (p ∷ items) all =
      let (level, above, j, slot, lt) = all.0 in
      let (aboves, same) = Queued-IsAbove d size n items all.1 in
      ((omega (arith, level, above), aboves), (omega (arith, level), same))

  -- Fewer entries than nodes.
  abbrev FewItems : Appended R → Type 0
  FewItems added = length added.items ≤ length added.nodes

  add_child-FewItems :
      (k : OctreeKey) (size : ℕ) (o : Option (OctreeNode R)) (added : Appended R)
      → FewItems added
      → FewItems (add_child k size o added)
  unfolding add_child
  add_child-FewItems k size none added h = h
  add_child-FewItems k size (some cn) added h =
      let one = length-append added.nodes (make_flat k.prefix k.depth cn ∷ []) in
      elim (Bool-cases (flat_expandable cn k.depth)) [
        | inr no_more ↦ rw no_more (omega (arith, h, one))
        | inl queued ↦ rw queued (
            omega (
              arith,
              h,
              one,
              length-append added.items (
                  record {
                    prefix = k.prefix;
                    node = cn;
                    slot = (size + length added.nodes) % 2 ^ 32;
                    depth = k.depth;
                  }
                  ∷ []),
            ))
      ]

  module _ (H : HashMap OctreeKey (OctreeNode R) octree_key_eq) (tree : OctreeMap H) where
    append_loop-FewItems :
        (prefix depth size : ℕ) (ocs : List ℕ) (added : Appended R)
        → FewItems added
        → FewItems (append_loop H tree prefix depth size ocs added)
    unfolding append_loop
    append_loop-FewItems prefix depth size [] added h = h
    append_loop-FewItems prefix depth size (oc ∷ ocs) added h =
        let k = octant_key prefix depth oc in
        let o = lookup (octree_sharding H) tree k in
        append_loop-FewItems prefix depth size ocs (add_child k size o added)
          (add_child-FewItems k size o added h)

    append_children-FewItems :
        (p : FrontierItem R) (size : ℕ) → FewItems (append_children H tree p size)
    unfolding append_children
    append_children-FewItems p size =
        append_loop-FewItems p.prefix p.depth size (octants_of p.node.child_mask)
          (record { nodes = []; items = [] }) (omega arith)

    -- The entries of the children of an entry, and what they weigh.
    children_lighter :
        (p : FrontierItem R) (size : ℕ)
        → IsAbove p
        → All IsAbove (append_children H tree p size).items
          × (weight levels (append_children H tree p size).items + 1 ≤ 9 ^ levels p)
    children_lighter p size above =
        let (all, few) = append_children-IsAppended H tree p size above in
        let items = (append_children H tree p size).items in
        let (aboves, same) =
          Queued-IsAbove p.depth size (length (append_children H tree p size).nodes) items all.1 in
        let l = bh_max_depth - (p.depth + 1) in
        let eight : length items ≤ 8 = omega (arith, few, append_children-FewItems p size) in
        let level : 9 ^ levels p ≡ 9 ^ suc l = ap (λ n. 9 ^ n) (omega (arith, above)) in
        (
          aboves,
          omega (
            arith,
            level,
            weight_level levels l items same,
            mul-le-mul_right (9 ^ l) eight,
            nine_pow_pos l,
          ),
        )

    expand_bfs_returns :
        (stop_at : ℕ) (out : List (FlatNode R)) (queue : List (FrontierItem R)) (fuel : ℕ)
        → All IsAbove queue
        → weight levels queue ≤ fuel
        → (f : Frontier R) × (expand_bfs H tree stop_at out queue fuel ≡ finished f)
          × All IsAbove f.queue
    unfolding expand_bfs weight
    expand_bfs_returns stop_at out [] fuel above enough =
        (record { out = out; queue = [] }, refl, tt)
    expand_bfs_returns stop_at out (p ∷ queue) zero above enough =
        absurd (omega (arith, enough, nine_pow_pos (levels p)))
    expand_bfs_returns stop_at out (p ∷ queue) (suc fuel) above enough =
        let (aboves, lighter) = children_lighter p (length out) above.0 in
        let items = (append_children H tree p (length out)).items in
        let (f, more, left_above) =
          expand_bfs_returns stop_at (expand_item H tree p out) (queue ++ items) fuel
            (All-append IsAbove queue items above.1 aboves)
            (omega (arith, enough, lighter, weight-append levels queue items)) in
        elim (Bool-cases (ltb (length queue + 1) stop_at)) [
          | inl go_on ↦ (f, rw go_on more, left_above)
          | inr stop ↦ (record { out = out; queue = p ∷ queue }, rw stop refl, above)
        ]

    expand_subtree_returns :
        (r : FrontierItem R) → IsAbove r → (s : Subtree R) × (expand_subtree H tree r ≡ finished s)
    unfolding expand_subtree map_outcome
    expand_subtree_returns r above =
        let added = append_children H tree r 0 in
        let (aboves, lighter) = children_lighter r 0 above in
        let deep : 9 ^ levels r ≤ 9 ^ 21 =
          pow-le-pow_right {n = 9} (omega arith) {i = levels r} {j = 21} (omega arith) in
        let (f, expanded, left_above) =
          expand_bfs_returns no_stop added.nodes added.items walk_fuel aboves
            (omega (arith, lighter, deep)) in
        (close r (length added.nodes) f, rw expanded refl)

    expand_subtrees_returns :
        (rs : List (FrontierItem R))
        → All IsAbove rs
        → (ss : List (Subtree R)) × (expand_subtrees H tree rs ≡ finished ss)
    unfolding expand_subtrees with_result
    expand_subtrees_returns [] above = ([], refl)
    expand_subtrees_returns (r ∷ rs) above =
        let (s, one) = expand_subtree_returns r above.0 in
        let (ss, others) = expand_subtrees_returns rs above.1 in (s ∷ ss, rw (one, others) refl)

    -- A result or the exception, which has a cause.
    abbrev Returns : Outcome (List (FlatNode R)) → Type 0 → Type 0
    Returns o Cause = ((flat : List (FlatNode R)) × (o ≡ finished flat)) ⊎ ((o ≡ overflow) × Cause)

    checked-Returns : (out : List (FlatNode R)) → Returns (checked out) (2 ^ 32 ≤ length out)
    unfolding checked
    checked-Returns out = elim (Bool-cases (ltb (2 ^ 32 - 1) (length out))) [
      | inl long ↦ inr (rw long refl, ground (arith, long))
      | inr short ↦ inl (out, rw short refl)
    ]

    -- The subtrees below a queue, stitched to an array, give 2^32 nodes or more.
    abbrev IsTooLong : List (FlatNode R) → List (FrontierItem R) → Type 0
    IsTooLong out queue =
        (ss : List (Subtree R)) × (expand_subtrees H tree queue ≡ finished ss)
        × (2 ^ 32 ≤ length (stitch ss out))

    flatten_rest-Returns :
        (out : List (FlatNode R)) (queue : List (FrontierItem R))
        → All IsAbove queue
        → Returns (flatten_rest H tree out queue) (IsTooLong out queue)
    unfolding flatten_rest expand_rest and_then
    flatten_rest-Returns out [] above = inl (out, refl)
    flatten_rest-Returns out (r ∷ queue) above =
        let (ss, expanded) = expand_subtrees_returns (r ∷ queue) above in
        elim (checked-Returns (stitch ss out)) [
          | inl (flat, same) ↦ inl (flat, rw expanded same)
          | inr (thrown, long) ↦ inr (rw expanded thrown, (ss, expanded, long))
        ]

    root-IsAbove :
        (root : OctreeNode R)
        → All IsAbove (root_queue root) × (weight levels (root_queue root) ≤ walk_fuel)
    unfolding root_queue weight
    root-IsAbove root = elim (Bool-cases (flat_expandable root 0)) [
      | inl queued ↦ rw queued ((omega arith, tt), omega arith)
      | inr no_queue ↦ rw no_queue (tt, omega arith)
    ]

    -- From the root that the map has, the backbone and the subtrees below it have 2^32 nodes or more.
    unfoldable pub HasTooManyNodes : ℕ → Option (OctreeNode R) → Type 0
    HasTooManyNodes threads o =
        (root : OctreeNode R) × (o ≡ some root)
        × (f : Frontier R) × (expand_bfs H tree (target threads) (make_flat 0 0 root ∷ [])
              (root_queue root) walk_fuel
            ≡ finished f)
        × IsTooLong f.out f.queue

    flatten_found-Returns :
        (threads : ℕ) (o : Option (OctreeNode R))
        → Returns (flatten_found H tree threads o) (HasTooManyNodes threads o)
    unfolding flatten_found and_then HasTooManyNodes
    flatten_found-Returns threads none = inl ([], refl)
    flatten_found-Returns threads (some root) =
        let (above, light) = root-IsAbove root in
        let (f, expanded, left_above) =
          expand_bfs_returns (target threads) (make_flat 0 0 root ∷ []) (root_queue root) walk_fuel
            above light in
        elim (flatten_rest-Returns f.out f.queue left_above) [
          | inl (flat, same) ↦ inl (flat, rw expanded same)
          | inr (thrown, long) ↦ inr (rw expanded thrown, (root, refl, f, expanded, long))
        ]

    -- Whatever the number of threads, flattenTree returns an array, or it throws the exception for more
    -- nodes than an offset holds and the stitched array has 2^32 nodes or more. The array returned is a
    -- flat tree if it has at most 2^32 nodes: no node is below level 21, and the children of a node, at
    -- most eight, are the nodes from its children_offset on, one level below it.
    pub flatten_tree-IsFlat :
        ⦃real : Real R⦄
        → (threads : ℕ)
        → ((flat : List (FlatNode R)) × (flatten_tree H tree threads ≡ finished flat)
            × (length flat ≤ 2 ^ 32 → IsFlat flat))
          ⊎ ((flatten_tree H tree threads ≡ overflow)
              × HasTooManyNodes threads (lookup (octree_sharding H) tree root_key))
    unfolding flatten_tree
    flatten_tree-IsFlat threads =
        let o = lookup (octree_sharding H) tree root_key in
        elim (flatten_found-Returns threads o) [
          | inl (flat, same) ↦
              inl (flat, same, λ room. flatten_found-IsFlat H tree threads o flat same room)
          | inr thrown ↦ inr thrown
        ]
