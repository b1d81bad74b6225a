-- ===== src/Hpx/Flatten/Children.antt =====
-- What appendChildren adds: at most eight nodes one level down, without children so far, and queue
-- entries for some of them.
use amt_bh_benchmark.Base.{
  ℕ, ◌+◌, ◌%◌, ◌^◌, ◌≤◌, ◌<◌, true, Bool-cases, inl, inr, Option, none, some, List, [], ◌∷◌, ◌++◌,
  length, length-append, All, All-append, ◌≡◌, refl, subst, arith,
}
use amt_bh_benchmark.Base.Eq.{HashMap}
use amt_bh_benchmark.Hpx.Octree.{OctreeKey, OctreeNode, bh_max_depth}
use amt_bh_benchmark.Hpx.OctreeMap.{octree_key_eq, octree_sharding, OctreeMap}
use amt_bh_benchmark.Hpx.ShardedMap.{lookup}
use amt_bh_benchmark.Hpx.Scene.{FlatNode}
use amt_bh_benchmark.Hpx.Exchange.{octants_of}
use amt_bh_benchmark.Hpx.Exchange.Interaction.{length-octants_of}
use amt_bh_benchmark.Hpx.Flatten.{
  FrontierItem, Appended, flat_expandable, make_flat, octant_key, add_child, append_loop,
  append_children,
}

module _ {R : Type 0} where
  -- A node at a level, without children.
  abbrev pub IsFresh : ℕ → FlatNode R → Type 0
  IsFresh d x = (x.depth ≡ d) × (x.child_count ≡ 0)

  -- An entry for one of the first n slots from `size` on, at a level above the deepest.
  abbrev pub IsQueued : ℕ → ℕ → ℕ → FrontierItem R → Type 0
  IsQueued d size n p =
      (p.depth ≡ d) × (d < bh_max_depth) × (j : ℕ) × (p.slot ≡ (size + j) % 2 ^ 32) × (j < n)

  abbrev pub IsAppended : ℕ → ℕ → Appended R → Type 0
  IsAppended d size added =
      All (IsFresh d) added.nodes × All (IsQueued d size (length added.nodes)) added.items

  IsQueued-later :
      (d size m n : ℕ)
      → m ≤ n
      → (items : List (FrontierItem R)) → All (IsQueued d size m) items
      → All (IsQueued d size n) items
  IsQueued-later d size m n h [] all = tt
  IsQueued-later d size m n h (p ∷ items) all =
      let (level, above, j, at, lt) = all.0 in
      ((level, above, j, at, omega (arith, lt, h)), IsQueued-later d size m n h items all.1)

  flat_expandable-lt : (n : OctreeNode R) (d : ℕ) → flat_expandable n d ≡ true → d < bh_max_depth
  flat_expandable-lt n d h = ground (arith, h)

  add_child-IsAppended :
      (k : OctreeKey) (size : ℕ) (o : Option (OctreeNode R)) (added : Appended R)
      → IsAppended k.depth size added
      → IsAppended k.depth size (add_child k size o added)
        × (length (add_child k size o added).nodes ≤ length added.nodes + 1)
  unfolding add_child
  add_child-IsAppended k size none added h = (h, omega arith)
  add_child-IsAppended k size (some cn) added h =
      let one = length-append added.nodes (make_flat k.prefix k.depth cn ∷ []) in
      let more : length added.nodes ≤ length (added.nodes ++ make_flat k.prefix k.depth cn ∷ []) =
        omega (arith, one) in
      let old =
        IsQueued-later k.depth size (length added.nodes)
          (length (added.nodes ++ make_flat k.prefix k.depth cn ∷ [])) more added.items h.1 in
      (
        (
          All-append (IsFresh k.depth) added.nodes (make_flat k.prefix k.depth cn ∷ []) h.0
              ((refl, refl), tt),
          elim (Bool-cases (flat_expandable cn k.depth)) [
            | inr no_more ↦ rw no_more old
            | inl queued ↦ rw queued (
                All-append
                  (IsQueued k.depth size
                    (length (added.nodes ++ make_flat k.prefix k.depth cn ∷ [])))
                  added.items
                  (record {
                    prefix = k.prefix;
                    node = cn;
                    slot = (size + length added.nodes) % 2 ^ 32;
                    depth = k.depth;
                  }
                    ∷ [])
                  old
                  (
                    (
                      refl,
                      flat_expandable-lt cn k.depth queued,
                      length added.nodes,
                      refl,
                      omega (arith, one),
                    ),
                    tt,
                  ))
          ],
        ),
        omega (arith, one),
      )

  module _ (H : HashMap OctreeKey (OctreeNode R) octree_key_eq) (tree : OctreeMap H) where
    append_loop-IsAppended :
        (prefix depth size : ℕ) (ocs : List ℕ) (added : Appended R)
        → IsAppended ((depth + 1) % 2 ^ 8) size added
        → IsAppended ((depth + 1) % 2 ^ 8) size (append_loop H tree prefix depth size ocs added)
          × (length (append_loop H tree prefix depth size ocs added).nodes
              ≤ length added.nodes + length ocs)
    unfolding append_loop
    append_loop-IsAppended prefix depth size [] added h = (h, omega arith)
    append_loop-IsAppended prefix depth size (oc ∷ ocs) added h =
        let k = octant_key prefix depth oc in
        let o = lookup (octree_sharding H) tree k in
        let (one, few) = add_child-IsAppended k size o added h in
        let (all, some_more) =
          append_loop-IsAppended prefix depth size ocs (add_child k size o added) one in
        (all, omega (arith, few, some_more))

    pub append_children-IsAppended :
        (p : FrontierItem R) (size : ℕ)
        → p.depth < bh_max_depth
        → IsAppended (p.depth + 1) size (append_children H tree p size)
          × (length (append_children H tree p size).nodes ≤ 8)
    unfolding append_children
    append_children-IsAppended p size above =
        let no_wrap : (p.depth + 1) % 2 ^ 8 ≡ p.depth + 1 = omega (arith, above) in
        let (all, few) =
          append_loop-IsAppended p.prefix p.depth size (octants_of p.node.child_mask)
            (record { nodes = []; items = [] }) (tt, tt) in
        (
          subst
              (λ d. IsAppended d size (
                append_loop H tree p.prefix p.depth size (octants_of p.node.child_mask)
                  (record { nodes = []; items = [] })))
              no_wrap all,
          omega (arith, few, length-octants_of p.node.child_mask),
        )
