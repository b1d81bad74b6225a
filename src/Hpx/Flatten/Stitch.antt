-- ===== src/Hpx/Flatten/Stitch.antt =====
-- The subtrees that flattenTree expands on their own, stitched to the backbone, make a flat tree.
use amt_bh_benchmark.Base.{
  ℕ, ◌+◌, ◌-◌, ◌^◌, ◌≤◌, ◌<◌, ltb, if◌then◌else◌, Bool-cases, inl, inr, Option, none, some, List,
  [], ◌∷◌, length, All, ◌≡◌, refl, sym, ap, subst, ◌∙◌, arith,
}
use amt_bh_benchmark.Base.Eq.{HashMap}
use amt_bh_benchmark.Base.Real.{Real}
use amt_bh_benchmark.Hpx.Octree.{OctreeKey, OctreeNode, bh_max_depth}
use amt_bh_benchmark.Hpx.OctreeMap.{octree_key_eq, OctreeMap}
use amt_bh_benchmark.Hpx.Scene.{FlatNode}
use amt_bh_benchmark.Hpx.Walk.{finished, overflow}
use amt_bh_benchmark.Hpx.Walk.Results.{
  finished_inj, overflow_absurd, map_outcome-finished, and_then-finished, with_result-finished,
}
use amt_bh_benchmark.Hpx.Traversal.{walk_fuel}
use amt_bh_benchmark.Hpx.Traversal.Acceptance.{IsFlat}
use amt_bh_benchmark.Hpx.Flatten.{
  FrontierItem, Frontier, Subtree, append_children, expand_bfs, expand_subtree, expand_subtrees,
  close, no_stop, target, place, stitch, checked, root_queue, make_flat, flat_expandable,
  expand_rest, flatten_rest, flatten_found,
}
use amt_bh_benchmark.Hpx.Flatten.Step.{depth_at, attached-IsFlat, depth_at-old, length-attached}
use amt_bh_benchmark.Hpx.Flatten.Children.{append_children-IsAppended}
use amt_bh_benchmark.Hpx.Flatten.Queues.{
  Grows, Stands, IsFrontier, Stands-Grows, Queued-Stands, IsFresh-at, fresh-IsFlat,
}
use amt_bh_benchmark.Hpx.Flatten.Expand.{expand_bfs-IsFrontier}

module _ {R : Type 0} ⦃real : Real R⦄ where
  -- The buffer of a subtree is a flat tree that the children of its root open.
  abbrev pub IsSubtree : FrontierItem R → Subtree R → Type 0
  IsSubtree r s =
      (s.root ≡ r)
      × (s.root_children ≤ 8)
      × (length s.buf ≤ 2 ^ 32 → IsFlat s.buf)
      × ((c : ℕ) → c < s.root_children → depth_at s.buf c ≡ r.depth + 1)

  abbrev pub AreSubtrees : List (FrontierItem R) → List (Subtree R) → Type 0
  AreSubtrees [] [] = Unit
  AreSubtrees (r ∷ rs) (s ∷ ss) = IsSubtree r s × AreSubtrees rs ss
  AreSubtrees [] (s ∷ ss) = ⊥
  AreSubtrees (r ∷ rs) [] = ⊥

  place-Grows :
      (s : Subtree R) (out : List (FlatNode R))
      → Grows out (place s out) × (length (place s out) ≡ length out + length s.buf)
  unfolding place
  place-Grows s out =
      let long = length-attached out s.buf s.root.slot s.root_children 0 in
      (
        (omega (arith, long), λ k lt. depth_at-old out s.buf s.root.slot s.root_children 0 k lt),
        long,
      )

  place-IsFrontier :
      (r : FrontierItem R) (rs : List (FrontierItem R)) (s : Subtree R) (out : List (FlatNode R))
      → IsSubtree r s
      → IsFrontier out (r ∷ rs)
      → IsFrontier (place s out) rs
  unfolding place
  place-IsFrontier r rs s out (same_root, few, flat_buf, levels) inv room =
      let (grows, long) = place-Grows s out in
      let total : length out + length s.buf ≤ 2 ^ 32 = omega (arith, room, long) in
      let (flat, stands) = inv (omega (arith, total)) in
      let (inside, level, above) = stands.0 in
      let at_slot : depth_at out s.root.slot ≡ r.depth =
        ap (λ (p : FrontierItem R). depth_at out p.slot) same_root ∙ level in
      (
        attached-IsFlat out s.buf s.root.slot s.root_children r.depth flat
            (flat_buf (omega (arith, total))) total at_slot above few levels,
        Stands-Grows out (place s out) rs grows stands.1,
      )

  stitch-IsFlat :
      (rs : List (FrontierItem R)) (ss : List (Subtree R)) (out : List (FlatNode R))
      → AreSubtrees rs ss
      → IsFrontier out rs
      → length (stitch ss out) ≤ 2 ^ 32
      → IsFlat (stitch ss out)
  unfolding stitch
  stitch-IsFlat [] [] out all inv room = (inv room).0
  stitch-IsFlat [] (s ∷ ss) out all inv room = absurd all
  stitch-IsFlat (r ∷ rs) [] out all inv room = absurd all
  stitch-IsFlat (r ∷ rs) (s ∷ ss) out all inv room =
      stitch-IsFlat rs ss (place s out) all.1 (place-IsFrontier r rs s out all.0 inv) room

  length-stitch :
      (ss : List (Subtree R)) (out : List (FlatNode R)) → length out ≤ length (stitch ss out)
  unfolding stitch
  length-stitch [] out = omega arith
  length-stitch (s ∷ ss) out = omega (arith, length-stitch ss (place s out), (place-Grows s out).1)

  checked-finished :
      (out flat : List (FlatNode R))
      → checked out ≡ finished flat
      → (out ≡ flat) × (length flat ≤ 2 ^ 32)
  unfolding checked
  checked-finished out flat h = elim (Bool-cases (ltb (2 ^ 32 - 1) (length out))) [
    | inl long ↦ absurd (
        overflow_absurd flat
          (subst (λ b. (if b then overflow else finished out) ≡ finished flat) long h))
    | inr short ↦
        let same : out ≡ flat =
          finished_inj out flat
            (subst (λ b. (if b then overflow else finished out) ≡ finished flat) short h) in
        (same, subst (λ (xs : List (FlatNode R)). length xs ≤ 2 ^ 32) same (ground (arith, short)))
  ]

  module _ (H : HashMap OctreeKey (OctreeNode R) octree_key_eq) (tree : OctreeMap H) where
    expand_subtree-IsSubtree :
        (r : FrontierItem R) (s : Subtree R)
        → r.depth < bh_max_depth
        → expand_subtree H tree r ≡ finished s
        → IsSubtree r s
    unfolding expand_subtree
    expand_subtree-IsSubtree r s above h =
        let added = append_children H tree r 0 in
        let (f, expanded, closed) =
          map_outcome-finished (λ f. close r (length added.nodes) f)
            (expand_bfs H tree no_stop added.nodes added.items walk_fuel) s h in
        let (grows, keeps) =
          expand_bfs-IsFrontier H tree no_stop added.nodes added.items walk_fuel f expanded in
        let (all, few) = append_children-IsAppended H tree r 0 above in
        let levels = λ (j : ℕ) (lt : j < length added.nodes).
          (IsFresh-at (r.depth + 1) added.nodes j all.0 lt).0 in
        let start : IsFrontier added.nodes added.items = λ room. (
          fresh-IsFlat (r.depth + 1) added.nodes (omega (arith, above)) all.0,
          Queued-Stands added.nodes added.nodes 0 (r.depth + 1) added.items (omega (arith, room))
              (omega arith)
              (λ j lt. ap (depth_at added.nodes) {x = 0 + j} {y = j} (omega arith) ∙ levels j lt)
              all.1,
        ) in
        subst (IsSubtree r) closed
          (refl, few, λ room. (keeps start room).0, λ c lt. grows.1 c lt ∙ levels c lt)

    expand_subtrees-AreSubtrees :
        (out : List (FlatNode R)) (rs : List (FrontierItem R)) (ss : List (Subtree R))
        → All (Stands out) rs
        → expand_subtrees H tree rs ≡ finished ss
        → AreSubtrees rs ss
    unfolding expand_subtrees
    expand_subtrees-AreSubtrees out [] ss stands h =
        subst (AreSubtrees []) (finished_inj [] ss h) tt
    expand_subtrees-AreSubtrees out (r ∷ rs) ss stands h =
        let (s, rest, one, others, same) =
          with_result-finished (expand_subtree H tree r) (expand_subtrees H tree rs) ss h in
        subst (AreSubtrees (r ∷ rs)) same (
          expand_subtree-IsSubtree r s stands.0.2 one,
          expand_subtrees-AreSubtrees out rs rest stands.1 others,
        )

    expand_rest-IsFlat :
        (f : Frontier R) (flat : List (FlatNode R))
        → IsFrontier f.out f.queue
        → expand_rest H tree f ≡ finished flat
        → IsFlat flat
    unfolding expand_rest
    expand_rest-IsFlat f flat inv h =
        let (ss, expanded, stitched) =
          and_then-finished (expand_subtrees H tree f.queue) (λ ss. checked (stitch ss f.out)) flat
            h in
        let (same, room) = checked-finished (stitch ss f.out) flat stitched in
        let fits : length (stitch ss f.out) ≤ 2 ^ 32 =
          subst (λ (xs : List (FlatNode R)). length xs ≤ 2 ^ 32) (sym same) room in
        let (backbone, stands) = inv (omega (arith, fits, length-stitch ss f.out)) in
        subst IsFlat same (
          stitch-IsFlat f.queue ss f.out
            (expand_subtrees-AreSubtrees f.out f.queue ss stands expanded) inv fits)

    flatten_rest-IsFlat :
        (out : List (FlatNode R)) (queue : List (FrontierItem R)) (flat : List (FlatNode R))
        → IsFrontier out queue
        → flatten_rest H tree out queue ≡ finished flat
        → length flat ≤ 2 ^ 32
        → IsFlat flat
    unfolding flatten_rest
    flatten_rest-IsFlat out [] flat inv h room =
        let same : out ≡ flat = finished_inj out flat h in
        subst IsFlat same
          (inv (subst (λ (xs : List (FlatNode R)). length xs ≤ 2 ^ 32) (sym same) room)).0
    flatten_rest-IsFlat out (r ∷ queue) flat inv h room =
        expand_rest-IsFlat (record { out = out; queue = r ∷ queue }) flat inv h

    root-IsFrontier : (root : OctreeNode R) → IsFrontier (make_flat 0 0 root ∷ []) (root_queue root)
    unfolding root_queue
    root-IsFrontier root room = (
      fresh-IsFlat 0 (make_flat 0 0 root ∷ []) (omega arith) ((refl, refl), tt),
      elim (Bool-cases (flat_expandable root 0)) [
        | inl queued ↦ rw queued ((omega arith, refl, omega arith), tt)
        | inr no_queue ↦ rw no_queue tt
      ],
    )

    pub flatten_found-IsFlat :
        (threads : ℕ) (o : Option (OctreeNode R)) (flat : List (FlatNode R))
        → flatten_found H tree threads o ≡ finished flat
        → length flat ≤ 2 ^ 32
        → IsFlat flat
    unfolding flatten_found
    flatten_found-IsFlat threads none flat h room =
        subst IsFlat (finished_inj [] flat h) (fresh-IsFlat 0 [] (omega arith) tt)
    flatten_found-IsFlat threads (some root) flat h room =
        let (f, expanded, rest) =
          and_then-finished
            (expand_bfs H tree (target threads) (make_flat 0 0 root ∷ []) (root_queue root)
              walk_fuel)
            (λ f. flatten_rest H tree f.out f.queue) flat h in
        let (grows, keeps) =
          expand_bfs-IsFrontier H tree (target threads) (make_flat 0 0 root ∷ []) (root_queue root)
            walk_fuel f expanded in
        flatten_rest-IsFlat f.out f.queue flat (keeps (root-IsFrontier root)) rest room
