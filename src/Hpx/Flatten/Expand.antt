-- ===== src/Hpx/Flatten/Expand.antt =====
-- The loop of expandBfs keeps its array a flat tree, and its queue entries at their slots.
use amt_bh_benchmark.Base.{
  ℕ, zero, suc, ◌+◌, ◌^◌, ◌≤◌, ◌<◌, ltb, if◌then◌else◌, Bool-cases, inl, inr, List, [], ◌∷◌, ◌++◌,
  length, length-append, length-change_at, change_at, All-append, ◌≡◌, refl, sym, ap, subst, ◌∙◌,
  arith,
}
use amt_bh_benchmark.Base.Eq.{HashMap}
use amt_bh_benchmark.Base.Real.{Real}
use amt_bh_benchmark.Hpx.Octree.{OctreeKey, OctreeNode}
use amt_bh_benchmark.Hpx.OctreeMap.{octree_key_eq, OctreeMap}
use amt_bh_benchmark.Hpx.Scene.{FlatNode, no_node}
use amt_bh_benchmark.Hpx.Walk.{finished}
use amt_bh_benchmark.Hpx.Walk.Results.{finished_inj, out_of_fuel_absurd}
use amt_bh_benchmark.Hpx.Traversal.Acceptance.{IsFlat}
use amt_bh_benchmark.Hpx.Flatten.{
  FrontierItem, Frontier, with_children, append_children, expand_item, expand_bfs,
}
use amt_bh_benchmark.Hpx.Flatten.Step.{
  depth_at, attached, attached-IsFlat, depth_at-change_at, node_at-new, get_or-append_left,
}
use amt_bh_benchmark.Hpx.Flatten.Children.{append_children-IsAppended}
use amt_bh_benchmark.Hpx.Flatten.Queues.{
  IsFresh-at, fresh-IsFlat, map-rebase, change_at-append, Grows, Grows-trans, Stands, IsFrontier,
  Stands-Grows, Queued-Stands,
}

module _ {R : Type 0} ⦃real : Real R⦄ where
  module _ (H : HashMap OctreeKey (OctreeNode R) octree_key_eq) (tree : OctreeMap H) where
    abbrev children_of : FrontierItem R → List (FlatNode R) → List (FlatNode R)
    children_of p out = (append_children H tree p (length out)).nodes

    length-expand_item :
        (p : FrontierItem R) (out : List (FlatNode R))
        → length (expand_item H tree p out) ≡ length out + length (children_of p out)
    unfolding expand_item
    length-expand_item p out =
        length-change_at (out ++ children_of p out) p.slot
          (with_children (length out) (length (children_of p out)))
        ∙ length-append out (children_of p out)

    expand_item-Grows :
        (p : FrontierItem R) (out : List (FlatNode R)) → Grows out (expand_item H tree p out)
    unfolding expand_item
    expand_item-Grows p out = (
      omega (arith, length-expand_item p out),
      λ k lt.
          depth_at-change_at (out ++ children_of p out) p.slot (length out)
            (length (children_of p out)) k
          ∙ ap (λ (x : FlatNode R). x.depth)
              (get_or-append_left no_node out (children_of p out) k lt),
    )

    expand_item-attached :
        (p : FrontierItem R) (out : List (FlatNode R))
        → Stands out p
        → expand_item H tree p out
          ≡ attached out (children_of p out) p.slot (length (children_of p out)) p.depth
    unfolding expand_item
    expand_item-attached p out (inside, level, above) =
        let (all, few) = append_children-IsAppended H tree p (length out) above in
        let f = with_children {R = R} (length out) (length (children_of p out)) in
        change_at-append out (children_of p out) p.slot f inside
        ∙ ap (λ ys. change_at out p.slot f ++ ys)
            (sym (map-rebase (length out) (p.depth + 1) (children_of p out) all.0))

    expand_item-IsFrontier :
        (p : FrontierItem R) (queue : List (FrontierItem R)) (out : List (FlatNode R))
        → IsFrontier out (p ∷ queue)
        → IsFrontier
            (expand_item H tree p out)
            (queue ++ (append_children H tree p (length out)).items)
    expand_item-IsFrontier p queue out inv room =
        let total : length out + length (children_of p out) ≤ 2 ^ 32 =
          omega (arith, room, length-expand_item p out) in
        let (flat, stands) = inv (omega (arith, total)) in
        let (inside, level, above) = stands.0 in
        let (all, few) = append_children-IsAppended H tree p (length out) above in
        let same = expand_item-attached p out stands.0 in
        let levels = λ (j : ℕ) (lt : j < length (children_of p out)).
          (IsFresh-at (p.depth + 1) (children_of p out) j all.0 lt).0 in
        (
          subst IsFlat (sym same) (
              attached-IsFlat out (children_of p out) p.slot (length (children_of p out)) p.depth
                flat (fresh-IsFlat (p.depth + 1) (children_of p out) (omega (arith, above)) all.0)
                total level above few levels),
          All-append (Stands (expand_item H tree p out)) queue
              (append_children H tree p (length out)).items
              (Stands-Grows out (expand_item H tree p out) queue (expand_item-Grows p out) stands.1)
              (Queued-Stands (expand_item H tree p out) (children_of p out) (length out)
                (p.depth + 1) (append_children H tree p (length out)).items total
                (omega (arith, length-expand_item p out))
                (λ j lt.
                  ap (λ (xs : List (FlatNode R)). depth_at xs (length out + j)) same
                  ∙ ap (λ (x : FlatNode R). x.depth)
                      (node_at-new out (children_of p out) p.slot (length (children_of p out))
                        p.depth j)
                  ∙ levels j lt)
                all.1),
        )

    -- The array of a finished loop grows the one it starts from, and the loop keeps IsFrontier.
    pub expand_bfs-IsFrontier :
        (stop_at : ℕ) (out : List (FlatNode R)) (queue : List (FrontierItem R)) (fuel : ℕ)
        (f : Frontier R)
        → expand_bfs H tree stop_at out queue fuel ≡ finished f
        → Grows out f.out × (IsFrontier out queue → IsFrontier f.out f.queue)
    unfolding expand_bfs
    expand_bfs-IsFrontier stop_at out [] fuel f h =
        subst (λ (g : Frontier R). Grows out g.out × (IsFrontier out [] → IsFrontier g.out g.queue))
          (finished_inj (record { out = out; queue = [] }) f h)
          ((omega arith, λ k lt. refl), λ inv. inv)
    expand_bfs-IsFrontier stop_at out (p ∷ queue) zero f h = absurd (out_of_fuel_absurd f h)
    expand_bfs-IsFrontier stop_at out (p ∷ queue) (suc fuel) f h =
        elim (Bool-cases (ltb (length queue + 1) stop_at)) [
          | inr stop ↦
              let last : finished (record { out = out; queue = p ∷ queue }) ≡ finished f =
                subst
                  (λ b.
                    (if b
                      then expand_bfs H tree stop_at (expand_item H tree p out)
                          (queue ++ (append_children H tree p (length out)).items) fuel
                      else finished (record { out = out; queue = p ∷ queue }))
                    ≡ finished f)
                  stop h in
              subst
                (λ (g : Frontier R).
                  Grows out g.out × (IsFrontier out (p ∷ queue) → IsFrontier g.out g.queue))
                (finished_inj (record { out = out; queue = p ∷ queue }) f last)
                ((omega arith, λ k lt. refl), λ inv. inv)
          | inl more ↦
              let next : expand_bfs H tree stop_at (expand_item H tree p out)
                    (queue ++ (append_children H tree p (length out)).items) fuel
                  ≡ finished f =
                subst
                  (λ b.
                    (if b
                      then expand_bfs H tree stop_at (expand_item H tree p out)
                          (queue ++ (append_children H tree p (length out)).items) fuel
                      else finished (record { out = out; queue = p ∷ queue }))
                    ≡ finished f)
                  more h in
              let (grows, keeps) =
                expand_bfs-IsFrontier stop_at (expand_item H tree p out)
                  (queue ++ (append_children H tree p (length out)).items) fuel f next in
              (
                Grows-trans out (expand_item H tree p out) f.out (expand_item-Grows p out) grows,
                λ inv. keeps (expand_item-IsFrontier p queue out inv),
              )
        ]
