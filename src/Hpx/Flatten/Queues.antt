-- ===== src/Hpx/Flatten/Queues.antt =====
-- What the loop of expandBfs keeps: its array is a flat tree, and its queue entries stand in it.
use amt_bh_benchmark.Base.{
  ℕ, zero, suc, ◌+◌, ◌%◌, ◌^◌, ◌≤◌, ◌<◌, ltb, ◌==◌, if◌then◌else◌, Bool-cases, inl, inr, List, [],
  ◌∷◌, ◌++◌, map, length, get_or, change_at, All, ◌≡◌, refl, sym, ap, ◌∙◌, arith,
}
use amt_bh_benchmark.Base.Real.{Real}
use amt_bh_benchmark.Hpx.Octree.{bh_max_depth}
use amt_bh_benchmark.Hpx.Scene.{FlatNode, no_node}
use amt_bh_benchmark.Hpx.Traversal.Acceptance.{IsFlat}
use amt_bh_benchmark.Hpx.Flatten.{FrontierItem, rebase}
use amt_bh_benchmark.Hpx.Flatten.Step.{depth_at, get_or_outside}
use amt_bh_benchmark.Hpx.Flatten.Children.{IsFresh, IsQueued}

module _ {R : Type 0} ⦃real : Real R⦄ where
  pub IsFresh-at :
      (d : ℕ) (nodes : List (FlatNode R)) (j : ℕ)
      → All (IsFresh d) nodes
      → j < length nodes
      → IsFresh d (get_or nodes j no_node)
  IsFresh-at d [] j all h = absurd (omega (arith, h))
  IsFresh-at d (x ∷ nodes) zero all h = all.0
  IsFresh-at d (x ∷ nodes) (suc j) all h = IsFresh-at d nodes j all.1 (omega (arith, h))

  pub fresh-IsFlat :
      (d : ℕ) (nodes : List (FlatNode R)) → d ≤ bh_max_depth → All (IsFresh d) nodes → IsFlat nodes
  unfolding IsFlat
  fresh-IsFlat d nodes h all n = elim (Bool-cases (ltb n (length nodes))) [
    | inl yes_lt ↦
        let (level, childless) = IsFresh-at d nodes n all (ground (arith, yes_lt)) in
        (
          omega (arith, level, h),
          omega (arith, childless),
          λ c lt. absurd (omega (arith, lt, childless)),
        )
    | inr no_lt ↦
        let outside = get_or_outside no_node nodes n (ground (arith, no_lt)) in
        let level = ap (λ (x : FlatNode R). x.depth) outside in
        let childless = ap (λ (x : FlatNode R). x.child_count) outside in
        (
          omega (arith, level),
          omega (arith, childless),
          λ c lt. absurd (omega (arith, lt, childless)),
        )
  ]

  pub rebase_fresh : (b : ℕ) (x : FlatNode R) → x.child_count ≡ 0 → rebase b x ≡ x
  rebase_fresh b x h =
      ap
        (λ n. record x {
          children_offset = if n == 0 then x.children_offset else (x.children_offset + b) % 2 ^ 32;
        })
        h

  pub map-rebase :
      (b d : ℕ) (nodes : List (FlatNode R)) → All (IsFresh d) nodes → map (rebase b) nodes ≡ nodes
  map-rebase b d [] all = refl
  map-rebase b d (x ∷ nodes) all =
      ap (λ y. y ∷ map (rebase b) nodes) (rebase_fresh b x all.0.1)
      ∙ ap (λ ys. x ∷ ys) (map-rebase b d nodes all.1)

  pub change_at-append :
      (out nodes : List (FlatNode R)) (i : ℕ) (f : FlatNode R → FlatNode R)
      → i < length out
      → change_at (out ++ nodes) i f ≡ change_at out i f ++ nodes
  change_at-append [] nodes i f h = absurd (omega (arith, h))
  change_at-append (x ∷ out) nodes zero f h = refl
  change_at-append (x ∷ out) nodes (suc i) f h =
      ap (λ ys. x ∷ ys) (change_at-append out nodes i f (omega (arith, h)))

  -- The array is longer, and the old nodes keep their levels.
  abbrev pub Grows : List (FlatNode R) → List (FlatNode R) → Type 0
  Grows out more =
      (length out ≤ length more) × ((k : ℕ) → k < length out → depth_at more k ≡ depth_at out k)

  pub Grows-trans :
      (out more most : List (FlatNode R)) → Grows out more → Grows more most → Grows out most
  Grows-trans out more most h k =
      (omega (arith, h.0, k.0), λ n lt. k.1 n (omega (arith, lt, h.0)) ∙ h.1 n lt)

  -- The entries of a queue stand for nodes of the array above the deepest level.
  abbrev pub Stands : List (FlatNode R) → FrontierItem R → Type 0
  Stands out p = (p.slot < length out) × (depth_at out p.slot ≡ p.depth) × (p.depth < bh_max_depth)

  -- What the loop keeps, as long as offsets of 32 bits reach the array.
  abbrev pub IsFrontier : List (FlatNode R) → List (FrontierItem R) → Type 0
  IsFrontier out queue = length out ≤ 2 ^ 32 → IsFlat out × All (Stands out) queue

  pub Stands-Grows :
      (out more : List (FlatNode R)) (queue : List (FrontierItem R))
      → Grows out more
      → All (Stands out) queue
      → All (Stands more) queue
  Stands-Grows out more [] grows all = tt
  Stands-Grows out more (p ∷ queue) grows all =
      let (inside, level, above) = all.0 in
      (
        (omega (arith, inside, grows.0), grows.1 p.slot inside ∙ level, above),
        Stands-Grows out more queue grows all.1,
      )

  pub Queued-Stands :
      (more nodes : List (FlatNode R)) (size d : ℕ) (items : List (FrontierItem R))
      → size + length nodes ≤ 2 ^ 32
      → size + length nodes ≤ length more
      → ((j : ℕ) → j < length nodes → depth_at more (size + j) ≡ d)
      → All (IsQueued d size (length nodes)) items
      → All (Stands more) items
  Queued-Stands more nodes size d [] room long levels all = tt
  Queued-Stands more nodes size d (p ∷ items) room long levels all =
      let (level, above, j, at, lt) = all.0 in
      let slot : p.slot ≡ size + j = omega (arith, at, lt, room) in
      (
        (
          omega (arith, slot, lt, long),
          ap (depth_at more) slot ∙ levels j lt ∙ sym level,
          omega (arith, level, above),
        ),
        Queued-Stands more nodes size d items room long levels all.1,
      )
