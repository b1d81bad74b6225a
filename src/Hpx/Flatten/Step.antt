-- ===== src/Hpx/Flatten/Step.antt =====
-- Children that are attached to a node of a flat tree leave it a flat tree.
use amt_bh_benchmark.Base.{
  ℕ, zero, suc, ◌+◌, ◌-◌, ◌%◌, ◌^◌, ◌≤◌, ◌<◌, ltb, ◌==◌, ==_iff, false, Bool-cases, inl, inr, List,
  [], ◌∷◌, ◌++◌, map, length, get_or, change_at, change_at_self, change_at_other, length-change_at,
  length-append, length-map, ◌≡◌, ◌≢◌, refl, sym, ap, subst, ◌∙◌, arith,
}
use amt_bh_benchmark.Base.Real.{Real}
use amt_bh_benchmark.Hpx.Octree.{bh_max_depth}
use amt_bh_benchmark.Hpx.Scene.{FlatNode, no_node}
use amt_bh_benchmark.Hpx.Traversal.Acceptance.{IsFlat}
use amt_bh_benchmark.Hpx.Flatten.{with_children, rebase}

module _ {A : Type 0} (d : A) where
  pub get_or-append_left :
      (xs ys : List A) (i : ℕ) → i < length xs → get_or (xs ++ ys) i d ≡ get_or xs i d
  get_or-append_left [] ys i h = absurd (omega (arith, h))
  get_or-append_left (x ∷ xs) ys zero h = refl
  get_or-append_left (x ∷ xs) ys (suc i) h = get_or-append_left xs ys i (omega (arith, h))

  get_or-append_right :
      (xs ys : List A) (j : ℕ) → get_or (xs ++ ys) (length xs + j) d ≡ get_or ys j d
  get_or-append_right [] ys j = ap (λ n. get_or ys n d) {x = 0 + j} {y = j} (omega arith)
  get_or-append_right (x ∷ xs) ys j =
      ap (λ n. get_or (x ∷ xs ++ ys) n d) {x = suc (length xs) + j} {y = suc (length xs + j)}
        (omega arith)
      ∙ get_or-append_right xs ys j

  get_or-map :
      (f : A → A) → f d ≡ d → (xs : List A) (j : ℕ) → get_or (map f xs) j d ≡ f (get_or xs j d)
  get_or-map f h [] j = sym h
  get_or-map f h (x ∷ xs) zero = refl
  get_or-map f h (x ∷ xs) (suc j) = get_or-map f h xs j

  pub get_or_outside : (xs : List A) (i : ℕ) → length xs ≤ i → get_or xs i d ≡ d
  get_or_outside [] i h = refl
  get_or_outside (x ∷ xs) zero h = absurd (omega (arith, h))
  get_or_outside (x ∷ xs) (suc i) h = get_or_outside xs i (omega (arith, h))

module _ {R : Type 0} ⦃real : Real R⦄ where
  abbrev pub depth_at : List (FlatNode R) → ℕ → ℕ
  depth_at out k = (get_or out k no_node).depth

  -- What IsFlat asks of one node.
  abbrev pub NodeFits : List (FlatNode R) → FlatNode R → Type 0
  NodeFits out x =
      (x.depth ≤ bh_max_depth)
      × (x.child_count ≤ 8)
      × ((c : ℕ) → c < x.child_count → depth_at out (x.children_offset + c) ≡ x.depth + 1)

  -- A node below the root stands in the array.
  pub deep_inside : (out : List (FlatNode R)) (k m : ℕ) → depth_at out k ≡ m + 1 → k < length out
  deep_inside out k m h = elim (Bool-cases (ltb k (length out))) [
    | inl yes_lt ↦ ground (arith, yes_lt)
    | inr no_lt ↦
        let outside = get_or_outside no_node out k (ground (arith, no_lt)) in
        absurd (omega (arith, h, ap (λ (x : FlatNode R). x.depth) outside))
  ]

  pub NodeFits-append :
      (out ys : List (FlatNode R)) (x : FlatNode R) → NodeFits out x → NodeFits (out ++ ys) x
  NodeFits-append out ys x h = (
    h.0,
    h.1,
    λ c lt.
        let k = x.children_offset + c in
        let inside = deep_inside out k x.depth (h.2 c lt) in
        ap (λ (y : FlatNode R). y.depth) (get_or-append_left no_node out ys k inside) ∙ h.2 c lt,
  )

  pub depth_at-change_at :
      (out : List (FlatNode R)) (i off cnt k : ℕ)
      → depth_at (change_at out i (with_children off cnt)) k ≡ depth_at out k
  depth_at-change_at [] i off cnt k = refl
  depth_at-change_at (x ∷ out) zero off cnt zero = refl
  depth_at-change_at (x ∷ out) zero off cnt (suc k) = refl
  depth_at-change_at (x ∷ out) (suc i) off cnt zero = refl
  depth_at-change_at (x ∷ out) (suc i) off cnt (suc k) = depth_at-change_at out i off cnt k

  module _ (out buf : List (FlatNode R)) (slot cnt d : ℕ) where
    -- `out` with the nodes of `buf` at its end, the first ones as the children of the node at `slot`.
    abbrev pub changed : List (FlatNode R)
    changed = change_at out slot (with_children (length out) cnt)

    abbrev pub attached : List (FlatNode R)
    attached = changed ++ map (rebase (length out)) buf

    pub depth_at-old : (k : ℕ) → k < length out → depth_at attached k ≡ depth_at out k
    depth_at-old k h =
        ap (λ (x : FlatNode R). x.depth)
          (get_or-append_left no_node changed (map (rebase (length out)) buf) k
            (rw (length-change_at out slot (with_children (length out) cnt)) h))
        ∙ depth_at-change_at out slot (length out) cnt k

    pub node_at-new :
        (j : ℕ)
        → get_or attached (length out + j) no_node ≡ rebase (length out) (get_or buf j no_node)
    node_at-new j =
        ap (λ n. get_or attached (n + j) no_node)
          (sym (length-change_at out slot (with_children (length out) cnt)))
        ∙ get_or-append_right no_node changed (map (rebase (length out)) buf) j
        ∙ get_or-map no_node (rebase (length out)) refl buf j

    pub length-attached : length attached ≡ length out + length buf
    length-attached = omega (
      arith,
      length-append changed (map (rebase (length out)) buf),
      length-change_at out slot (with_children (length out) cnt),
      length-map buf (rebase {R = R} (length out)),
    )

    module _ (flat : IsFlat out) (flat_buf : IsFlat buf) (room : length out + length buf ≤ 2 ^ 32)
        (at_slot : depth_at out slot ≡ d) (shallow : d < bh_max_depth) (few : cnt ≤ 8)
        (below : (c : ℕ) → c < cnt → depth_at buf c ≡ d + 1) where
      NodeFits-parent : NodeFits attached (with_children (length out) cnt (get_or out slot no_node))
      NodeFits-parent = (
        omega (arith, at_slot, shallow),
        omega (arith, few),
        λ c lt.
            let inside = deep_inside buf c d (below c (omega (arith, lt, few))) in
            let place : length out % 2 ^ 32 + c ≡ length out + c = omega (arith, inside, room) in
            ap (depth_at attached) place
            ∙ ap (λ (x : FlatNode R). x.depth) (node_at-new c)
            ∙ below c (omega (arith, lt, few))
            ∙ ap (λ n. n + 1) (sym at_slot),
      )

      NodeFits-new : (y : FlatNode R) → NodeFits buf y → NodeFits attached (rebase (length out) y)
      NodeFits-new y h = (
        h.0,
        h.1,
        λ c lt.
            let inside = deep_inside buf (y.children_offset + c) y.depth (h.2 c lt) in
            let has_children : (y.child_count == 0) ≡ false = ground (arith, lt) in
            let place : (y.children_offset + length out) % 2 ^ 32 + c
                ≡ length out + (y.children_offset + c) =
              omega (arith, inside, room) in
            rw has_children (
              ap (depth_at attached) place
              ∙ ap (λ (x : FlatNode R). x.depth) (node_at-new (y.children_offset + c))
              ∙ h.2 c lt),
      )

      NodeFits-old : (n : ℕ) → n < length out → NodeFits attached (get_or changed n no_node)
      unfolding IsFlat
      NodeFits-old n inside = elim (Bool-cases (n == slot)) [
        | inl here ↦
            let at : n ≡ slot = (==_iff n slot).0 here in
            subst (NodeFits attached)
              (sym (
                ap (λ k. get_or changed k no_node) at
                ∙ change_at_self out slot (with_children (length out) cnt) no_node
                    (subst (λ k. k < length out) at inside)))
              NodeFits-parent
        | inr elsewhere ↦
            let apart : n ≢ slot = λ e. absurd (ground (arith, elsewhere, e)) in
            let same = change_at_other out slot n (with_children (length out) cnt) no_node apart in
            let old = flat n in
            subst (NodeFits attached) (sym same) (
              NodeFits-append changed (map (rebase (length out)) buf) (get_or out n no_node) (
                old.0,
                old.1,
                λ c lt.
                    depth_at-change_at out slot (length out) cnt
                      ((get_or out n no_node).children_offset + c)
                    ∙ old.2 c lt,
              ))
      ]

      pub attached-IsFlat : IsFlat attached
      unfolding IsFlat
      attached-IsFlat n = elim (Bool-cases (ltb n (length out))) [
        | inl yes_lt ↦
            let inside : n < length out = ground (arith, yes_lt) in
            subst (NodeFits attached)
              (sym (
                get_or-append_left no_node changed (map (rebase (length out)) buf) n
                  (rw (length-change_at out slot (with_children (length out) cnt)) inside)))
              (NodeFits-old n inside)
        | inr no_lt ↦
            let above : length out + (n - length out) ≡ n = ground (arith, no_lt) in
            subst (NodeFits attached)
              (sym (node_at-new (n - length out)) ∙ ap (λ k. get_or attached k no_node) above)
              (NodeFits-new (get_or buf (n - length out) no_node) (flat_buf (n - length out)))
      ]
