-- ===== src/Charm/GravityWalk/Returns.antt =====
-- A walk whose leaves can be handled returns, and what each action keeps the walk keeps.
use amt_bh_benchmark.Base.{
  ℕ, ◌≡◌, refl, true, not, Option, some, List, [], ◌∷◌, select, arith, Bool-cases, inl, inr,
}
use amt_bh_benchmark.Base.Real.{Real}
use amt_bh_benchmark.Charm.Tree.{
  Vector, Particle, NodeCore, Node, Nodes, node, none_left, child, core, size, IsWithin,
}
use amt_bh_benchmark.Charm.GravityWalk.{
  Actions, TraversalWorker, visit, add_for, applies, add_particles, apply_particles, gravity_walk,
  gravity_leaf, opens, and_go_on,
}
use amt_bh_benchmark.Charm.GravityWalk.Descent.{
  visit_masks, descend, descend_all, descend_opened, gravity_descent, gravity_walk-gravity_descent,
}

module _ {R : Type 0} (Leaf : NodeCore R → Type 0) where
  -- What is asked of the nodes without children.
  unfoldable mutual
    pub Leaves : Node R → Type 0
    Leaves (node c none_left) = Leaf c
    Leaves (node c (child n ns)) = Leaves n × AllLeaves ns

    pub AllLeaves : Nodes R → Type 0
    AllLeaves none_left = Unit
    AllLeaves (child n ns) = Leaves n × AllLeaves ns

module _ {R S : Type 0} (act : Actions R S) (P : S → Type 0)
    (adds : (b : ℕ) (mass : R) (x : Vector R) (s : S) → P s → P (act.add_source b mass x s)) where
  pub add_for-keeps :
      (mass : R) (x : Vector R) (mask : List ℕ) (s : S) → P s → P (add_for act mass x mask s)
  unfolding add_for
  add_for-keeps mass x [] s h = h
  add_for-keeps mass x (b ∷ bs) s h =
      add_for-keeps mass x bs (act.add_source b mass x s) (adds b mass x s h)

  add_particles-keeps :
      (b : ℕ) (ps : List (Particle R)) (s : S) → P s → P (add_particles act b ps s)
  unfolding add_particles
  add_particles-keeps b [] s h = h
  add_particles-keeps b (p ∷ ps) s h =
      add_particles-keeps b ps (act.add_source b p.mass p.position s) (adds b p.mass p.position s h)

  pub apply_particles-keeps :
      (ps : List (Particle R)) (mask : List ℕ) (s : S) → P s → P (apply_particles act ps mask s)
  unfolding apply_particles
  apply_particles-keeps ps [] s h = h
  apply_particles-keeps ps (b ∷ bs) s h =
      apply_particles-keeps ps bs (add_particles act b ps s) (add_particles-keeps b ps s h)

-- The walk returns a state with the property.
abbrev pub ReturnsWith : {S : Type 0} → (S → Type 0) → Option S → Type 0
ReturnsWith {S} P o = (s : S) × (o ≡ some s) × P s

pub and_go_on-ReturnsWith :
    {S T : Type 0} {P : S → Type 0} {Q : T → Type 0} (o : Option S) (f : S → Option T)
    → ReturnsWith P o
    → ((s : S) → P s → ReturnsWith Q (f s))
    → ReturnsWith Q (and_go_on o f)
unfolding and_go_on
and_go_on-ReturnsWith o f (s, e, p) h = let (t, e', q) = h s p in (t, (rw e e'), q)

module _ {R S : Type 0} (real : Real R) (act : Actions R S) (tolsq : R) (w : TraversalWorker R)
    (P : S → Type 0) (Leaf : NodeCore R → Type 0)
    (adds : (b : ℕ) (mass : R) (x : Vector R) (s : S) → P s → P (act.add_source b mass x s))
    (leaf : (c : NodeCore R) (mask : List ℕ) (s : S)
      → w.keep c.node_type ≡ true
      → Leaf c
      → P s
      → ReturnsWith P (gravity_leaf act c mask s)) where
  -- A mask that is not empty is that of a node the walk handles.
  abbrev Kept : NodeCore R → List ℕ → Type 0
  Kept c [] = Unit
  Kept c (b ∷ bs) = w.keep c.node_type ≡ true

  Kept-of_keep : (c : NodeCore R) (m : List ℕ) → w.keep c.node_type ≡ true → Kept c m
  Kept-of_keep c [] h = tt
  Kept-of_keep c (b ∷ bs) h = h

  visit-keeps :
      (c : NodeCore R) (mask : List ℕ) (s : S)
      → P s
      → Kept c (visit real act tolsq w c mask s).0 × P (visit real act tolsq w c mask s).1
  unfolding visit
  visit-keeps c mask s h = elim (Bool-cases (w.keep c.node_type)) [
    | inr dropped ↦ rw dropped (tt, h)
    | inl kept ↦ elim (Bool-cases (applies w.applies_unopened_boundary c.node_type)) [
      | inl added ↦
          rw (kept, added)
            (
              Kept-of_keep c _ kept,
              add_for-keeps act P adds c.moments.total_mass c.moments.cm
                  (select (λ b. not (opens real tolsq w.centres c.moments b)) mask) s h,
            )
      | inr skipped ↦ rw (kept, skipped) (Kept-of_keep c _ kept, h)
    ]
  ]

  AllKept : Nodes R → List (List ℕ) → Type 0
  AllKept none_left ms = Unit
  AllKept (child n ns) [] = Unit
  AllKept (child n ns) (m ∷ ms) = Kept (core n) m × AllKept ns ms

  visit_masks-keeps :
      (ns : Nodes R) (mask : List ℕ) (s : S)
      → P s
      → AllKept ns (visit_masks real act tolsq w ns mask s).0
        × P (visit_masks real act tolsq w ns mask s).1
  unfolding visit_masks AllKept
  visit_masks-keeps none_left mask s h = (tt, h)
  visit_masks-keeps (child n ns) mask s h =
      let (kept, h') = visit-keeps (core n) mask s h in
      let (others, h'') = visit_masks-keeps ns mask (visit real act tolsq w (core n) mask s).1 h' in
      ((kept, others), h'')

  mutual
    unfolding descend AllKept Leaves core

    pub descend-Returns :
        (n : Node R) (mask : List ℕ) (s : S)
        → w.keep (core n).node_type ≡ true
        → Leaves Leaf n
        → P s
        → ReturnsWith P (descend real act tolsq w n mask s)
    descend-Returns (node c none_left) mask s keep h p = leaf c mask s keep h p
    descend-Returns (node c (child n ns)) mask s keep h p =
        let (kept, p') = visit_masks-keeps (child n ns) mask s p in
        descend_all-Returns (child n ns) (visit_masks real act tolsq w (child n ns) mask s).0
          (visit_masks real act tolsq w (child n ns) mask s).1 kept h p'

    descend_all-Returns :
        (ns : Nodes R) (ms : List (List ℕ)) (s : S)
        → AllKept ns ms
        → AllLeaves Leaf ns
        → P s
        → ReturnsWith P (descend_all real act tolsq w ns ms s)
    descend_all-Returns none_left ms s kept h p = (s, refl, p)
    descend_all-Returns (child n ns) [] s kept h p = (s, refl, p)
    descend_all-Returns (child n ns) ([] ∷ ms) s kept h p = descend_all-Returns ns ms s kept.1 h.1 p
    descend_all-Returns (child n ns) ((b ∷ bs) ∷ ms) s kept h p =
        and_go_on-ReturnsWith {P = P} {Q = P} (descend real act tolsq w n (b ∷ bs) s)
          (λ s'. descend_all real act tolsq w ns ms s') (descend-Returns n (b ∷ bs) s kept.0 h.0 p)
          (λ s' p'. descend_all-Returns ns ms s' kept.1 h.1 p')

  descend_opened-Returns :
      (root : Node R) (opening : List ℕ × S)
      → Kept (core root) opening.0
      → Leaves Leaf root
      → P opening.1
      → ReturnsWith P (descend_opened real act tolsq w root opening)
  unfolding descend_opened
  descend_opened-Returns root ([], s) kept h p = (s, refl, p)
  descend_opened-Returns root (b ∷ bs, s) kept h p = descend-Returns root (b ∷ bs) s kept h p

  pub gravity_walk-Returns :
      (branch_factor : ℕ) (root : Node R) (mask : List ℕ) (s : S)
      → IsWithin branch_factor 64 root
      → Leaves Leaf root
      → P s
      → ReturnsWith P (gravity_walk real act tolsq w branch_factor (size root) root mask s)
  unfolding gravity_descent
  gravity_walk-Returns branch_factor root mask s within h p =
      rw
        (gravity_walk-gravity_descent real act tolsq w branch_factor (size root) root mask s within
          (omega arith))
        (let (kept, p') = visit-keeps (core root) mask s p in
          descend_opened-Returns root (visit real act tolsq w (core root) mask s) kept h p')
