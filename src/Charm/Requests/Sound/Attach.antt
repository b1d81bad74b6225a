-- ===== src/Charm/Requests/Sound/Attach.antt =====
-- A sound tree stays sound when the answer to a request is attached to it.
use amt_bh_benchmark.Base.{
  ℕ, ◌+◌, ◌≤◌, ◌≡◌, refl, sym, ap, subst, ◌∙◌, true, false, ◌==◌, Bool-cases, inl, inr, Option,
  none, some, List, ◌∷◌, arith,
}
use amt_bh_benchmark.Base.Int.{ℤ, pos, negsuc}
use amt_bh_benchmark.Charm.Ownership.{NodeType}
use amt_bh_benchmark.Charm.KeyBits.{get_depth_from_key}
use amt_bh_benchmark.Charm.Tree.{
  Particle, NodeCore, Node, Nodes, node, none_left, child, num_children,
}
use amt_bh_benchmark.Charm.Requests.{nodes, particles, Request}
use amt_bh_benchmark.Charm.Requests.Fetched.{
  attach, attach_all, with_particles_at, set_particles, set_particles_all,
}
use amt_bh_benchmark.Charm.Requests.Sound.{
  answered, HasParticles, CanAskParticles, LeafIsSound, IsSound, AllSound,
}

-- Nothing but this request may be answered in the meantime.
abbrev pub SameButNode : ℕ → List Request → List Request → Type 0
SameButNode key qs qs' =
    ((k : ℕ) → answered particles k qs' ≡ answered particles k qs)
    × ((k : ℕ) → (k == key) ≡ false → answered nodes k qs' ≡ answered nodes k qs)

abbrev pub SameButParticles : ℕ → List Request → List Request → Type 0
SameButParticles key qs qs' =
    ((k : ℕ) → answered nodes k qs' ≡ answered nodes k qs)
    × ((k : ℕ) → (k == key) ≡ false → answered particles k qs' ≡ answered particles k qs)

one_depth : (a b : ℕ) (z : ℤ) → z ≡ pos a → z ≡ pos b → a ≡ b
one_depth a b z h k = ap depth_of (sym h ∙ k)
  where
    depth_of : ℤ → ℕ
    depth_of (pos m) = m
    depth_of (negsuc m) = m

num_children-attach_all :
    {R : Type 0} (key : ℕ) (new ns : Nodes R)
    → num_children (attach_all key new ns) ≡ num_children ns
unfolding attach_all num_children
num_children-attach_all key new none_left = refl
num_children-attach_all key new (child n ns) = ap (λ j. j + 1) (num_children-attach_all key new ns)

num_children-set_particles_all :
    {R : Type 0} (key : ℕ) (ps : List (Particle R)) (ns : Nodes R)
    → num_children (set_particles_all key ps ns) ≡ num_children ns
unfolding set_particles_all num_children
num_children-set_particles_all key ps none_left = refl
num_children-set_particles_all key ps (child n ns) =
    ap (λ j. j + 1) (num_children-set_particles_all key ps ns)

module _ {R : Type 0} (log_branch branch_factor my_pe : ℕ) (tp_counts : List ℕ)
    (qs qs' : List Request) (key : ℕ) where
  ask_still :
      (c : NodeCore R)
      → answered particles c.key qs' ≡ answered particles c.key qs
      → (ps : Option (List (Particle R))) → CanAskParticles qs c ps
      → CanAskParticles qs' c ps
  unfolding CanAskParticles
  ask_still c e none h = (h.0, e ∙ h.1)
  ask_still c e (some ps) h = tt

  -- A leaf whose own requests are as answered as before.
  leaf_still :
      (ty : NodeType) (c : NodeCore R)
      → answered nodes c.key qs' ≡ answered nodes c.key qs
      → answered particles c.key qs' ≡ answered particles c.key qs
      → LeafIsSound log_branch branch_factor my_pe tp_counts qs ty c
      → LeafIsSound log_branch branch_factor my_pe tp_counts qs' ty c
  unfolding LeafIsSound
  leaf_still NodeType.remote_bucket c e f h = ask_still c f c.particles h
  leaf_still NodeType.remote c e f h = (e ∙ h.0, h.1, h.2)
  leaf_still NodeType.internal c e f h = h
  leaf_still NodeType.boundary c e f h = h
  leaf_still NodeType.bucket c e f h = h
  leaf_still NodeType.invalid c e f h = h
  leaf_still NodeType.empty_bucket c e f h = h
  leaf_still NodeType.remote_empty_bucket c e f h = h

  module _ (same : SameButNode key qs qs') where
    module _ (depth : ℕ) (at_depth : get_depth_from_key log_branch key ≡ pos depth) (m : Node R)
        (ms : Nodes R) (few : num_children (child m ms) ≤ branch_factor)
        (new : AllSound log_branch branch_factor my_pe tp_counts qs' (depth + 1) (child m ms)) where
      attached :
          (d : ℕ) (c : NodeCore R)
          → get_depth_from_key log_branch c.key ≡ pos d
          → d ≤ 64
          → (c.key == key) ≡ true
          → IsSound log_branch branch_factor my_pe tp_counts qs' d (node c (child m ms))
      unfolding IsSound
      attached d c at low here =
          let same_key : c.key ≡ key = ground (arith, here) in
          let same_depth : depth ≡ d =
            one_depth depth d (get_depth_from_key log_branch key) at_depth (rw (← same_key) at) in
          (at, low, few, rw (← same_depth) new)

      mutual
        unfolding IsSound attach

        pub attach-IsSound :
            (d : ℕ) (n : Node R)
            → IsSound log_branch branch_factor my_pe tp_counts qs d n
            → IsSound log_branch branch_factor my_pe tp_counts qs' d (attach key (child m ms) n)
        attach-IsSound d (node c none_left) s = elim (Bool-cases (c.key == key)) [
          | inl here ↦ rw here (attached d c s.0 s.1 here)
          | inr other ↦
              rw other (s.0, s.1, leaf_still c.node_type c (same.1 c.key other) (same.0 c.key) s.2)
        ]
        attach-IsSound d (node c (child l ls)) s = elim (Bool-cases (c.key == key)) [
          | inl here ↦ rw here (attached d c s.0 s.1 here)
          | inr other ↦ rw other (
            s.0,
            s.1,
            subst (λ j. j ≤ branch_factor)
                (sym (num_children-attach_all key (child m ms) (child l ls))) s.2,
            (attach-IsSound (d + 1) l s.3.0, attach_all-AllSound (d + 1) ls s.3.1),
          )
        ]

        attach_all-AllSound :
            (d : ℕ) (ns : Nodes R)
            → AllSound log_branch branch_factor my_pe tp_counts qs d ns
            → AllSound log_branch branch_factor my_pe tp_counts qs' d
                (attach_all key (child m ms) ns)
        attach_all-AllSound d none_left s = tt
        attach_all-AllSound d (child l ls) s =
            (attach-IsSound d l s.0, attach_all-AllSound d ls s.1)

  module _ (same : SameButParticles key qs qs') (p : Particle R) (ps : List (Particle R)) where
    leaf_with_particles :
        (ty : NodeType) (c : NodeCore R)
        → (c.key == key) ≡ true
        → LeafIsSound log_branch branch_factor my_pe tp_counts qs ty c
        → LeafIsSound log_branch branch_factor my_pe tp_counts qs' ty
            (record c { particles = some (p ∷ ps) })
    unfolding LeafIsSound CanAskParticles HasParticles
    leaf_with_particles NodeType.remote_bucket c here h = tt
    leaf_with_particles NodeType.remote c here h = (same.0 c.key ∙ h.0, h.1, h.2)
    leaf_with_particles NodeType.internal c here h = h
    leaf_with_particles NodeType.boundary c here h = h
    leaf_with_particles NodeType.bucket c here h = tt
    leaf_with_particles NodeType.invalid c here h = h
    leaf_with_particles NodeType.empty_bucket c here h = h
    leaf_with_particles NodeType.remote_empty_bucket c here h = h

    still_few :
        (ns : Nodes R)
        → num_children ns ≤ branch_factor
        → num_children (set_particles_all key (p ∷ ps) ns) ≤ branch_factor
    still_few ns h =
        subst (λ j. j ≤ branch_factor) (sym (num_children-set_particles_all key (p ∷ ps) ns)) h

    mutual
      unfolding IsSound set_particles with_particles_at

      pub set_particles-IsSound :
          (d : ℕ) (n : Node R)
          → IsSound log_branch branch_factor my_pe tp_counts qs d n
          → IsSound log_branch branch_factor my_pe tp_counts qs' d (set_particles key (p ∷ ps) n)
      set_particles-IsSound d (node c none_left) s = elim (Bool-cases (c.key == key)) [
        | inl here ↦ rw here (s.0, s.1, leaf_with_particles c.node_type c here s.2)
        | inr other ↦
            rw other (s.0, s.1, leaf_still c.node_type c (same.0 c.key) (same.1 c.key other) s.2)
      ]
      set_particles-IsSound d (node c (child l ls)) s = elim (Bool-cases (c.key == key)) [
        | inl here ↦ rw here (
          s.0,
          s.1,
          still_few (child l ls) s.2,
          (set_particles-IsSound (d + 1) l s.3.0, set_particles_all-AllSound (d + 1) ls s.3.1),
        )
        | inr other ↦ rw other (
          s.0,
          s.1,
          still_few (child l ls) s.2,
          (set_particles-IsSound (d + 1) l s.3.0, set_particles_all-AllSound (d + 1) ls s.3.1),
        )
      ]

      set_particles_all-AllSound :
          (d : ℕ) (ns : Nodes R)
          → AllSound log_branch branch_factor my_pe tp_counts qs d ns
          → AllSound log_branch branch_factor my_pe tp_counts qs' d
              (set_particles_all key (p ∷ ps) ns)
      set_particles_all-AllSound d none_left s = tt
      set_particles_all-AllSound d (child l ls) s =
          (set_particles-IsSound d l s.0, set_particles_all-AllSound d ls s.1)
