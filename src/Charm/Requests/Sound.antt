-- ===== src/Charm/Requests/Sound.antt =====
-- The tree of a PE during the walks, and that a walk over it returns.
pub mod Same
pub mod Attach
use amt_bh_benchmark.Base.{
  ℕ, zero, suc, ◌+◌, ◌≤◌, ◌<◌, ◌≡◌, ◌≢◌, refl, sym, ap, ◌∙◌, Bool, true, false, not, ◌||◌, ◌==◌,
  if◌then◌else◌, Option, none, some, List, [], ◌∷◌, ◌++◌, All, get_or, arith, Bool-cases, ◌⊎◌, inl,
  inr,
}
use amt_bh_benchmark.Base.Int.{ℤ, pos, negsuc}
use amt_bh_benchmark.Base.Real.{Real}
use amt_bh_benchmark.Charm.Ownership.{NodeType}
use amt_bh_benchmark.Charm.Owners.{serving_owner}
use amt_bh_benchmark.Charm.KeyBits.{get_depth_from_key}
use amt_bh_benchmark.Charm.Tree.{
  Vector, Particle, NodeCore, Node, Nodes, node, none_left, child, core, num_children, IsWithin,
  AllWithin,
}
use amt_bh_benchmark.Charm.GravityWalk.{
  local_keep, remote_keep, apply_particles, local_traversal_worker, remote_traversal_worker,
  apply_bucket, apply_fetched, leaf_of_type, gravity_leaf, and_go_on,
}
use amt_bh_benchmark.Charm.GravityWalk.Returns.{
  Leaves, AllLeaves, ReturnsWith, apply_particles-keeps, gravity_walk-Returns,
}
use amt_bh_benchmark.Charm.Requests.{
  What, nodes, particles, Requestor, Request, Pe, find_request, is_local, file_request, fits_parent,
  is_remote_bucket, incr_pending, request_particles, request_from, request_node, actions, worker_of,
}
use amt_bh_benchmark.Charm.Requests.Handlers.{walk_from}
use amt_bh_benchmark.Charm.Requests.Walked.{Walked, Walked-add_source, Walked-file}

abbrev pub answered : What → ℕ → List Request → Bool
answered what key qs = (find_request what key qs).answered

module _ {R : Type 0} where
  -- A Bucket has particles.
  unfoldable pub HasParticles : Option (List (Particle R)) → Type 0
  HasParticles none = ⊥
  HasParticles (some []) = ⊥
  HasParticles (some (p ∷ ps)) = Unit

  -- What is fetched has one owner, and was not answered before.
  unfoldable pub CanAskParticles : List Request → NodeCore R → Option (List (Particle R)) → Type 0
  CanAskParticles qs c none = (c.owner_start ≡ c.owner_end) × (answered particles c.key qs ≡ false)
  CanAskParticles qs c (some ps) = Unit

module _ {R : Type 0} (log_branch branch_factor my_pe : ℕ) (tp_counts : List ℕ) where
  unfoldable pub LeafIsSound : List Request → NodeType → NodeCore R → Type 0
  LeafIsSound qs NodeType.internal c = ⊥
  LeafIsSound qs NodeType.boundary c = ⊥
  LeafIsSound qs NodeType.bucket c = HasParticles c.particles
  LeafIsSound qs NodeType.remote_bucket c = CanAskParticles qs c c.particles
  LeafIsSound qs NodeType.remote c =
      (answered nodes c.key qs ≡ false)
      × (owner : ℕ) × (serving_owner my_pe c.owner_start c.owner_end tp_counts c.key ≡ pos owner)
  LeafIsSound qs _ c = Unit

  -- Each node has its depth from its key, at most 64, and each leaf can be handled.
  unfoldable mutual
    pub IsSound : List Request → ℕ → Node R → Type 0
    IsSound qs d (node c none_left) =
        (get_depth_from_key log_branch c.key ≡ pos d) × (d ≤ 64) × LeafIsSound qs c.node_type c
    IsSound qs d (node c (child n ns)) =
        (get_depth_from_key log_branch c.key ≡ pos d)
        × (d ≤ 64)
        × (num_children (child n ns) ≤ branch_factor)
        × AllSound qs (d + 1) (child n ns)

    pub AllSound : List Request → ℕ → Nodes R → Type 0
    AllSound qs d none_left = Unit
    AllSound qs d (child n ns) = IsSound qs d n × AllSound qs d ns

  IsSound-depth : (qs : List Request) (d : ℕ) (n : Node R) → IsSound qs d n → d ≤ 64
  unfolding IsSound
  IsSound-depth qs d (node c none_left) h = h.1
  IsSound-depth qs d (node c (child n ns)) h = h.1

  mutual
    unfolding IsSound IsWithin num_children

    pub IsSound-IsWithin :
        (qs : List Request) (d h : ℕ) (n : Node R)
        → IsSound qs d n
        → 64 ≤ h + d
        → IsWithin branch_factor h n
    IsSound-IsWithin qs d zero (node c none_left) s room = tt
    IsSound-IsWithin qs d (suc h) (node c none_left) s room = (omega arith, tt)
    IsSound-IsWithin qs d zero (node c (child n ns)) s room =
        absurd (omega (arith, IsSound-depth qs (d + 1) n s.3.0))
    IsSound-IsWithin qs d (suc h) (node c (child n ns)) s room =
        (s.2, AllSound-AllWithin qs (d + 1) h (child n ns) s.3 (omega arith))

    AllSound-AllWithin :
        (qs : List Request) (d h : ℕ) (ns : Nodes R)
        → AllSound qs d ns
        → 64 ≤ h + d
        → AllWithin branch_factor h ns
    AllSound-AllWithin qs d h none_left s room = tt
    AllSound-AllWithin qs d h (child n ns) s room =
        (IsSound-IsWithin qs d h n s.0 room, AllSound-AllWithin qs d h ns s.1 room)

  mutual
    unfolding IsSound Leaves

    IsSound-Leaves :
        (qs : List Request) (d : ℕ) (n : Node R)
        → IsSound qs d n
        → Leaves (λ c. LeafIsSound qs c.node_type c) n
    IsSound-Leaves qs d (node c none_left) s = s.2
    IsSound-Leaves qs d (node c (child n ns)) s =
        (IsSound-Leaves qs (d + 1) n s.3.0, AllSound-AllLeaves qs (d + 1) ns s.3.1)

    AllSound-AllLeaves :
        (qs : List Request) (d : ℕ) (ns : Nodes R)
        → AllSound qs d ns
        → AllLeaves (λ c. LeafIsSound qs c.node_type c) ns
    AllSound-AllLeaves qs d none_left s = tt
    AllSound-AllLeaves qs d (child n ns) s =
        (IsSound-Leaves qs d n s.0, AllSound-AllLeaves qs d ns s.1)

  module _ (t g : ℕ) (base : Pe R) where
    -- The local walk keeps none of the remote types.
    remote_of_kept :
        (centres : List (Vector R)) (ty : NodeType)
        → local_keep ty ≡ false
        → (worker_of t centres).keep ty ≡ true
        → is_local t ≡ false
    unfolding worker_of local_traversal_worker
    remote_of_kept centres ty dropped kept = elim (Bool-cases (is_local t)) [
      | inr odd ↦ odd
      | inl even ↦
          let clash : local_keep ty ≡ true = rw even at kept in
          absurd (ground (arith, clash, dropped))
    ]

    add_source-Walked :
        (b : ℕ) (mass : R) (x : Vector R) (s : Pe R)
        → Walked t base s
        → Walked t base ((actions my_pe tp_counts t g).add_source b mass x s)
    unfolding actions
    add_source-Walked b mass x s w =
        Walked-add_source t base
          (record { state = t; group = g; bucket = b; mass = mass; position = x }) s w

    pub apply_particles-Walked :
        (ps : List (Particle R)) (mask : List ℕ) (s : Pe R)
        → Walked t base s
        → Walked t base (apply_particles (actions my_pe tp_counts t g) ps mask s)
    apply_particles-Walked ps mask s w =
        apply_particles-keeps (actions my_pe tp_counts t g) (Walked t base) add_source-Walked ps
          mask s w

    apply_bucket-Returns :
        (ps : Option (List (Particle R))) (mask : List ℕ) (s : Pe R)
        → HasParticles ps
        → Walked t base s
        → ReturnsWith (Walked t base) (apply_bucket (actions my_pe tp_counts t g) ps mask s)
    unfolding apply_bucket HasParticles
    apply_bucket-Returns none mask s h w = absurd h
    apply_bucket-Returns (some []) mask s h w = absurd h
    apply_bucket-Returns (some (p ∷ ps)) mask s h w = (
      apply_particles (actions my_pe tp_counts t g) (p ∷ ps) mask s,
      refl,
      apply_particles-Walked (p ∷ ps) mask s w,
    )

    file-Walked :
        (what : What) (key owner : ℕ) (ty : NodeType) (mask : List ℕ) (s : Pe R)
        → is_local t ≡ false
        → fits_parent what (some ty) ≡ true
        → answered what key base.requests ≡ false
        → Walked t base s
        → Walked t base (
            file_request what key owner ty
              (record { state = t; group = g; mask = mask })
              (incr_pending t s))
    file-Walked what key owner ty mask s odd fits fresh w =
        Walked-file t base what key owner ty (record { state = t; group = g; mask = mask }) s w refl
          odd fits fresh

    apply_fetched-Returns :
        (c : NodeCore R) (ps : Option (List (Particle R))) (mask : List ℕ) (s : Pe R)
        → is_local t ≡ false
        → c.node_type ≡ NodeType.remote_bucket
        → CanAskParticles base.requests c ps
        → Walked t base s
        → ReturnsWith (Walked t base) (apply_fetched (actions my_pe tp_counts t g) c ps mask s)
    unfolding apply_fetched CanAskParticles request_particles actions fits_parent is_remote_bucket
    apply_fetched-Returns c none mask s odd ty h w = (
      file_request particles c.key c.owner_start c.node_type
          (record { state = t; group = g; mask = mask }) (incr_pending t s),
      ground (arith, h.0),
      file-Walked particles c.key c.owner_start c.node_type mask s odd (rw ty refl) h.1 w,
    )
    apply_fetched-Returns c (some ps) mask s odd ty h w = (
      apply_particles (actions my_pe tp_counts t g) ps mask s,
      refl,
      apply_particles-Walked ps mask s w,
    )

    fetch_node-Returns :
        (c : NodeCore R) (mask : List ℕ) (s : Pe R)
        → is_local t ≡ false
        → LeafIsSound base.requests NodeType.remote c
        → Walked t base s
        → ReturnsWith (Walked t base) ((actions my_pe tp_counts t g).fetch_node c mask s)
    unfolding LeafIsSound request_node request_from actions fits_parent
    fetch_node-Returns c mask s odd (fresh, owner, serves) w =
        elim (Bool-cases (find_request nodes c.key (incr_pending t s).requests).sent) [
          | inl sent ↦ (
            file_request nodes c.key c.owner_start c.node_type
                (record { state = t; group = g; mask = mask }) (incr_pending t s),
            rw sent refl,
            file-Walked nodes c.key c.owner_start c.node_type mask s odd refl fresh w,
          )
          | inr first ↦ (
            file_request nodes c.key owner c.node_type
                (record { state = t; group = g; mask = mask }) (incr_pending t s),
            rw (first, serves) refl,
            file-Walked nodes c.key owner c.node_type mask s odd refl fresh w,
          )
        ]

    leaf_of_type-Returns :
        (centres : List (Vector R)) (ty : NodeType) (c : NodeCore R) (mask : List ℕ) (s : Pe R)
        → c.node_type ≡ ty
        → (worker_of t centres).keep ty ≡ true
        → LeafIsSound base.requests ty c
        → Walked t base s
        → ReturnsWith (Walked t base) (leaf_of_type (actions my_pe tp_counts t g) ty c mask s)
    unfolding leaf_of_type LeafIsSound local_keep
    leaf_of_type-Returns centres NodeType.internal c mask s same keep h w = absurd h
    leaf_of_type-Returns centres NodeType.boundary c mask s same keep h w = absurd h
    leaf_of_type-Returns centres NodeType.bucket c mask s same keep h w =
        apply_bucket-Returns c.particles mask s h w
    leaf_of_type-Returns centres NodeType.remote_bucket c mask s same keep h w =
        apply_fetched-Returns c c.particles mask s
          (remote_of_kept centres NodeType.remote_bucket refl keep) same h w
    leaf_of_type-Returns centres NodeType.remote c mask s same keep h w =
        fetch_node-Returns c mask s (remote_of_kept centres NodeType.remote refl keep) h w
    leaf_of_type-Returns centres NodeType.invalid c mask s same keep h w = (s, refl, w)
    leaf_of_type-Returns centres NodeType.empty_bucket c mask s same keep h w = (s, refl, w)
    leaf_of_type-Returns centres NodeType.remote_empty_bucket c mask s same keep h w = (s, refl, w)

    -- A walk over a sound tree returns.
    pub walk_from-Returns :
        (real : Real R) (tolsq : R) (yield_period : ℕ) (mask : List ℕ) (d : ℕ) (n : Node R)
        → IsSound base.requests d n
        → (s : Pe R) → Walked t base s
        → ReturnsWith
            (Walked t base)
            (walk_from real tolsq branch_factor yield_period my_pe tp_counts t g mask n s)
    unfolding walk_from gravity_leaf
    walk_from-Returns real tolsq yield_period mask d n sound s w =
        let centres = get_or (s.walk_groups t) g [] in
        gravity_walk-Returns real (actions my_pe tp_counts t g) tolsq (worker_of t centres)
          (Walked t base) (λ c. LeafIsSound base.requests c.node_type c) add_source-Walked
          (λ c m s' keep h w'. leaf_of_type-Returns centres c.node_type c m s' refl keep h w')
          branch_factor n mask s (IsSound-IsWithin base.requests d 64 n sound (omega arith))
          (IsSound-Leaves base.requests d n sound) w
