-- ===== src/Charm/GravityWalk.antt =====
-- The gravity walk of charm/: `TraversalWorker` and its two workers (charm/Worker.h, charm/Worker.cpp),
-- `gravityWalk` and `gravityLeaf` of charm/Traversal_defs.h. A mask is the list of its set bits, from
-- the lowest. The walk changes a state S through `Actions`: what the interaction lists and the
-- DataManager do for it, where `none` is CkAbort. The packet, which takes the same sources, and the statistics are left out.
pub mod Descent
pub mod Returns
use amt_bh_benchmark.Base.{
  ℕ, zero, suc, ◌+◌, ◌*◌, Bool, true, false, not, ltb, if◌then◌else◌, Option, none, some, List, [],
  ◌∷◌, ◌++◌, length, get_or, select,
}
use amt_bh_benchmark.Base.Real.{Real}
use amt_bh_benchmark.Charm.Ownership.{NodeType}
use amt_bh_benchmark.Charm.Tree.{
  Vector, Particle, Moments, NodeCore, Node, Nodes, node, none_left, child, core, num_children,
}

-- `addSource`, and `incrPending` with the call to the DataManager.
pub record Actions (R S : Type 0) : Type 0 where
  pub add_source : ℕ → R → Vector R → S → S
  pub fetch_particles : NodeCore R → List ℕ → S → Option S
  pub fetch_node : NodeCore R → List ℕ → S → Option S

-- The tables keepTable, by NodeType.
unfoldable pub local_keep : NodeType → Bool
local_keep NodeType.internal = true
local_keep NodeType.bucket = true
local_keep NodeType.boundary = true
local_keep _ = false

unfoldable pub remote_keep : NodeType → Bool
remote_keep NodeType.boundary = true
remote_keep NodeType.remote = true
remote_keep NodeType.remote_bucket = true
remote_keep _ = false

-- A worker with the centres of the group's buckets, which its context holds.
pub record TraversalWorker (R : Type 0) : Type 0 where
  pub keep : NodeType → Bool
  pub applies_unopened_boundary : Bool
  pub centres : List (Vector R)

unfoldable pub local_traversal_worker : {R : Type 0} → List (Vector R) → TraversalWorker R
local_traversal_worker centres = record {
  keep = local_keep;
  applies_unopened_boundary = true;
  centres = centres;
}

unfoldable pub remote_traversal_worker : {R : Type 0} → List (Vector R) → TraversalWorker R
remote_traversal_worker centres = record {
  keep = remote_keep;
  applies_unopened_boundary = false;
  centres = centres;
}

-- type != Boundary || appliesUnopenedBoundary
unfoldable pub applies : Bool → NodeType → Bool
applies unopened_boundary NodeType.boundary = unopened_boundary
applies unopened_boundary _ = true

unfoldable pub is_empty_mask : List ℕ → Bool
is_empty_mask [] = true
is_empty_mask (b ∷ bs) = false

module _ {R : Type 0} (real : Real R) where
  -- tolsq*drsq < rsq
  unfoldable pub opens : R → List (Vector R) → Moments R → ℕ → Bool
  opens tolsq centres m b =
      let zero_vector : Vector R = record { x = real.nought; y = real.nought; z = real.nought } in
      let g : Vector R = get_or centres b zero_vector in
      let dx = real.sub m.cm.x g.x in
      let dy = real.sub m.cm.y g.y in
      let dz = real.sub m.cm.z g.z in
      let drsq = real.add (real.add (real.mul dx dx) (real.mul dy dy)) (real.mul dz dz) in
      real.lt (real.mul tolsq drsq) m.rsq

module _ {R S : Type 0} (act : Actions R S) where
  -- One source for each bucket of the mask.
  unfoldable pub add_for : R → Vector R → List ℕ → S → S
  add_for mass position [] s = s
  add_for mass position (b ∷ bs) s = add_for mass position bs (act.add_source b mass position s)

  unfoldable pub add_particles : ℕ → List (Particle R) → S → S
  add_particles b [] s = s
  add_particles b (p ∷ ps) s = add_particles b ps (act.add_source b p.mass p.position s)

  unfoldable pub apply_particles : List (Particle R) → List ℕ → S → S
  apply_particles particles [] s = s
  apply_particles particles (b ∷ bs) s = apply_particles particles bs (add_particles b particles s)

  -- A bucket has particles; `none` is a CkAssert that fails.
  unfoldable pub apply_bucket : Option (List (Particle R)) → List ℕ → S → Option S
  apply_bucket none mask s = none
  apply_bucket (some []) mask s = none
  apply_bucket (some (p ∷ ps)) mask s = some (apply_particles (p ∷ ps) mask s)

  unfoldable pub apply_fetched : NodeCore R → Option (List (Particle R)) → List ℕ → S → Option S
  apply_fetched leaf none mask s = act.fetch_particles leaf mask s
  apply_fetched leaf (some particles) mask s = some (apply_particles particles mask s)

  unfoldable pub leaf_of_type : NodeType → NodeCore R → List ℕ → S → Option S
  leaf_of_type NodeType.internal leaf mask s = none
  leaf_of_type NodeType.boundary leaf mask s = none
  leaf_of_type NodeType.bucket leaf mask s = apply_bucket leaf.particles mask s
  leaf_of_type NodeType.remote_bucket leaf mask s = apply_fetched leaf leaf.particles mask s
  leaf_of_type NodeType.remote leaf mask s = act.fetch_node leaf mask s
  leaf_of_type _ leaf mask s = some s

  unfoldable pub gravity_leaf : NodeCore R → List ℕ → S → Option S
  gravity_leaf leaf mask s = leaf_of_type leaf.node_type leaf mask s

unfoldable pub and_go_on : {S T : Type 0} → Option S → (S → Option T) → Option T
and_go_on none rest = none
and_go_on (some s) rest = rest s

unfoldable pub keep_opened : {N : Type 0} → N → List ℕ → List (N × List ℕ) → List (N × List ℕ)
keep_opened n mask rest = if is_empty_mask mask then rest else (n, mask) ∷ rest

module _ {R S : Type 0} (real : Real R) (act : Actions R S) (tolsq : R)
    (w : TraversalWorker R) where
  -- Returns the buckets that open the node.
  unfoldable pub visit : NodeCore R → List ℕ → S → List ℕ × S
  visit c mask s =
      let test = opens real tolsq w.centres c.moments in
      let accepted = select (λ b. not (test b)) mask in
      if not (w.keep c.node_type)
      then ([], s)
      else if applies w.applies_unopened_boundary c.node_type
      then (select test mask, add_for act c.moments.total_mass c.moments.cm accepted s)
      else (select test mask, s)

  -- The loop over the children, with tmpNode and tmpMask in order.
  unfoldable pub visit_children : Nodes R → List ℕ → S → List (Node R × List ℕ) × S
  visit_children none_left mask s = ([], s)
  visit_children (child n ns) mask s =
      let (m, s') = visit (core n) mask s in
      let (kept, s'') = visit_children ns mask s' in (keep_opened n m kept, s'')

  -- CkAssert(top + numChildrenToExpand <= STACK_MAX)
  unfoldable pub push_kept :
      ℕ
      → (List (Node R × List ℕ) → S → Option S)
      → List (Node R × List ℕ)
      → List (Node R × List ℕ) × S
      → Option S
  push_kept stack_max rest_of_walk stack (kept, s) =
      if ltb stack_max (length stack + length kept) then none else rest_of_walk (kept ++ stack) s

  -- while(top > 0). The head of the list is the top of the two stacks.
  unfoldable pub walk_loop : ℕ → ℕ → List (Node R × List ℕ) → S → Option S
  walk_loop stack_max fuel [] s = some s
  walk_loop stack_max zero (top ∷ stack) s = none
  walk_loop stack_max (suc fuel) ((node c none_left, mask) ∷ stack) s =
      and_go_on (gravity_leaf act c mask s) (λ s'. walk_loop stack_max fuel stack s')
  walk_loop stack_max (suc fuel) ((node c (child n ns), mask) ∷ stack) s =
      push_kept stack_max (λ stack' s'. walk_loop stack_max fuel stack' s') stack
        (visit_children (child n ns) mask s)

  unfoldable pub walk_opened : ℕ → ℕ → Node R → List ℕ × S → Option S
  walk_opened stack_max fuel root (opening, s) =
      if is_empty_mask opening then some s else walk_loop stack_max fuel ((root, opening) ∷ []) s

  -- STACK_MAX is 64*BRANCH_FACTOR + 1.
  unfoldable pub gravity_walk : ℕ → ℕ → Node R → List ℕ → S → Option S
  gravity_walk branch_factor fuel root mask s =
      walk_opened (64 * branch_factor + 1) fuel root (visit (core root) mask s)
