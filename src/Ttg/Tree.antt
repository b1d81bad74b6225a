-- ===== src/Ttg/Tree.antt =====
-- The build of the tree: `octant_index`, the constructor of `Tree` and `Tree::build_recursive` of
-- ttg-parsec/src/tree.cc, `Node` of ttg-parsec/src/tree.h and `box_geometry` of
-- ttg-parsec/src/domain.h. Of a particle only the position is read. Indices do not wrap for fewer than
-- 2^32 particles. A call is given its ranges of particles_ and of scratch_ as lists, so an index in them counts
-- from `begin`, and returns its range of particles_; nodes_ is the list of the nodes in the order in
-- which they are put there. The recursion is on the levels that are left above the depth limit.
pub mod CountingSort
pub mod Leaves
mod Examples
use amt_bh_benchmark.Base.{
  ℕ, zero, suc, ◌+◌, ◌%◌, ◌^◌, Bool, true, false, not, leb, ◌==◌, if◌then◌else◌, List, [], ◌∷◌,
  ◌++◌, length, get_or, take, drop, change_at, copies, map,
}
use amt_bh_benchmark.Base.Int.{ℤ, pos, negsuc}
use amt_bh_benchmark.Base.Real.{Real}
use amt_bh_benchmark.Ttg.Key.{Key, child_at, max_level}

pub record Vec3 (R : Type 0) : Type 0 where
  pub x : R
  pub y : R
  pub z : R

pub record Domain (R : Type 0) : Type 0 where
  pub center : Vec3 R
  pub half_width : R

-- A node of the tree; the range is that of a leaf.
pub record TreeNode : Type 0 where
  pub key : Key
  pub leaf : Bool
  pub particle_begin : ℕ
  pub particle_count : ℕ
  pub has_child : List Bool

module _ {R : Type 0} (real : Real R) where
  abbrev of_translation : ℤ → R
  of_translation (pos m) = real.of_nat m
  of_translation (negsuc m) = real.sub real.nought (real.of_nat (m + 1))

  -- The center; the half-width is not used by the build.
  unfoldable pub box_center : Domain R → Key → Vec3 R
  box_center domain key =
      let cell_width =
        real.div (real.mul (real.of_nat 2) domain.half_width) (real.of_nat (2 ^ key.n)) in
      let side : R → ℤ → R = λ c t.
        real.add (real.sub c domain.half_width)
          (real.mul cell_width (real.add (of_translation t) real.half)) in
      record {
        x = side domain.center.x key.l.x;
        y = side domain.center.y key.l.y;
        z = side domain.center.z key.l.z;
      }

  -- The three bits are disjoint, so `|=` adds.
  unfoldable pub octant_index : Vec3 R → Vec3 R → ℕ
  octant_index at center =
      (if real.le center.x at.x then 1 else 0)
      + (if real.le center.y at.y then 2 else 0)
      + (if real.le center.z at.z then 4 else 0)

module _ {P : Type 0} (octant : P → ℕ) where
  -- ++counts[...]
  unfoldable pub count_octants : List P → List ℕ → List ℕ
  count_octants [] counts = counts
  count_octants (p ∷ ps) counts = count_octants ps (change_at counts (octant p) suc)

  -- scratch_[cursor[oct]++] = particles_[i]
  unfoldable pub scatter : List P → List ℕ → List P → List P
  scatter [] cursor scratch = scratch
  scatter (p ∷ ps) cursor scratch =
      scatter ps (change_at cursor (octant p) suc)
        (change_at scratch (get_or cursor (octant p) 0) (λ old. p))

-- range_begin, from the running sum.
unfoldable pub range_begins : ℕ → List ℕ → List ℕ
range_begins running [] = []
range_begins running (c ∷ cs) = running ∷ range_begins (running + c) cs

module _ {P : Type 0} where
  -- Into scratch_ and back; particles_ is then what scratch_ is.
  unfoldable pub partition : (P → ℕ) → List P → List P → List P
  partition octant ps scratch =
      scatter octant ps (range_begins 0 (count_octants octant ps (copies 8 0))) scratch

-- What a call leaves: its range of particles_, and the nodes it puts into nodes_.
pub record Built (P : Type 0) : Type 0 where
  pub particles : List P
  pub nodes : List TreeNode

abbrev leaf_node : Key → ℕ → ℕ → TreeNode
leaf_node key begin count = record {
  key = key;
  leaf = true;
  particle_begin = begin;
  particle_count = count;
  has_child = copies 8 false;
}

abbrev interior_node : Key → List ℕ → TreeNode
interior_node key counts = record {
  key = key;
  leaf = false;
  particle_begin = 0;
  particle_count = 0;
  has_child = map (λ c. not (c == 0)) counts;
}

module _ {P R : Type 0} (real : Real R) (position : P → Vec3 R) (domain : Domain R) where
  unfoldable pub octant_of : Key → P → ℕ
  octant_of key p = octant_index real (position p) (box_center real domain key)

module _ {P R : Type 0} (real : Real R) (position : P → Vec3 R) (domain : Domain R)
    (max_particles_per_leaf : ℕ) where
  -- The loop over the octants, on what is left of the counts and of the two ranges.
  unfoldable pub build_children :
      (ℕ → Key → List P → List P → Built P) → Key → List ℕ → ℕ → ℕ → List P → List P → Built P
  build_children build key [] oct begin ps scratch = record { particles = []; nodes = [] }
  build_children build key (c ∷ cs) oct begin ps scratch =
      let first = build begin (child_at key oct) (take c ps) (take c scratch) in
      let rest = build_children build key cs (oct + 1) (begin + c) (drop c ps) (drop c scratch) in
      if c == 0 then rest else record {
        particles = first.particles ++ rest.particles;
        nodes = first.nodes ++ rest.nodes;
      }

  -- With levels = kMaxDepth - depth.
  unfoldable pub build_recursive : ℕ → ℕ → Key → List P → List P → Built P
  build_recursive zero begin key ps scratch = record {
    particles = ps;
    nodes = leaf_node key begin (length ps) ∷ [];
  }
  build_recursive (suc levels) begin key ps scratch =
      let counts = count_octants (octant_of real position domain key) ps (copies 8 0) in
      let sorted = partition (octant_of real position domain key) ps scratch in
      let below = build_children (build_recursive levels) key counts 0 begin sorted sorted in
      if leb (length ps) max_particles_per_leaf
      then record { particles = ps; nodes = leaf_node key begin (length ps) ∷ [] }
      else record {
        particles = below.particles;
        nodes = below.nodes ++ interior_node key counts ∷ [];
      }

module _ {R : Type 0} (real : Real R) where
  -- std::min and std::max, which keep the first of two that are equal.
  abbrev smaller : R → R → R
  smaller a b = if real.lt b a then b else a

  abbrev larger : R → R → R
  larger a b = if real.lt a b then b else a

  unfoldable pub lower_corner : {P : Type 0} → (P → Vec3 R) → List P → Vec3 R → Vec3 R
  lower_corner position [] lo = lo
  lower_corner position (p ∷ ps) lo =
      let at = position p in
      lower_corner position ps
        (record { x = smaller lo.x at.x; y = smaller lo.y at.y; z = smaller lo.z at.z })

  unfoldable pub upper_corner : {P : Type 0} → (P → Vec3 R) → List P → Vec3 R → Vec3 R
  upper_corner position [] hi = hi
  upper_corner position (p ∷ ps) hi =
      let at = position p in
      upper_corner position ps
        (record { x = larger hi.x at.x; y = larger hi.y at.y; z = larger hi.z at.z })

  -- The half-width is widened by the factor 1.0 + 1e-9, given as `widen`.
  unfoldable pub domain_of : R → Vec3 R → Vec3 R → Domain R
  domain_of widen lo hi =
      let side = larger (larger (real.sub hi.x lo.x) (real.sub hi.y lo.y)) (real.sub hi.z lo.z) in
      let half_width = real.mul real.half side in
      let half_width = if not (real.lt real.nought half_width) then real.one else half_width in
      record {
        center = record {
          x = real.mul real.half (real.add lo.x hi.x);
          y = real.mul real.half (real.add lo.y hi.y);
          z = real.mul real.half (real.add lo.z hi.z);
        };
        half_width = real.mul half_width widen;
      }

abbrev root_key : Key
root_key = record { n = 0; l = record { x = pos 0; y = pos 0; z = pos 0 } }

-- The constructor of Tree, with numeric_limits::max() and lowest(), and any particles in scratch_. The
-- end of the range is the number of particles as a uint32_t.
unfoldable pub make_tree :
    {P R : Type 0} → Real R → R → R → R → (P → Vec3 R) → List P → List P → ℕ → Built P
make_tree real highest lowest widen position particles scratch max_particles_per_leaf =
    let lo =
      lower_corner real position particles (record { x = highest; y = highest; z = highest }) in
    let hi = upper_corner real position particles (record { x = lowest; y = lowest; z = lowest }) in
    let end = length particles % 2 ^ 32 in
    let built =
      build_recursive real position (domain_of real widen lo hi) max_particles_per_leaf max_level 0
        root_key (take end particles) (take end scratch) in
    record built { particles = built.particles ++ drop end particles }
