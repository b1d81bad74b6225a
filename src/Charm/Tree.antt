-- ===== src/Charm/Tree.antt =====
-- The tree of a PE in charm/: `Node` and `NodeCore` of charm/Node.h with the moments and particles
-- that the walk reads. The children array is a list, NULL particles are `none`.
use amt_bh_benchmark.Base.{ℕ, zero, suc, ◌+◌, ◌≤◌, Option, List}
use amt_bh_benchmark.Charm.Ownership.{NodeType}

pub record Vector (R : Type 0) : Type 0 where
  pub x : R
  pub y : R
  pub z : R

-- A particle as another PE sees it.
pub record Particle (R : Type 0) : Type 0 where
  pub mass : R
  pub position : Vector R

pub record Moments (R : Type 0) : Type 0 where
  pub total_mass : R
  pub cm : Vector R
  pub rsq : R

-- A Remote node that is asked for has owners, so these are not negative.
pub record NodeCore (R : Type 0) : Type 0 where
  pub key : ℕ
  pub node_type : NodeType
  pub depth : ℕ
  pub particles : Option (List (Particle R))
  pub owner_start : ℕ
  pub owner_end : ℕ
  pub moments : Moments R

mutual
  pub data Node (R : Type 0) : Type 0 where
    node : NodeCore R → Nodes R → Node R

  pub data Nodes (R : Type 0) : Type 0 where
    none_left : Nodes R
    child : Node R → Nodes R → Nodes R

module _ {R : Type 0} where
  unfoldable pub core : Node R → NodeCore R
  core (node c cs) = c

  unfoldable pub children : Node R → Nodes R
  children (node c cs) = cs

  unfoldable pub num_children : Nodes R → ℕ
  num_children none_left = 0
  num_children (child n ns) = num_children ns + 1

  -- The nodes of a tree.
  unfoldable mutual
    pub size : Node R → ℕ
    size (node c cs) = suc (size_all cs)

    pub size_all : Nodes R → ℕ
    size_all none_left = 0
    size_all (child n ns) = size n + size_all ns

  -- At most so many levels below the node, and at most `width` children each.
  unfoldable mutual
    pub IsWithin : ℕ → ℕ → Node R → Type 0
    IsWithin width zero (node c none_left) = Unit
    IsWithin width zero (node c (child n ns)) = ⊥
    IsWithin width (suc h) (node c cs) = (num_children cs ≤ width) × AllWithin width h cs

    pub AllWithin : ℕ → ℕ → Nodes R → Type 0
    AllWithin width h none_left = Unit
    AllWithin width h (child n ns) = IsWithin width h n × AllWithin width h ns
