-- ===== src/Charm/Requests/Fetched.antt =====
-- What was fetched is put into the tree: `makeRemote`, `deserialize`, setChildren and setParticles of
-- charm/Node.h. A node is found by its key, which the tree has once, and a received subtree is given
-- as a tree, which is what the offsets in the message stand for.
use amt_bh_benchmark.Base.{ℕ, ◌==◌, if◌then◌else◌, Option, none, some, List}
use amt_bh_benchmark.Charm.Ownership.{NodeType}
use amt_bh_benchmark.Charm.Tree.{Particle, NodeCore, Node, Nodes, node, none_left, child}
use amt_bh_benchmark.Charm.GravityWalk.{and_go_on}

-- Node::makeRemote, which aborts on Invalid.
unfoldable pub make_remote : NodeType → Option NodeType
make_remote NodeType.boundary = some NodeType.remote
make_remote NodeType.internal = some NodeType.remote
make_remote NodeType.bucket = some NodeType.remote_bucket
make_remote NodeType.empty_bucket = some NodeType.remote_empty_bucket
make_remote NodeType.invalid = none
make_remote t = some t

module _ {R : Type 0} where
  -- A received node has no particles. The flag `cached`, by which freeCachedData tells the requests
  -- below a received node from the others, is left out.
  unfoldable pub received_core : NodeCore R → NodeType → NodeCore R
  received_core c t = record c { node_type = t; particles = none }

  unfoldable mutual
    pub deserialize : Node R → Option (Node R)
    deserialize (node c cs) =
        and_go_on (make_remote c.node_type)
          (λ t. and_go_on (deserialize_all cs) (λ new. some (Node.node (received_core c t) new)))

    pub deserialize_all : Nodes R → Option (Nodes R)
    deserialize_all none_left = some none_left
    deserialize_all (child n ns) =
        and_go_on (deserialize n)
          (λ first. and_go_on (deserialize_all ns) (λ rest. some (Nodes.child first rest)))

  -- setChildren on the node of the request.
  unfoldable mutual
    pub attach : ℕ → Nodes R → Node R → Node R
    attach key new (node c cs) = if c.key == key then node c new else node c (attach_all key new cs)

    pub attach_all : ℕ → Nodes R → Nodes R → Nodes R
    attach_all key new none_left = none_left
    attach_all key new (child n ns) = child (attach key new n) (attach_all key new ns)

  -- setParticles on it.
  unfoldable pub with_particles_at : ℕ → List (Particle R) → NodeCore R → NodeCore R
  with_particles_at key ps c = if c.key == key then record c { particles = some ps } else c

  unfoldable mutual
    pub set_particles : ℕ → List (Particle R) → Node R → Node R
    set_particles key ps (node c cs) =
        node (with_particles_at key ps c) (set_particles_all key ps cs)

    pub set_particles_all : ℕ → List (Particle R) → Nodes R → Nodes R
    set_particles_all key ps none_left = none_left
    set_particles_all key ps (child n ns) =
        child (set_particles key ps n) (set_particles_all key ps ns)
