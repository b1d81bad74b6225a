-- ===== src/Charm/Reply/Received.antt =====
-- The reply as the PE that asked reads it: `deserialize` of charm/Node.h on the entries of the message,
-- and the tree that getChildren and getNumChildren then show. A pointer into the message is an index
-- in it. `none` is CkAbort, a pointer out of the message, or a tree of more levels than the fuel.
pub mod Served
use amt_bh_benchmark.Base.{
  ℕ, zero, suc, ◌+◌, ◌-◌, ltb, if◌then◌else◌, Option, none, some, List, [], ◌∷◌, get_elem?,
}
use amt_bh_benchmark.Charm.Tree.{NodeCore, Node, Nodes, node, none_left, child}
use amt_bh_benchmark.Charm.Ownership.{NodeType}
use amt_bh_benchmark.Charm.GravityWalk.{and_go_on}
use amt_bh_benchmark.Charm.Reply.{Entry}
use amt_bh_benchmark.Charm.Requests.Fetched.{make_remote, received_core}

-- A node of the message once its offsets are pointers; the parent of one of the first BRANCH_FACTOR
-- nodes is the node that was asked for, which has no index.
pub record Loaded (R : Type 0) : Type 0 where
  pub core : NodeCore R
  pub children : ℕ
  pub num_children : ℕ
  pub parent : Option ℕ

unfoldable pub parent_index : ℕ → ℕ → Option ℕ → Option ℕ
parent_index branch_factor i none = none
parent_index branch_factor i (some distance) =
    if ltb i branch_factor then none else some (i - distance)

module _ {R : Type 0} where
  -- What the loop does to the i-th node, with the type that makeRemote gives.
  unfoldable pub loaded : ℕ → ℕ → Entry R → NodeType → Loaded R
  loaded branch_factor i e t = record {
    core = received_core e.core t;
    children = i + e.child_offset;
    num_children = e.num_children;
    parent = parent_index branch_factor i e.parent_distance;
  }

  -- The loop of deserialize, from the i-th node on.
  unfoldable pub load : ℕ → ℕ → List (Entry R) → Option (List (Loaded R))
  load branch_factor i [] = some []
  load branch_factor i (e ∷ es) = and_go_on (make_remote e.core.node_type) (λ t.
      and_go_on (load branch_factor (i + 1) es) (λ rest. some (loaded branch_factor i e t ∷ rest)))

  -- So many nodes side by side, from an index on.
  unfoldable pub read_run : (ℕ → Option (Node R)) → ℕ → ℕ → Option (Nodes R)
  read_run read zero i = some none_left
  read_run read (suc n) i =
      and_go_on (read i)
        (λ first. and_go_on (read_run read n (i + 1)) (λ rest. some (Nodes.child first rest)))

  unfoldable pub read_node : ℕ → List (Loaded R) → ℕ → Option (Node R)
  read_node zero message i = none
  read_node (suc levels) message i = and_go_on (get_elem? message i) (λ l.
      and_go_on (read_run (read_node levels message) l.num_children l.children)
        (λ cs. some (Node.node l.core cs)))

  -- deserialize, and the children that the node then has: setChildren(start, BRANCH_FACTOR).
  unfoldable pub received : ℕ → ℕ → List (Entry R) → Option (Nodes R)
  received branch_factor levels message =
      and_go_on (load branch_factor 0 message)
        (λ nodes. read_run (read_node levels nodes) branch_factor 0)
