-- ===== src/Charm/Reply/Examples.antt =====
-- The reply for a node with a leaf and an inner node below it.
use amt_bh_benchmark.Base.{ℕ, ◌≡◌, refl, none, some, length, get_elem?}
use amt_bh_benchmark.Charm.Ownership.{NodeType}
use amt_bh_benchmark.Charm.Tree.{
  Vector, NodeCore, Node, node, none_left, child, children, num_children, core, size,
}
use amt_bh_benchmark.Charm.GravityWalk.{and_go_on}
use amt_bh_benchmark.Charm.GravityWalk.Returns.{ReturnsWith}
use amt_bh_benchmark.Charm.Requests.Fetched.{deserialize_all, make_remote, received_core}
use amt_bh_benchmark.Charm.Reply.{
  serve_node, has_children, size_work, serialize, top_down_traversal_local, top_down_loop,
  work_children, filled, place_children, copied, set_children, parent_of,
}
use amt_bh_benchmark.Charm.Reply.Size.{below, HasDepth, serve_node-below}
use amt_bh_benchmark.Charm.Reply.Layout.{AllTyped}
use amt_bh_benchmark.Charm.Reply.Received.{load, loaded, received, parent_index}
use amt_bh_benchmark.Charm.Reply.Received.Served.{cut_all, received-serve_node}

abbrev origin : Vector ℕ
origin = record { x = 0; y = 0; z = 0 }

abbrev core_at : ℕ → ℕ → NodeType → NodeCore ℕ
core_at key depth node_type = record {
  key = key;
  node_type = node_type;
  depth = depth;
  particles = none;
  owner_start = 0;
  owner_end = 0;
  moments = record { total_mass = 0; cm = origin; rsq = 0 };
}

abbrev empty_leaf : ℕ → ℕ → Node ℕ
empty_leaf key depth = node (core_at key depth NodeType.empty_bucket) none_left

abbrev inner_node : Node ℕ
inner_node =
    node (core_at 2 1 NodeType.internal) (child (empty_leaf 4 2) (child (empty_leaf 5 2) none_left))

abbrev top_node : Node ℕ
top_node =
    node (core_at 1 0 NodeType.internal) (child inner_node (child (empty_leaf 3 1) none_left))

serve_node-below_example :
    ReturnsWith (λ buf. length buf ≡ below 2 top_node) (serve_node 2 top_node)
unfolding HasDepth has_children children
serve_node-below_example =
    serve_node-below 0 1 top_node (refl, ((refl, ((refl, tt), ((refl, tt), tt))), ((refl, tt), tt)))
      refl

four_nodes : below 2 top_node ≡ 4
unfolding below num_children
four_nodes = refl

typed_leaf : (key depth : ℕ) → AllTyped (empty_leaf key depth)
unfolding AllTyped
typed_leaf key depth = ((λ e. cc), tt)

received-serve_node_example :
    ReturnsWith
      (λ cs. deserialize_all (cut_all 1 (children top_node)) ≡ some cs)
      (and_go_on (serve_node 2 top_node) (received 2 2))
unfolding HasDepth has_children children num_children AllTyped
received-serve_node_example =
    received-serve_node 2 0 1 top_node
      (refl, ((refl, ((refl, tt), ((refl, tt), tt))), ((refl, tt), tt))) refl refl
      ((λ e. cc), (((λ e. cc), (typed_leaf 4 2, (typed_leaf 5 2, tt))), (typed_leaf 3 1, tt)))

-- The second node of the message is a leaf, and its parent is the node that was asked for.
second_loaded :
    and_go_on
      (serve_node 2 top_node)
      (λ buf. and_go_on (load 2 0 buf) (λ message. get_elem? message 1))
    ≡ some (
        loaded 2 1
          (record {
            core = core_at 3 1 NodeType.empty_bucket;
            child_offset = 3;
            num_children = 0;
            parent_distance = none;
          })
          NodeType.remote_empty_bucket)
unfolding serve_node load loaded and_go_on size_work serialize top_down_traversal_local
    top_down_loop work_children has_children children num_children core size filled place_children
    copied set_children parent_of parent_index make_remote received_core
second_loaded = refl
