-- ===== src/Charm/Reply.antt =====
-- The reply to a request for the children of a node: `requestNode` of charm/DataManager.cpp for a
-- message that is served, with `topDownTraversal_local` of charm/Traversal_defs.h, `TreeSizeWorker` of
-- charm/Worker.cpp and `serialize` of charm/Node.h. The buffer of the message is the list of its filled
-- entries, emptyBuf is its length, and a pointer is stored as a distance in it. `none` is CkAbort or a
-- CkAssert that fails. The traversal has fuel in the number of nodes, one for each node it takes.
pub mod Size
pub mod Layout
pub mod Received
mod Examples
use amt_bh_benchmark.Base.{
  ℕ, zero, suc, ◌+◌, ◌-◌, Bool, true, false, ◌&&◌, leb, ◌==◌, if◌then◌else◌, Option, none, some,
  List, [], ◌∷◌, ◌++◌, length, change_at,
}
use amt_bh_benchmark.Charm.Tree.{
  NodeCore, Node, Nodes, node, none_left, child, core, children, num_children, size,
}
use amt_bh_benchmark.Charm.GravityWalk.{and_go_on}

-- A node in the message; the parent of a child of the root is not set.
pub record Entry (R : Type 0) : Type 0 where
  pub core : NodeCore R
  pub child_offset : ℕ
  pub num_children : ℕ
  pub parent_distance : Option ℕ

unfoldable pub parent_of : Option ℕ → ℕ → Option ℕ
parent_of none here = none
parent_of (some place) here = some (here - place)

module _ {R : Type 0} where
  unfoldable pub has_children : Nodes R → Bool
  has_children none_left = false
  has_children (child n ns) = true

  -- TreeSizeWorker::work, with the nodes counted so far.
  unfoldable pub size_work : ℕ → Node R → ℕ → Bool × ℕ
  size_work cutoff_depth n num_nodes =
      if leb ((core n).depth + 1) cutoff_depth
      then (true, num_nodes + num_children (children n))
      else (false, num_nodes)

  module _ {W : Type 0} (work : Node R → W → Bool × W) where
    -- The loop over the children, with tmp in order.
    unfoldable pub work_children : Nodes R → W → List (Node R) × W
    work_children none_left w = ([], w)
    work_children (child n ns) w =
        let (ret, w') = work n w in
        let (kept, w'') = work_children ns w' in
        (if ret && has_children (children n) then n ∷ kept else kept, w'')

    unfoldable pub top_down_loop : ℕ → List (Node R) → W → Option W
    top_down_loop fuel [] w = some w
    top_down_loop zero (parent ∷ stack) w = none
    top_down_loop (suc fuel) (parent ∷ stack) w =
        let kept = work_children (children parent) w in top_down_loop fuel (kept.0 ++ stack) kept.1

    unfoldable pub top_down_traversal_local : ℕ → Node R → W → Option W
    top_down_traversal_local fuel root w =
        let first = work root w in
        if first.0 then top_down_loop fuel (root ∷ []) first.1 else some first.1

  unfoldable pub set_children : ℕ → ℕ → Entry R → Entry R
  set_children offset n e = record e { child_offset = offset; num_children = n }

  -- placeInBuf->setChildren(childOffset, n), if it is not NULL.
  unfoldable pub place_children : Option ℕ → ℕ → List (Entry R) → List (Entry R)
  place_children none n buf = buf
  place_children (some place) n buf = change_at buf place (set_children (length buf - place) n)

  -- The children as they are copied, from the entry `here` on.
  unfoldable pub copied : Option ℕ → ℕ → Nodes R → List (Entry R)
  copied place here none_left = []
  copied place here (child n ns) =
      record {
        core = core n;
        child_offset = 0;
        num_children = num_children (children n);
        parent_distance = parent_of place here;
      }
      ∷ copied place (here + 1) ns

  unfoldable mutual
    pub serialize : ℕ → Node R → Option ℕ → List (Entry R) → Option (List (Entry R))
    serialize zero (node c cs) none buf = none
    serialize zero (node c cs) (some place) buf = some (place_children (some place) 0 buf)
    serialize (suc depth) (node c cs) place buf =
        serialize_all depth cs (length buf)
          (place_children place (num_children cs) buf ++ copied place (length buf) cs)

    pub serialize_all : ℕ → Nodes R → ℕ → List (Entry R) → Option (List (Entry R))
    serialize_all depth none_left place buf = some buf
    serialize_all depth (child n ns) place buf =
        and_go_on (serialize depth n (some place) buf)
          (λ buf'. serialize_all depth ns (place + 1) buf')

  -- CkAssert(emptyBuf == nmsg->data+nn)
  unfoldable pub filled : ℕ → List (Entry R) → Option (List (Entry R))
  filled nn buf = if length buf == nn then some buf else none

  -- requestNode for a node that was found.
  unfoldable pub serve_node : ℕ → Node R → Option (List (Entry R))
  serve_node cache_line_size n =
      if has_children (children n)
      then and_go_on
          (top_down_traversal_local (size_work ((core n).depth + cache_line_size)) (size n) n 0)
          (λ nn. and_go_on (serialize cache_line_size n none []) (filled nn))
      else none
