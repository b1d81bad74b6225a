-- ===== src/Hpx/Flatten.antt =====
-- `flattenTree` of hpx/src/linear_octree.cpp: the map of nodes as an array in which the children of a
-- node are consecutive. The queue is the part from its head on. The number of threads enters through
-- `target` only, and the parallel loop over the subtrees is its results in their order.
pub mod Step
pub mod Children
pub mod Queues
pub mod Expand
pub mod Stitch
pub mod Returns
mod Examples
use amt_bh_benchmark.Base.{
  ℕ, zero, suc, ◌+◌, ◌-◌, ◌*◌, ◌%◌, ◌^◌, Bool, true, false, not, ◌&&◌, ltb, ◌==◌, if◌then◌else◌,
  Option, none, some, List, [], ◌∷◌, ◌++◌, map, length, change_at, max,
}
use amt_bh_benchmark.Base.Eq.{HashMap}
use amt_bh_benchmark.Base.Real.{Real}
use amt_bh_benchmark.Hpx.Octree.{OctreeKey, OctreeNode, bh_max_depth}
use amt_bh_benchmark.Hpx.OctreeMap.{octree_key_eq, octree_sharding, OctreeMap}
use amt_bh_benchmark.Hpx.ShardedMap.{lookup}
use amt_bh_benchmark.Hpx.Scene.{FlatNode}
use amt_bh_benchmark.Hpx.Walk.{
  Outcome, finished, overflow, out_of_fuel, with_result, map_outcome, and_then,
}
use amt_bh_benchmark.Hpx.Traversal.{walk_fuel}
use amt_bh_benchmark.Hpx.Exchange.{octants_of, root_key}

pub record FrontierItem (R : Type 0) : Type 0 where
  pub prefix : ℕ
  pub node : OctreeNode R
  pub slot : ℕ
  pub depth : ℕ

-- What appendChildren adds to its two vectors; it returns the number of nodes.
pub record Appended (R : Type 0) : Type 0 where
  pub nodes : List (FlatNode R)
  pub items : List (FrontierItem R)

-- An array of nodes and the queue of those whose children are not in it.
pub record Frontier (R : Type 0) : Type 0 where
  pub out : List (FlatNode R)
  pub queue : List (FrontierItem R)

-- The children of the root of a subtree open its buffer.
pub record Subtree (R : Type 0) : Type 0 where
  pub root : FrontierItem R
  pub root_children : ℕ
  pub buf : List (FlatNode R)

abbrev pub flat_expandable : {R : Type 0} → OctreeNode R → ℕ → Bool
flat_expandable n depth =
    not n.is_leaf && (not n.is_pseudo && (ltb depth bh_max_depth && not (n.child_mask == 0)))

abbrev pub make_flat : {R : Type 0} → ℕ → ℕ → OctreeNode R → FlatNode R
make_flat prefix depth n = record {
  mass = n.mass;
  com_x = n.com_x;
  com_y = n.com_y;
  com_z = n.com_z;
  prefix = prefix;
  children_offset = 0;
  body_begin = n.body_begin;
  body_count = n.body_count;
  child_count = 0;
  depth = depth;
  is_leaf = n.is_leaf;
  is_pseudo = n.is_pseudo;
}

-- The key of an octant's child, with cdep = depth + 1 in a uint8_t.
abbrev pub octant_key : ℕ → ℕ → ℕ → OctreeKey
octant_key prefix depth oc =
    let cdep = (depth + 1) % 2 ^ 8 in
    record { prefix = (prefix + 2 ^ (63 - 3 * cdep) * oc) % 2 ^ 64; depth = cdep }

-- The two fields that an expansion sets.
abbrev pub with_children : {R : Type 0} → ℕ → ℕ → FlatNode R → FlatNode R
with_children off cnt n = record n { children_offset = off % 2 ^ 32; child_count = cnt % 2 ^ 8 }

abbrev pub rebase : {R : Type 0} → ℕ → FlatNode R → FlatNode R
rebase b n = record n {
  children_offset =
      if n.child_count == 0 then n.children_offset else (n.children_offset + b) % 2 ^ 32;
}

-- max(1, threads * kFlattenSubtreesPerWorker)
abbrev pub target : ℕ → ℕ
target threads = max 1 (threads * 32)

-- std::numeric_limits<std::size_t>::max()
abbrev pub no_stop : ℕ
no_stop = 2 ^ 64 - 1

module _ {R : Type 0} where
  -- A child with what the map has for it; one that is missing is skipped. `size` is the size of `out`
  -- at the call.
  pub add_child : OctreeKey → ℕ → Option (OctreeNode R) → Appended R → Appended R
  add_child k size none added = added
  add_child k size (some cn) added =
      let item : FrontierItem R = record {
        prefix = k.prefix;
        node = cn;
        slot = (size + length added.nodes) % 2 ^ 32;
        depth = k.depth;
      } in
      record {
        nodes = added.nodes ++ make_flat k.prefix k.depth cn ∷ [];
        items = if flat_expandable cn k.depth then added.items ++ item ∷ [] else added.items;
      }

  -- Step 4 of the stitching: a subtree's buffer goes to the end of the array, whose slots the source
  -- makes beforehand, and the root of the subtree gets its children.
  pub place : Subtree R → List (FlatNode R) → List (FlatNode R)
  place s out =
      change_at out s.root.slot (with_children (length out) s.root_children)
      ++ map (rebase (length out)) s.buf

  pub stitch : List (Subtree R) → List (FlatNode R) → List (FlatNode R)
  stitch [] out = out
  stitch (s ∷ subtrees) out = stitch subtrees (place s out)

  -- `overflow` is the exception for more nodes than an offset holds.
  pub checked : List (FlatNode R) → Outcome (List (FlatNode R))
  checked out = if ltb (2 ^ 32 - 1) (length out) then overflow else finished out

  pub root_queue : OctreeNode R → List (FrontierItem R)
  root_queue root =
      if flat_expandable root 0
      then record { prefix = 0; node = root; slot = 0; depth = 0 } ∷ []
      else []

  abbrev close : FrontierItem R → ℕ → Frontier R → Subtree R
  close r cnt f = record { root = r; root_children = cnt; buf = f.out }

  module _ (H : HashMap OctreeKey (OctreeNode R) octree_key_eq) (tree : OctreeMap H) where
    -- The loop over the bits of child_mask.
    pub append_loop : ℕ → ℕ → ℕ → List ℕ → Appended R → Appended R
    append_loop prefix depth size [] added = added
    append_loop prefix depth size (oc ∷ ocs) added =
        let k = octant_key prefix depth oc in
        append_loop prefix depth size ocs
          (add_child k size (lookup (octree_sharding H) tree k) added)

    pub append_children : FrontierItem R → ℕ → Appended R
    append_children p size =
        append_loop p.prefix p.depth size (octants_of p.node.child_mask)
          (record { nodes = []; items = [] })

    -- The array after the body of the loop of expandBfs.
    pub expand_item : FrontierItem R → List (FlatNode R) → List (FlatNode R)
    expand_item p out =
        let nodes = (append_children p (length out)).nodes in
        change_at (out ++ nodes) p.slot (with_children (length out) (length nodes))

    -- The loop ends at an empty queue, or at one as long as stop_at.
    pub expand_bfs : ℕ → List (FlatNode R) → List (FrontierItem R) → ℕ → Outcome (Frontier R)
    expand_bfs stop_at out [] fuel = finished (record { out = out; queue = [] })
    expand_bfs stop_at out (p ∷ queue) zero = out_of_fuel
    expand_bfs stop_at out (p ∷ queue) (suc fuel) =
        let more =
          expand_bfs stop_at (expand_item p out) (queue ++ (append_children p (length out)).items)
            fuel in
        if ltb (length queue + 1) stop_at
        then more
        else finished (record { out = out; queue = p ∷ queue })

    pub expand_subtree : FrontierItem R → Outcome (Subtree R)
    expand_subtree r =
        let added = append_children r 0 in
        map_outcome (λ f. close r (length added.nodes) f)
          (expand_bfs no_stop added.nodes added.items walk_fuel)

    pub expand_subtrees : List (FrontierItem R) → Outcome (List (Subtree R))
    expand_subtrees [] = finished []
    expand_subtrees (r ∷ rs) = with_result (expand_subtree r) (expand_subtrees rs)

    -- What is left of the queue after the backbone is expanded by subtrees.
    pub expand_rest : Frontier R → Outcome (List (FlatNode R))
    expand_rest f = and_then (expand_subtrees f.queue) (λ subtrees. checked (stitch subtrees f.out))

    pub flatten_rest : List (FlatNode R) → List (FrontierItem R) → Outcome (List (FlatNode R))
    flatten_rest out [] = finished out
    flatten_rest out (r ∷ queue) = expand_rest (record { out = out; queue = r ∷ queue })

    pub flatten_found : ℕ → Option (OctreeNode R) → Outcome (List (FlatNode R))
    flatten_found threads none = finished []
    flatten_found threads (some root) =
        and_then (expand_bfs (target threads) (make_flat 0 0 root ∷ []) (root_queue root) walk_fuel)
          (λ f. flatten_rest f.out f.queue)

    pub flatten_tree : ℕ → Outcome (List (FlatNode R))
    flatten_tree threads = flatten_found threads (lookup (octree_sharding H) tree root_key)
