-- ===== src/Hpx/Merge.antt =====
-- `mergeRecordsIntoTree` of hpx/src/linear_octree.cpp. The map and the set of protected keys stand on
-- the tables of robin_hood, which are parameters.
pub mod View
pub mod Flags
pub mod Leaves
mod Examples
use amt_bh_benchmark.Base.{
  ℕ, zero, suc, ◌+◌, ◌-◌, ◌*◌, ◌/◌, ◌%◌, ◌^◌, Bool, true, false, not, ◌||◌, ltb, ◌==◌,
  if◌then◌else◌, Option, none, some, List, [], ◌∷◌,
}
use amt_bh_benchmark.Base.Eq.{HashMap}
use amt_bh_benchmark.Base.Real.{Real}
use amt_bh_benchmark.Hpx.Morton.{morton_prefix}
use amt_bh_benchmark.Hpx.Octree.{OctreeKey, OctreeNode, bh_max_depth, set_octant}
use amt_bh_benchmark.Hpx.OctreeMap.{octree_key_eq, octree_sharding, OctreeMap}
use amt_bh_benchmark.Hpx.ShardedMap.{lookup, change}

-- A node on the wire; is_leaf is 0 or 1.
pub record NodeRecord (R : Type 0) : Type 0 where
  pub prefix : ℕ
  pub depth : ℕ
  pub is_leaf : ℕ
  pub mass : R
  pub com_x : R
  pub com_y : R
  pub com_z : R

abbrev pub key_of : {R : Type 0} → NodeRecord R → OctreeKey
key_of r = record { prefix = r.prefix; depth = r.depth }

-- The bit of a cell in its parent's child_mask: (prefix >> shift) & 7, with shift = 63 - 3 * depth.
abbrev pub octant_in_parent : ℕ → ℕ → ℕ
octant_in_parent prefix depth = prefix / 2 ^ (63 - 3 * depth) % 8

module _ {R : Type 0} ⦃real : Real R⦄ where
  open real use {nought, add, mul, div, same}

  -- `OctreeNode{}`
  abbrev pub default_node : OctreeNode R
  default_node = record {
    mass = nought;
    com_x = nought;
    com_y = nought;
    com_z = nought;
    is_pseudo = false;
    is_leaf = false;
    body_begin = 0;
    body_count = 0;
    child_mask = 0;
  }

  -- The body of the second loop, on the node of the record's key.
  pub merge_node : Bool → NodeRecord R → OctreeNode R → OctreeNode R
  merge_node is_protected r node =
      let flagged = record node {
        is_leaf = if is_protected then node.is_leaf else node.is_leaf || not (r.is_leaf == 0);
      } in
      let m0 = node.mass in
      let m1 = r.mass in
      let total_mass = add m0 m1 in
      if same total_mass nought then flagged else record flagged {
        com_x = div (add (mul m0 node.com_x) (mul m1 r.com_x)) total_mass;
        com_y = div (add (mul m0 node.com_y) (mul m1 r.com_y)) total_mass;
        com_z = div (add (mul m0 node.com_z) (mul m1 r.com_z)) total_mass;
        mass = total_mass;
      }

  module _ (H : HashMap OctreeKey (OctreeNode R) octree_key_eq)
      (P : HashMap OctreeKey Unit octree_key_eq) where
    -- The body of the first loop, with what the tree has at the record's key.
    pub more_keys : Option (OctreeNode R) → NodeRecord R → P.Map → P.Map
    more_keys none r keys = keys
    more_keys (some node) r keys =
        if node.is_leaf then keys else P.insert_or_assign keys (key_of r) tt

    -- The first loop: the keys of internal nodes of the tree.
    pub protect : OctreeMap H → List (NodeRecord R) → P.Map → P.Map
    protect tree [] keys = keys
    protect tree (r ∷ records) keys =
        protect tree records (more_keys (lookup (octree_sharding H) tree (key_of r)) r keys)

    pub is_protected : P.Map → NodeRecord R → Bool
    is_protected keys r = elim (P.find keys (key_of r)) [ none ↦ false | some t ↦ true ]

    -- The second loop.
    pub merge_loop : P.Map → List (NodeRecord R) → OctreeMap H → OctreeMap H
    merge_loop keys [] tree = tree
    merge_loop keys (r ∷ records) tree = merge_loop keys records (
        change (octree_sharding H) default_node tree (key_of r)
          (merge_node (is_protected keys r) r))

    -- The body of the third loop: the parent, if it is in the map, gets the bit of the cell.
    pub mark_in_parent : ℕ → ℕ → OctreeMap H → OctreeMap H
    mark_in_parent prefix depth tree =
        let pk : OctreeKey = record {
          prefix = morton_prefix prefix (depth - 1);
          depth = depth - 1;
        } in
        let mark = λ (p : OctreeNode R). record p {
          child_mask = set_octant p.child_mask (octant_in_parent prefix depth);
        } in
        elim (lookup (octree_sharding H) tree pk) [
          | none ↦ tree
          | some p ↦ change (octree_sharding H) p tree pk mark
        ]

    pub mark_loop : List (NodeRecord R) → OctreeMap H → OctreeMap H
    mark_loop [] tree = tree
    mark_loop (r ∷ records) tree =
        let skip = (r.depth == 0) || ltb bh_max_depth r.depth in
        mark_loop records (if skip then tree else mark_in_parent r.prefix r.depth tree)

    pub merge_records_into_tree : OctreeMap H → List (NodeRecord R) → OctreeMap H
    merge_records_into_tree tree records =
        mark_loop records (merge_loop (protect tree records P.empty) records tree)
