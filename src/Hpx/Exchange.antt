-- ===== src/Hpx/Exchange.antt =====
-- The locally essential trees of hpx/src/exchange.cpp: `createInteractionListForRank` and
-- `exchangeEssentialTrees`. The set of kept keys stands on a table of robin_hood, whose keys `elements`
-- lists in the order of its iteration; both are parameters, as is all_to_all. A traversal depth below
-- 0 acts as 0.
pub mod Interaction
pub mod Kept
pub mod Essential
mod Examples
use amt_bh_benchmark.Base.{
  ℕ, zero, suc, ◌+◌, ◌-◌, ◌*◌, ◌/◌, ◌%◌, ◌^◌, bit_or, Bool, true, false, not, ◌&&◌, ◌||◌, ltb, leb,
  ◌==◌, if◌then◌else◌, Option, none, some, List, [], ◌∷◌, map, select, length, concat, range_from,
  get_or,
}
use amt_bh_benchmark.Base.Eq.{HashMap}
use amt_bh_benchmark.Base.Real.{Real}
use amt_bh_benchmark.Hpx.Octree.{OctreeKey, OctreeNode}
use amt_bh_benchmark.Hpx.OctreeMap.{octree_key_eq, octree_sharding, OctreeMap}
use amt_bh_benchmark.Hpx.ShardedMap.{lookup, is_empty}
use amt_bh_benchmark.Hpx.Merge.{NodeRecord}
use amt_bh_benchmark.Hpx.Scene.{BoundingBox, larger, root_side}
use amt_bh_benchmark.Hpx.BoundingBox.{
  min_distance_sq, key_to_normalized_position, get_bounding_box_for_cell, corner, box_at,
}
use amt_bh_benchmark.Hpx.Walk.{
  Visit, settled, opened, Outcome, finished, push_what_fits, walk, each_body, map_outcome,
}
use amt_bh_benchmark.Hpx.Traversal.{walk_fuel}

-- The octants of a mask in ascending order, as __builtin_ctz(m) and m &= m - 1 give them.
pub octants_of : ℕ → List ℕ
octants_of mask = select (λ oc. mask / 2 ^ oc % 2 == 1) (range_from 0 8)

abbrev pub root_key : OctreeKey
root_key = record { prefix = 0; depth = 0 }

-- The key that the loop pushes for an octant, with cd = k.depth + 1 in a uint8_t.
abbrev pub child_key : OctreeKey → ℕ → OctreeKey
child_key k oc =
    let cd = (k.depth + 1) % 2 ^ 8 in
    record { prefix = bit_or k.prefix (oc * 2 ^ (63 - 3 * cd) % 2 ^ 64); depth = cd }

pub no_boxes : {R : Type 0} → List (BoundingBox R) → Bool
no_boxes [] = true
no_boxes (b ∷ bs) = false

pub map_option : {A B : Type 0} → (A → B) → Option A → Option B
map_option f none = none
map_option f (some a) = some (f a)

-- An exception of one list is an exception of the call.
pub all_lists : {A : Type 0} → List (Option A) → Option (List A)
all_lists [] = some []
all_lists (none ∷ lists) = none
all_lists (some l ∷ lists) = map_option (λ ls. l ∷ ls) (all_lists lists)

pub record Received (R : Type 0) : Type 0 where
  pub remote_nodes : List (NodeRecord R)
  pub recv_counts : List ℕ

-- What all_to_all gives to this rank, in the order of the sources, is joined.
pub receive : {R : Type 0} → List (List (NodeRecord R)) → Received R
receive recv_per_src = record {
  remote_nodes = concat recv_per_src;
  recv_counts = map length recv_per_src;
}

module _ {R : Type 0} ⦃real : Real R⦄ where
  open real use {of_nat, sub, mul, div, le}

  -- bhFails: a box of the remote rank is too near for the side of the cell.
  pub bh_fails : R → BoundingBox R → R → List (BoundingBox R) → Bool
  bh_fails s2 node_bb theta2 [] = false
  bh_fails s2 node_bb theta2 (bucket ∷ buckets) =
      le (mul theta2 (min_distance_sq node_bb bucket)) s2 || bh_fails s2 node_bb theta2 buckets

  -- The largest side squared of a box.
  pub largest_side_sq : BoundingBox R → R
  largest_side_sq b = let s = root_side b in mul s s

  abbrev pub record_of : Bool → OctreeKey → OctreeNode R → NodeRecord R
  record_of mark k n = record {
    prefix = k.prefix;
    depth = k.depth;
    is_leaf = if mark then 1 else 0;
    mass = n.mass;
    com_x = n.com_x;
    com_y = n.com_y;
    com_z = n.com_z;
  }

  -- The boxes of the buckets of a rank, whose keys are prefixes at bucket_bits / 3.
  pub bucket_boxes : BoundingBox R → ℕ → List ℕ → List (BoundingBox R)
  bucket_boxes global_bb bucket_depth [] = []
  bucket_boxes global_bb bucket_depth (pref ∷ prefs) =
      box_at (corner global_bb (key_to_normalized_position pref bucket_depth))
        (div (root_side global_bb) (of_nat (2 ^ bucket_depth)))
      ∷ bucket_boxes global_bb bucket_depth prefs

  module _ (H : HashMap OctreeKey (OctreeNode R) octree_key_eq)
      (P : HashMap OctreeKey Unit octree_key_eq) (elements : P.Map → List OctreeKey)
      (tree : OctreeMap H) where
    module _ (remote_boxes : List (BoundingBox R)) (global_bb : BoundingBox R) (theta2 : R)
        (max_traversal_depth : ℕ) where
      -- The cell is too near to the remote rank, and may be opened.
      pub opens : OctreeKey → OctreeNode R → Bool
      opens k node =
          let node_bb = get_bounding_box_for_cell k global_bb in
          bh_fails (largest_side_sq node_bb) node_bb theta2 remote_boxes
          && (ltb k.depth max_traversal_depth && not node.is_leaf)

      -- The body of the while loop, with what `find` gives for the key.
      pub visit_found : OctreeKey → Option (OctreeNode R) → P.Map → Visit OctreeKey P.Map
      visit_found k none keep = settled keep
      visit_found k (some node) keep =
          if opens k node
          then opened (map (child_key k) (octants_of node.child_mask))
          else settled (P.insert_or_assign keep k tt)

      pub visit_key : OctreeKey → P.Map → Visit OctreeKey P.Map
      visit_key k keep = visit_found k (lookup (octree_sharding H) tree k) keep

      pub first_key : Option (OctreeNode R) → List OctreeKey
      first_key none = []
      first_key (some n) = root_key ∷ []

      pub keep_keys : Outcome P.Map
      keep_keys =
          walk (λ cs s. some (push_what_fits cs s)) visit_key
            (first_key (lookup (octree_sharding H) tree root_key)) walk_fuel P.empty

    -- `none` is the std::out_of_range of tree.at(k).
    pub add_record :
        Bool
        → OctreeKey
        → Option (OctreeNode R)
        → Option (List (NodeRecord R))
        → Option (List (NodeRecord R))
    add_record mark k (some n) (some out) = some (record_of mark k n ∷ out)
    add_record mark k (some n) none = none
    add_record mark k none out = none

    pub records_of : Bool → List OctreeKey → Option (List (NodeRecord R))
    records_of mark [] = some []
    records_of mark (k ∷ ks) =
        add_record mark k (lookup (octree_sharding H) tree k) (records_of mark ks)

    pub create_interaction_list_for_rank :
        List (BoundingBox R) → BoundingBox R → R → ℕ → Bool → Outcome (Option (List (NodeRecord R)))
    create_interaction_list_for_rank remote_boxes global_bb theta2 max_depth mark =
        if is_empty (octree_sharding H) tree || no_boxes remote_boxes
        then finished (some [])
        else map_outcome (λ keep. records_of mark (elements keep))
            (keep_keys remote_boxes global_bb theta2 max_depth)

    -- send_lists[dest]; the own entry stays empty.
    pub send_list :
        BoundingBox R
        → R
        → ℕ
        → List (List ℕ)
        → ℕ
        → ℕ
        → ℕ
        → ℕ
        → Outcome (Option (List (NodeRecord R)))
    send_list bb theta rank rank_domain_keys max_depth bucket_bits leaf_capacity dest =
        if dest == rank
        then finished (some [])
        else create_interaction_list_for_rank
            (bucket_boxes bb (bucket_bits / 3) (get_or rank_domain_keys dest [])) bb
            (mul theta theta) max_depth (leb 1 leaf_capacity)

    pub exchange_essential_trees :
        (List (List (NodeRecord R)) → List (List (NodeRecord R)))
        → BoundingBox R
        → R
        → ℕ
        → ℕ
        → List (List ℕ)
        → ℕ
        → ℕ
        → ℕ
        → Outcome (Option (Received R))
    exchange_essential_trees all_to_all bb theta rank size rank_domain_keys max_depth bucket_bits
          leaf_capacity =
        map_outcome (λ lists. map_option (λ ls. receive (all_to_all ls)) (all_lists lists))
          (each_body (send_list bb theta rank rank_domain_keys max_depth bucket_bits leaf_capacity)
            (range_from 0 size))
