-- ===== src/Hpx/Exchange/Examples.antt =====
-- The theorem on the interaction list at a concrete tree.
use amt_bh_benchmark.Base.{
  ℕ, ◌||◌, true, Bool-cases, if◌then◌else◌, some, List, [], ◌∷◌, map, range_from, Has, inl, inr,
  ◌≡◌, refl, sym, ◌*◌, ◌^◌, arith,
}
use amt_bh_benchmark.Base.Real.{Real}
use amt_bh_benchmark.Base.Whole.{whole}
use amt_bh_benchmark.Base.Eq.{HashMap}
use amt_bh_benchmark.Base.Table.{assoc_table, find}
use amt_bh_benchmark.Hpx.Octree.{Position, OctreeKey, OctreeNode}
use amt_bh_benchmark.Hpx.OctreeMap.{
  octree_key_eq, octree_key_eqb, octree_key_eqb_iff, octree_sharding, OctreeMap,
}
use amt_bh_benchmark.Hpx.ShardedMap.{new, change, is_empty}
use amt_bh_benchmark.Hpx.Merge.{default_node}
use amt_bh_benchmark.Hpx.Walk.{finished}
use amt_bh_benchmark.Hpx.Scene.{BoundingBox}
use amt_bh_benchmark.Hpx.Exchange.{
  root_key, no_boxes, create_interaction_list_for_rank, receive, exchange_essential_trees,
}
use amt_bh_benchmark.Hpx.Exchange.Essential.{sent, exchange_essential_trees-sent}
use amt_bh_benchmark.Hpx.Exchange.Interaction.{descend_keys}
use amt_bh_benchmark.Hpx.Exchange.Kept.{
  found_records, create_interaction_list_for_rank-found_records,
}

-- Whole numbers in place of floating-point ones.
instance abbrev numbers : Real ℕ
numbers = whole

abbrev nodes : HashMap OctreeKey (OctreeNode ℕ) octree_key_eq
nodes = assoc_table octree_key_eq

abbrev keys : HashMap OctreeKey Unit octree_key_eq
keys = assoc_table octree_key_eq

abbrev elements : List (OctreeKey × Unit {0}) → List OctreeKey
elements [] = []
elements (p ∷ ps) = p.0 ∷ elements ps

listed :
    (ps : List (OctreeKey × Unit {0})) (k : OctreeKey)
    → Has k (elements ps)
    → find octree_key_eq ps k ≡ some tt
listed [] k h = absurd h
listed (p ∷ ps) k (inl same_key) = rw ((octree_key_eqb_iff k p.0).1 (sym same_key)) refl
listed (p ∷ ps) k (inr later) = elim (Bool-cases (octree_key_eqb k p.0)) [
  | inl here ↦ rw here refl
  | inr elsewhere ↦ rw elsewhere (listed ps k later)
]

-- A root with one child, in the last octant.
abbrev tree : OctreeMap nodes
tree =
    let s = octree_sharding nodes in
    change s default_node
      (change s default_node (new s) root_key (λ n. record n { mass = 4; child_mask = 128 }))
      (record { prefix = 7 * 2 ^ 60; depth = 1 }) (λ n. record n { mass = 4; is_leaf = true })

abbrev spot : ℕ → Position ℕ
spot n = record { x = n; y = n; z = n }

abbrev box : ℕ → ℕ → BoundingBox ℕ
box lo hi = record { min = spot lo; max = spot hi }

create_interaction_list_for_rank-found_records_example :
    create_interaction_list_for_rank nodes keys elements tree (box 9 12 ∷ []) (box 0 8) 4 20 true
    ≡ finished (
        some (
          if is_empty (octree_sharding nodes) tree || no_boxes (box 9 12 ∷ [])
          then []
          else found_records nodes keys elements tree true
              (elements (descend_keys nodes keys elements tree (box 9 12 ∷ []) (box 0 8) 4 20))))
create_interaction_list_for_rank-found_records_example =
    create_interaction_list_for_rank-found_records nodes keys elements tree (box 9 12 ∷ [])
      (box 0 8) 4 20 (omega arith) listed true

exchange_essential_trees-sent_example :
    exchange_essential_trees nodes keys elements tree
      (λ lists. lists)
      (box 0 8)
      2
      0
      2
      ([] ∷ (7 * 2 ^ 60 ∷ []) ∷ [])
      20
      3
      1
    ≡ finished (
        some (
          receive (
            map
              (sent nodes keys elements tree (box 0 8) 2 0 ([] ∷ (7 * 2 ^ 60 ∷ []) ∷ []) 20 3 1)
              (range_from 0 2))))
exchange_essential_trees-sent_example =
    exchange_essential_trees-sent nodes keys elements tree (box 0 8) 2 0
      ([] ∷ (7 * 2 ^ 60 ∷ []) ∷ []) 20 3 1 (omega arith) listed (λ lists. lists) 2
