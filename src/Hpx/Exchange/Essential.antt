-- ===== src/Hpx/Exchange/Essential.antt =====
-- What exchangeEssentialTrees sends to each rank.
use amt_bh_benchmark.Base.{
  ℕ, ◌≤◌, ◌/◌, ◌||◌, ◌==◌, leb, if◌then◌else◌, some, List, [], ◌∷◌, map, Has, get_or, range_from,
  Bool-cases, inl, inr, ◌≡◌, refl,
}
use amt_bh_benchmark.Base.Eq.{HashMap}
use amt_bh_benchmark.Base.Real.{Real}
use amt_bh_benchmark.Hpx.Octree.{OctreeKey, OctreeNode}
use amt_bh_benchmark.Hpx.OctreeMap.{octree_key_eq, octree_sharding, OctreeMap}
use amt_bh_benchmark.Hpx.ShardedMap.{is_empty}
use amt_bh_benchmark.Hpx.Merge.{NodeRecord}
use amt_bh_benchmark.Hpx.Scene.{BoundingBox}
use amt_bh_benchmark.Hpx.Walk.{finished, map_outcome}
use amt_bh_benchmark.Hpx.Walk.Descent.{each_body-finished}
use amt_bh_benchmark.Hpx.Exchange.{
  no_boxes, bucket_boxes, send_list, all_lists, map_option, receive, exchange_essential_trees,
}
use amt_bh_benchmark.Hpx.Exchange.Interaction.{descend_keys}
use amt_bh_benchmark.Hpx.Exchange.Kept.{
  found_records, create_interaction_list_for_rank-found_records,
}

all_lists-map :
    {A : Type 0} (f : ℕ → A) (is : List ℕ) → all_lists (map (λ i. some (f i)) is) ≡ some (map f is)
unfolding all_lists map_option
all_lists-map f [] = refl
all_lists-map f (i ∷ is) = rw (all_lists-map f is) refl

module _ {R : Type 0} ⦃real : Real R⦄ (H : HashMap OctreeKey (OctreeNode R) octree_key_eq)
    (P : HashMap OctreeKey Unit octree_key_eq) (elements : P.Map → List OctreeKey)
    (tree : OctreeMap H) (bb : BoundingBox R) (theta : R) (rank : ℕ)
    (rank_domain_keys : List (List ℕ)) (max_depth bucket_bits leaf_capacity : ℕ) where
  abbrev pub boxes_of : ℕ → List (BoundingBox R)
  boxes_of dest = bucket_boxes bb (bucket_bits / 3) (get_or rank_domain_keys dest [])

  -- What a rank gets: nothing for the own rank, else the records of the keys that the descent keeps.
  pub sent : ℕ → List (NodeRecord R)
  sent dest =
      if dest == rank
      then []
      else if is_empty (octree_sharding H) tree || no_boxes (boxes_of dest)
      then []
      else found_records H P elements tree (leb 1 leaf_capacity) (
          elements
            (descend_keys H P elements tree (boxes_of dest) bb (real.mul theta theta) max_depth))

  module _ (shallow : max_depth ≤ 21)
      (listed : (keep : P.Map) (k : OctreeKey)
        → Has k (elements keep)
        → P.find keep k ≡ some tt) where
    send_list-sent :
        (dest : ℕ)
        → send_list H P elements tree bb theta rank rank_domain_keys max_depth bucket_bits
            leaf_capacity dest
          ≡ finished (some (sent dest))
    unfolding send_list sent
    send_list-sent dest = elim (Bool-cases (dest == rank)) [
      | inl own ↦ rw own refl
      | inr other ↦ rw other (
          create_interaction_list_for_rank-found_records H P elements tree (boxes_of dest) bb
            (real.mul theta theta) max_depth shallow listed (leb 1 leaf_capacity))
    ]

    -- When the traversal depth is at most 21 and `elements` lists keys of the set only,
    -- exchangeEssentialTrees ends without an exception, and what it hands to all_to_all is, for each
    -- rank from 0 to size - 1, nothing for the own rank and the records of the keys that the recursive
    -- descent keeps for another one.
    pub exchange_essential_trees-sent :
        (all_to_all : List (List (NodeRecord R)) → List (List (NodeRecord R))) (size : ℕ)
        → exchange_essential_trees H P elements tree all_to_all bb theta rank size rank_domain_keys
            max_depth bucket_bits leaf_capacity
          ≡ finished (some (receive (all_to_all (map sent (range_from 0 size)))))
    unfolding exchange_essential_trees map_outcome map_option
    exchange_essential_trees-sent all_to_all size =
        rw
          (
            each_body-finished
                (send_list H P elements tree bb theta rank rank_domain_keys max_depth bucket_bits
                  leaf_capacity)
                (λ dest. some (sent dest)) send_list-sent (range_from 0 size),
            all_lists-map sent (range_from 0 size),
          )
          refl
