-- ===== src/Hpx/Exchange/Kept.antt =====
-- What createInteractionListForRank sends: a record for each key that the descent keeps.
use amt_bh_benchmark.Base.{
  ℕ, ◌≤◌, Bool, true, false, ◌||◌, if◌then◌else◌, Option, none, some, List, [], ◌∷◌, map, Has,
  Bool-cases, inl, inr, ◌⊎◌, ◌≡◌, refl, sym, ap, subst, arith,
}
use amt_bh_benchmark.Base.Eq.{HashMap}
use amt_bh_benchmark.Base.Real.{Real}
use amt_bh_benchmark.Hpx.Octree.{OctreeKey, OctreeNode}
use amt_bh_benchmark.Hpx.OctreeMap.{
  octree_key_eq, octree_key_eqb, octree_key_eqb_iff, octree_sharding, OctreeMap,
}
use amt_bh_benchmark.Hpx.ShardedMap.{lookup, is_empty}
use amt_bh_benchmark.Hpx.ShardedMap.Refinement.{or_default}
use amt_bh_benchmark.Hpx.Merge.{NodeRecord, default_node}
use amt_bh_benchmark.Hpx.Scene.{BoundingBox}
use amt_bh_benchmark.Hpx.Walk.{Visit, settled, opened, finished, map_outcome}
use amt_bh_benchmark.Hpx.Walk.Descent.{descend_all-keeps}
use amt_bh_benchmark.Hpx.Traversal.Acceptance.{not_opened}
use amt_bh_benchmark.Hpx.Exchange.{
  octants_of, child_key, root_key, record_of, opens, visit_found, visit_key, first_key, add_record,
  records_of, no_boxes, create_interaction_list_for_rank,
}
use amt_bh_benchmark.Hpx.Exchange.Interaction.{levels, descend_keys, keep_keys-descend_keys}

settled_value : {I A : Type 0} → A → Visit I A → A
settled_value d (settled a) = a
settled_value d (opened cs) = d

settled_inj : {I A : Type 0} (a b : A) → Path (Visit I A) (settled a) (settled b) → a ≡ b
unfolding settled_value
settled_inj a b h = ap (settled_value a) h

settled_last :
    {I A : Type 0} (b : Bool) (a : A) (cs : List I) (a2 : A)
    → (if b then opened cs else settled a) ≡ settled a2
    → a ≡ a2
settled_last true a cs a2 h = absurd (not_opened a2 cs (sym h))
settled_last false a cs a2 h = settled_inj a a2 h

module _ {R : Type 0} ⦃real : Real R⦄ (H : HashMap OctreeKey (OctreeNode R) octree_key_eq)
    (P : HashMap OctreeKey Unit octree_key_eq) (elements : P.Map → List OctreeKey)
    (tree : OctreeMap H) where
  -- The kept keys are keys of the tree.
  Kept : P.Map → Type 0
  Kept keep =
      (q : OctreeKey)
      → (P.find keep q ≡ none) ⊎ ((n : OctreeNode R) × (lookup (octree_sharding H) tree q ≡ some n))

  Kept-insert_or_assign :
      (k : OctreeKey) (node : OctreeNode R) (keep : P.Map)
      → lookup (octree_sharding H) tree k ≡ some node
      → Kept keep
      → Kept (P.insert_or_assign keep k tt)
  unfolding Kept
  Kept-insert_or_assign k node keep found kept q = elim (Bool-cases (octree_key_eqb q k)) [
    | inl same_key ↦ inr (node, rw ((octree_key_eqb_iff q k).0 same_key) found)
    | inr other ↦ rw (P.find-insert_or_assign keep k q tt, other) (kept q)
  ]

  in_tree :
      {keep : P.Map} (k : OctreeKey)
      → P.find keep k ≡ some tt
      → (P.find keep k ≡ none) ⊎ ((n : OctreeNode R) × (lookup (octree_sharding H) tree k ≡ some n))
      → (n : OctreeNode R) × (lookup (octree_sharding H) tree k ≡ some n)
  in_tree k kept (inl missing) = absurd (ground (arith, kept, missing))
  in_tree k kept (inr found) = found

  -- The records of keys of the tree.
  pub found_records : Bool → List OctreeKey → List (NodeRecord R)
  found_records mark ks =
      map (λ k. record_of mark k (or_default default_node (lookup (octree_sharding H) tree k))) ks

  records_of-found_records :
      (mark : Bool) (ks : List OctreeKey)
      → ((k : OctreeKey)
          → Has k ks
          → (n : OctreeNode R) × (lookup (octree_sharding H) tree k ≡ some n))
      → records_of H P elements tree mark ks ≡ some (found_records mark ks)
  unfolding records_of add_record found_records
  records_of-found_records mark [] h = refl
  records_of-found_records mark (k ∷ ks) h =
      let (n, found) = h k (inl refl) in
      let rest = records_of-found_records mark ks (λ q at. h q (inr at)) in rw (found, rest) refl

  module _ (boxes : List (BoundingBox R)) (bb : BoundingBox R) (theta2 : R) (max_depth : ℕ) where
    Kept-visit_found :
        (k : OctreeKey) (o : Option (OctreeNode R)) (keep keep2 : P.Map)
        → lookup (octree_sharding H) tree k ≡ o
        → visit_found H P elements tree boxes bb theta2 max_depth k o keep ≡ settled keep2
        → Kept keep
        → Kept keep2
    unfolding visit_found
    Kept-visit_found k none keep keep2 found h kept = subst Kept (settled_inj keep keep2 h) kept
    Kept-visit_found k (some node) keep keep2 found h kept =
        subst Kept
          (settled_last (opens H P elements tree boxes bb theta2 max_depth k node)
            (P.insert_or_assign keep k tt) (map (child_key k) (octants_of node.child_mask)) keep2 h)
          (Kept-insert_or_assign k node keep found kept)

    descend_keys-Kept : Kept (descend_keys H P elements tree boxes bb theta2 max_depth)
    unfolding descend_keys visit_key Kept
    descend_keys-Kept =
        descend_all-keeps (visit_key H P elements tree boxes bb theta2 max_depth) Kept
          (λ k keep keep2 h.
            Kept-visit_found k (lookup (octree_sharding H) tree k) keep keep2 refl h)
          (levels H P elements tree boxes bb theta2 max_depth)
          (first_key H P elements tree boxes bb theta2 max_depth
            (lookup (octree_sharding H) tree root_key))
          P.empty (λ q. inl (P.find-empty q))

    -- When the traversal depth is at most 21 and `elements` lists keys of the set only,
    -- createInteractionListForRank returns, without an exception and without losing a key for want of
    -- room on its stack: nothing when the tree or the boxes are empty, else a record of each key that
    -- the recursive descent from the root keeps, with the mass and the centre of mass of its node.
    pub create_interaction_list_for_rank-found_records :
        max_depth ≤ 21
        → ((keep : P.Map) (k : OctreeKey) → Has k (elements keep) → P.find keep k ≡ some tt)
        → (mark : Bool)
        → create_interaction_list_for_rank H P elements tree boxes bb theta2 max_depth mark
          ≡ finished (
              some (
                if is_empty (octree_sharding H) tree || no_boxes boxes
                then []
                else found_records mark
                    (elements (descend_keys H P elements tree boxes bb theta2 max_depth))))
    unfolding create_interaction_list_for_rank map_outcome Kept
    create_interaction_list_for_rank-found_records shallow listed mark =
        let keep = descend_keys H P elements tree boxes bb theta2 max_depth in
        let found = λ (k : OctreeKey) (at : Has k (elements keep)).
          in_tree k (listed keep k at) (descend_keys-Kept k) in
        elim (Bool-cases (is_empty (octree_sharding H) tree || no_boxes boxes)) [
          | inl nothing ↦ rw nothing refl
          | inr some_node ↦
              rw
                (
                  some_node,
                  keep_keys-descend_keys H P elements tree boxes bb theta2 max_depth shallow,
                  records_of-found_records mark (elements keep) found,
                )
                refl
        ]
