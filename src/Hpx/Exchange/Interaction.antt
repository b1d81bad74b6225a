-- ===== src/Hpx/Exchange/Interaction.antt =====
-- The walk of createInteractionListForRank against the recursive descent into the tree.
use amt_bh_benchmark.Base.{
  ℕ, suc, ◌+◌, ◌-◌, ◌/◌, ◌%◌, ◌^◌, ◌≤◌, Bool, true, false, ltb, ◌==◌, if◌then◌else◌, Option, none,
  some, List, [], ◌∷◌, map, select, length, length-map, range_from, All, Bool-cases, inl, inr, ◌≡◌,
  refl, ap, subst, arith,
}
use native.Mathlib.Nat.{pow-le-pow_right}
use amt_bh_benchmark.Base.Eq.{HashMap}
use amt_bh_benchmark.Base.Real.{Real}
use amt_bh_benchmark.Hpx.Octree.{OctreeKey, OctreeNode}
use amt_bh_benchmark.Hpx.OctreeMap.{octree_key_eq, octree_sharding, OctreeMap}
use amt_bh_benchmark.Hpx.ShardedMap.{lookup}
use amt_bh_benchmark.Hpx.Scene.{BoundingBox}
use amt_bh_benchmark.Hpx.Walk.{settled, opened, finished, push_all, push_what_fits, stack_max}
use amt_bh_benchmark.Hpx.Walk.Descent.{descend_all, Fits, weight, walk-descend_all}
use amt_bh_benchmark.Hpx.Traversal.{walk_fuel}
use amt_bh_benchmark.Hpx.Traversal.Acceptance.{not_opened, opened_inj}
use amt_bh_benchmark.Hpx.Exchange.{
  octants_of, child_key, root_key, opens, visit_found, visit_key, first_key, keep_keys,
}

push_what_fits_room :
    {I : Type 0} (cs s : List I)
    → length s + length cs ≤ stack_max
    → push_what_fits cs s ≡ push_all cs s
unfolding push_what_fits push_all
push_what_fits_room [] s room = refl
push_what_fits_room (c ∷ cs) s room =
    let fits : ltb (length s) stack_max ≡ true = ground (arith, room) in
    rw fits (push_what_fits_room cs (c ∷ s) (omega (arith, room)))

length-select : (p : ℕ → Bool) (xs : List ℕ) → length (select p xs) ≤ length xs
length-select p [] = omega arith
length-select p (x ∷ xs) = elim (Bool-cases (p x)) [
  | inl yes_p ↦ rw yes_p (omega (arith, length-select p xs))
  | inr no_p ↦ rw no_p (omega (arith, length-select p xs))
]

pub length-octants_of : (mask : ℕ) → length (octants_of mask) ≤ 8
unfolding octants_of
length-octants_of mask = length-select (λ oc. mask / 2 ^ oc % 2 == 1) (range_from 0 8)

All-map_child :
    (P : OctreeKey → Type 0) (f : ℕ → OctreeKey) (xs : List ℕ)
    → ((x : ℕ) → P (f x))
    → All P (map f xs)
All-map_child P f [] h = tt
All-map_child P f (x ∷ xs) h = (h x, All-map_child P f xs h)

-- A branch that opens the node was taken where the node is opened.
opened_first :
    {I A : Type 0} (b : Bool) (a : A) (cs ds : List I)
    → (if b then opened cs else settled a) ≡ opened ds
    → (b ≡ true) × (cs ≡ ds)
opened_first true a cs ds h = (refl, opened_inj cs ds h)
opened_first false a cs ds h = absurd (not_opened a ds h)

module _ {R : Type 0} ⦃real : Real R⦄ (H : HashMap OctreeKey (OctreeNode R) octree_key_eq)
    (P : HashMap OctreeKey Unit octree_key_eq) (elements : P.Map → List OctreeKey)
    (tree : OctreeMap H) where
  module _ (boxes : List (BoundingBox R)) (bb : BoundingBox R) (theta2 : R) (max_depth : ℕ) where
    -- The levels that the traversal may still open.
    abbrev pub levels : OctreeKey → ℕ
    levels k = max_depth - k.depth

    opens_depth :
        (k : OctreeKey) (node : OctreeNode R)
        → opens H P elements tree boxes bb theta2 max_depth k node ≡ true
        → ltb k.depth max_depth ≡ true
    unfolding opens
    opens_depth k node h = ground (arith, h)

    visit_found-opens :
        max_depth ≤ 21
        → (k : OctreeKey) (o : Option (OctreeNode R)) (keep : P.Map) (cs : List OctreeKey)
        → visit_found H P elements tree boxes bb theta2 max_depth k o keep ≡ opened cs
        → (l : ℕ) × (levels k ≡ suc l) × (length cs ≤ 8) × All (λ c. levels c ≡ l) cs
    unfolding visit_found
    visit_found-opens shallow k none keep cs h = absurd (not_opened keep cs h)
    visit_found-opens shallow k (some node) keep cs h =
        let (yes_opens, same_children) =
          opened_first (opens H P elements tree boxes bb theta2 max_depth k node)
            (P.insert_or_assign keep k tt) (map (child_key k) (octants_of node.child_mask)) cs h in
        let above : k.depth + 1 ≤ max_depth = ground (arith, opens_depth k node yes_opens) in
        let no_wrap : (k.depth + 1) % 2 ^ 8 ≡ k.depth + 1 = omega (arith, above, shallow) in
        (
          levels k - 1,
          omega (arith, above),
          subst (λ ds. length ds ≤ 8) same_children
              (rw (length-map (octants_of node.child_mask) (child_key k))
                (length-octants_of node.child_mask)),
          subst (All (λ c. levels c ≡ levels k - 1)) same_children (
              All-map_child (λ c. levels c ≡ levels k - 1) (child_key k)
                (octants_of node.child_mask) (λ oc. omega (arith, no_wrap, above))),
        )

    -- The keys that the descent from the root keeps, by recursion on the levels below max_depth.
    unfoldable pub descend_keys : P.Map
    descend_keys =
        descend_all levels (visit_key H P elements tree boxes bb theta2 max_depth)
          (first_key H P elements tree boxes bb theta2 max_depth
            (lookup (octree_sharding H) tree root_key))
          P.empty

    first_key-Fits :
        max_depth ≤ 21
        → (o : Option (OctreeNode R))
        → Fits levels 147 (first_key H P elements tree boxes bb theta2 max_depth o)
          × (weight levels (first_key H P elements tree boxes bb theta2 max_depth o) ≤ walk_fuel)
    unfolding first_key Fits weight
    first_key-Fits shallow none = (tt, omega arith)
    first_key-Fits shallow (some n) = (
      (omega (arith, shallow), tt),
      omega (
        arith,
        pow-le-pow_right {n = 9} (omega arith) {i = max_depth - 0} {j = 21}
            (omega (arith, shallow)),
      ),
    )

    pub keep_keys-descend_keys :
        max_depth ≤ 21
        → keep_keys H P elements tree boxes bb theta2 max_depth ≡ finished descend_keys
    unfolding keep_keys descend_keys visit_key
    keep_keys-descend_keys shallow =
        let start = first_key-Fits shallow (lookup (octree_sharding H) tree root_key) in
        walk-descend_all levels (visit_key H P elements tree boxes bb theta2 max_depth)
          (λ cs s. some (push_what_fits cs s)) 147
          (λ cs s room. ap some (push_what_fits_room cs s (omega (arith, room))))
          (λ k keep cs h. visit_found-opens shallow k (lookup (octree_sharding H) tree k) keep cs h)
          (first_key H P elements tree boxes bb theta2 max_depth
            (lookup (octree_sharding H) tree root_key))
          walk_fuel P.empty start.0 start.1
