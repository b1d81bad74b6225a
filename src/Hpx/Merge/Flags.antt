-- ===== src/Hpx/Merge/Flags.antt =====
-- The leaf flag of one key under `mergeRecordsIntoTree`, as a fold over the records.
use amt_bh_benchmark.Base.{
  ℕ, ◌≡◌, refl, ap, ◌∙◌, Bool, true, false, not, ◌||◌, ◌&&◌, ◌==◌, if◌then◌else◌, Option, none,
  some, List, [], ◌∷◌, Bool-cases, inl, inr, arith,
}
use amt_bh_benchmark.Base.Real.{Real}
use amt_bh_benchmark.Hpx.Octree.{OctreeKey, OctreeNode}
use amt_bh_benchmark.Hpx.OctreeMap.{octree_key_eqb}
use amt_bh_benchmark.Hpx.ShardedMap.Refinement.{or_default}
use amt_bh_benchmark.Hpx.Merge.{NodeRecord, key_of, merge_node}
use amt_bh_benchmark.Hpx.Merge.View.{mark_view, mark_found, mark_node, parent_key, skips}

pub or_false : (b : Bool) → b ≡ (b || false)
or_false true = refl
or_false false = refl

pub or_assoc : (a b c : Bool) → ((a || b) || c) ≡ (a || (b || c))
or_assoc true b c = refl
or_assoc false b c = refl

pub or_and : (a e n i : Bool) → ((a || (e && i)) || (n && i)) ≡ (a || ((e || n) && i))
or_and true e n i = refl
or_and false true n true = refl
or_and false true n false = ground arith
or_and false false n i = refl

abbrev pub is_internal : Option Bool → Bool
is_internal none = false
is_internal (some b) = not b

abbrev pub present : Option {0} Unit → Bool
present none = false
present (some t) = true

module _ {R : Type 0} ⦃real : Real R⦄ where
  -- The leaf flag of what is found at a key.
  abbrev pub leaf_flag : Option (OctreeNode R) → Option Bool
  leaf_flag none = none
  leaf_flag (some n) = some n.is_leaf

  -- Some record is for the key; some record for the key is a leaf.
  unfoldable pub names : OctreeKey → List (NodeRecord R) → Bool
  names q [] = false
  names q (r ∷ records) = octree_key_eqb q (key_of r) || names q records

  abbrev pub says_leaf : NodeRecord R → Bool
  says_leaf r = not (r.is_leaf == 0)

  unfoldable pub names_leaf : OctreeKey → List (NodeRecord R) → Bool
  names_leaf q [] = false
  names_leaf q (r ∷ records) =
      if octree_key_eqb q (key_of r)
      then says_leaf r || names_leaf q records
      else names_leaf q records

  -- A flag that is there stays; a new node is a leaf if some record for it is.
  unfoldable pub flag_after : OctreeKey → List (NodeRecord R) → Option Bool → Option Bool
  flag_after q records (some b) = some b
  flag_after q records none = if names q records then some (names_leaf q records) else none

  pub merge_node_leaf :
      (p : Bool) (r : NodeRecord R) (n : OctreeNode R)
      → (merge_node p r n).is_leaf ≡ (if p then n.is_leaf else n.is_leaf || says_leaf r)
  unfolding merge_node
  merge_node_leaf p r n = elim (Bool-cases (real.same (real.add n.mass r.mass) real.nought)) [
    | inl zero_mass ↦ rw zero_mass refl
    | inr some_mass ↦ rw some_mass refl
  ]

  -- The flag through the second loop, for a key that is protected or not.
  unfoldable pub flag_view : Bool → OctreeKey → List (NodeRecord R) → Option Bool → Option Bool
  flag_view p q [] f = f
  flag_view p q (r ∷ records) f =
      let old = or_default false f in
      flag_view p q records
        (if octree_key_eqb q (key_of r) then some (if p then old else old || says_leaf r) else f)

  pub flag_view_protected :
      (q : OctreeKey) (records : List (NodeRecord R)) (b : Bool)
      → flag_view true q records (some b) ≡ some b
  unfolding flag_view
  flag_view_protected q [] b = refl
  flag_view_protected q (r ∷ records) b = elim (Bool-cases (octree_key_eqb q (key_of r))) [
    | inl here ↦ rw here (flag_view_protected q records b)
    | inr elsewhere ↦ rw elsewhere (flag_view_protected q records b)
  ]

  pub flag_view_open :
      (q : OctreeKey) (records : List (NodeRecord R)) (b : Bool)
      → flag_view false q records (some b) ≡ some (b || names_leaf q records)
  unfolding flag_view names_leaf
  flag_view_open q [] b = ap some (or_false b)
  flag_view_open q (r ∷ records) b = elim (Bool-cases (octree_key_eqb q (key_of r))) [
    | inl here ↦ rw here (
        flag_view_open q records (b || says_leaf r)
        ∙ ap some (or_assoc b (says_leaf r) (names_leaf q records)))
    | inr elsewhere ↦ rw elsewhere (flag_view_open q records b)
  ]

  pub flag_view_new :
      (q : OctreeKey) (records : List (NodeRecord R))
      → flag_view false q records none
        ≡ (if names q records then some (names_leaf q records) else none)
  unfolding flag_view names_leaf names
  flag_view_new q [] = refl
  flag_view_new q (r ∷ records) = elim (Bool-cases (octree_key_eqb q (key_of r))) [
    | inl here ↦ rw here (flag_view_open q records (says_leaf r))
    | inr elsewhere ↦ rw elsewhere (flag_view_new q records)
  ]

  pub flag_view_unnamed :
      (p : Bool) (q : OctreeKey) (records : List (NodeRecord R)) (f : Option Bool)
      → names q records ≡ false
      → flag_view p q records f ≡ f
  unfolding flag_view names
  flag_view_unnamed p q [] f h = refl
  flag_view_unnamed p q (r ∷ records) f h = elim (Bool-cases (octree_key_eqb q (key_of r))) [
    | inl here ↦ absurd (ground (arith, here, h))
    | inr elsewhere ↦ rw elsewhere (flag_view_unnamed p q records f (ground (arith, elsewhere, h)))
  ]

  -- The second loop with the keys that the first one protects.
  pub flags :
      (q : OctreeKey) (records : List (NodeRecord R)) (f : Option Bool)
      → flag_view (names q records && is_internal f) q records f ≡ flag_after q records f
  unfolding flag_after
  flags q records none = elim (Bool-cases (names q records)) [
    | inr unnamed ↦ rw unnamed (flag_view_unnamed false q records none unnamed)
    | inl named ↦ rw named (flag_view_new q records ∙ rw named refl)
  ]
  flags q records (some true) = elim (Bool-cases (names q records)) [
    | inr unnamed ↦ rw unnamed (flag_view_unnamed false q records (some true) unnamed)
    | inl named ↦ rw named (flag_view_open q records true)
  ]
  flags q records (some false) = elim (Bool-cases (names q records)) [
    | inr unnamed ↦ rw unnamed (flag_view_unnamed false q records (some false) unnamed)
    | inl named ↦ rw named (flag_view_protected q records false)
  ]

  pub mark_found_flag :
      (prefix depth : ℕ) (o : Option (OctreeNode R))
      → leaf_flag (mark_found prefix depth o) ≡ leaf_flag o
  unfolding mark_found mark_node
  mark_found_flag prefix depth none = refl
  mark_found_flag prefix depth (some p) = refl

  pub mark_view_flag :
      (records : List (NodeRecord R)) (q : OctreeKey) (o : Option (OctreeNode R))
      → leaf_flag (mark_view records q o) ≡ leaf_flag o
  unfolding mark_view
  mark_view_flag [] q o = refl
  mark_view_flag (r ∷ records) q o = mark_view_flag records q _ ∙ (elim (Bool-cases (skips r)) [
    | inl skip ↦ rw skip refl
    | inr marks ↦ elim (Bool-cases (octree_key_eqb q (parent_key r.prefix r.depth))) [
      | inl here ↦ rw (marks, here) (mark_found_flag r.prefix r.depth o)
      | inr elsewhere ↦ rw (marks, elsewhere) refl
    ]
  ])
