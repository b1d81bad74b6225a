-- ===== src/Hpx/Octree/Partition.antt =====
-- The leaves of the built subtree share out its bodies.
use amt_bh_benchmark.Base.{
  ℕ, zero, suc, ◌+◌, ◌-◌, ◌*◌, ◌%◌, ◌^◌, ◌<◌, ◌≤◌, ◌≡◌, refl, List, [], ◌∷◌, ◌++◌, leb,
  if◌then◌else◌, range_from, arith, Bool-cases, lt→ltb, inl, inr, ap, ap₂, sym, ◌∙◌, append_assoc,
  append-nil,
}
use amt_bh_benchmark.Base.Real.{Real}
use amt_bh_benchmark.Hpx.Octree.{
  Inputs, NodeOut, OctreeNode, Built, Swept, Agg, leaf_out, internal_out, finalize_com, sweep_round,
  build_subtree_serial, child_prefix,
}
use amt_bh_benchmark.Hpx.Octree.Steps.{
  build_deepest, build_few, build_many, no_children, children, as_internal,
}
use amt_bh_benchmark.Hpx.Octree.Sweep.{InCell, run-InCell, sweep_rule}

pub range_from-append :
    (m n lo : ℕ) → range_from lo m ++ range_from (lo + m) n ≡ range_from lo (m + n)
range_from-append zero n lo =
    ap₂ range_from {x = lo + 0} {y = lo} {u = n} {v = 0 + n} (omega arith) (omega arith)
range_from-append (suc m) n lo =
    let count : suc m + n ≡ suc (m + n) = omega arith in
    let next : lo + suc m ≡ lo + 1 + m = omega arith in
    rw (count, next) (ap (◌∷◌ lo) (range_from-append m n (lo + 1)))

module _ {R : Type 0} where
  -- The body indices that a node lists, and all that a buffer lists, in its order.
  abbrev pub listed_by : OctreeNode R → List ℕ
  listed_by n = if n.is_leaf then range_from n.body_begin n.body_count else []

  pub listed : List (NodeOut R) → List ℕ
  listed [] = []
  listed (e ∷ out) = listed_by e.node ++ listed out

  pub listed-nil : (inp : Inputs R) → listed [] ≡ []
  unfolding listed
  listed-nil inp = refl

  pub listed-append : (xs ys : List (NodeOut R)) → listed (xs ++ ys) ≡ listed xs ++ listed ys
  unfolding listed
  listed-append [] ys = refl
  listed-append (e ∷ xs) ys =
      rw (listed-append xs ys) (sym (append_assoc (listed_by e.node) (listed xs) (listed ys)))

module _ {R : Type 0} ⦃real : Real R⦄ where
  listed_by-finalize_com : (n : OctreeNode R) → listed_by (finalize_com n) ≡ listed_by n
  unfolding finalize_com
  listed_by-finalize_com n = elim (Bool-cases (real.lt real.nought n.mass)) [
    | inl heavy ↦ rw heavy
    | inr massless ↦ rw massless
  ]

  listed-leaf_out :
      (left prefix lo hi : ℕ) (a : Agg R)
      → lo ≤ hi
      → hi < 2 ^ 32
      → listed (leaf_out left prefix lo hi a ∷ []) ≡ range_from lo (hi - lo)
  unfolding listed leaf_out
  listed-leaf_out left prefix lo hi a order h =
      let first : lo % 2 ^ 32 ≡ lo = omega arith in
      let count : (hi - lo) % 2 ^ 32 ≡ hi - lo = omega arith in
      rw (listed_by-finalize_com, append-nil, first, count)

  listed-internal_out :
      (left prefix mask : ℕ) (a : Agg R) → listed (internal_out left prefix a mask ∷ []) ≡ []
  unfolding listed internal_out
  listed-internal_out left prefix mask a = rw (listed_by-finalize_com, append-nil)

  listed-sweep_round :
      (build : ℕ → ℕ → ℕ → Built R) (left prefix oc lo j k : ℕ) (s : Swept R)
      → lo ≤ j
      → j < k
      → listed (build (child_prefix prefix left oc) j k).out ≡ range_from j (k - j)
      → listed s.out ≡ range_from lo (j - lo)
      → listed (sweep_round build left prefix oc j k s).out ≡ range_from lo (k - lo)
  unfolding sweep_round
  listed-sweep_round build left prefix oc lo j k s low some_left new old =
      let start : j ≡ lo + (j - lo) = omega arith in
      let count : j - lo + (k - j) ≡ k - lo = omega arith in
      rw (lt→ltb j k some_left, listed-append, old, new)
        (ap (λ (t : ℕ). range_from lo (j - lo) ++ range_from t (k - j)) start
          ∙ range_from-append (j - lo) (k - j) lo
          ∙ ap (range_from lo) count)

module _ {R : Type 0} ⦃real : Real R⦄ (inp : Inputs R) where
  listed-no_children : (lo : ℕ) → listed (no_children inp).out ≡ range_from lo (lo - lo)
  unfolding listed
  listed-no_children lo = ap (range_from lo) {x = 0} {y = lo - lo} (omega arith)

  -- Every body of the cell is listed by exactly one leaf of what the build appends for it, and the
  -- leaves list the bodies in ascending order: put together, lo, lo + 1, ..., hi - 1.
  pub listed-build_subtree_serial :
      (left p prefix lo hi : ℕ)
      → InCell inp.codes left p lo hi
      → lo ≤ hi
      → hi < 2 ^ 32
      → listed (build_subtree_serial inp left prefix lo hi).out ≡ range_from lo (hi - lo)
  unfolding children as_internal
  listed-build_subtree_serial zero p prefix lo hi cell h fits =
      rw (build_deepest inp prefix lo hi) (listed-leaf_out zero prefix lo hi _ h fits)
  listed-build_subtree_serial (suc left) p prefix lo hi cell h fits =
      elim (Bool-cases (leb (hi - lo) inp.leaf_capacity)) [
        | inl few ↦
            rw (build_few inp left prefix lo hi few)
              (listed-leaf_out (suc left) prefix lo hi _ h fits)
        | inr many ↦
            rw
              (
                build_many inp left prefix lo hi many,
                listed-append,
                listed-internal_out,
                append-nil,
              )
              (sweep_rule (build_subtree_serial inp left) inp.codes left p prefix lo hi cell
                (λ j s. listed s.out ≡ range_from lo (j - lo))
                (λ oc j k s small low some_left high same old.
                  listed-sweep_round (build_subtree_serial inp left) left prefix oc lo j k s low
                    some_left
                    (listed-build_subtree_serial left (8 * p + oc) _ j k
                      (run-InCell inp.codes left p lo hi cell oc j k low high same) (omega arith)
                      (omega arith))
                    old)
                (no_children inp) h (listed-no_children lo))
      ]
