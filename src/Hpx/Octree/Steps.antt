-- ===== src/Hpx/Octree/Steps.antt =====
-- `buildSubtreeSerial` by cases, for proofs that keep it shut.
use amt_bh_benchmark.Base.{ℕ, suc, ◌-◌, ◌≡◌, refl, [], ◌∷◌, ◌++◌, leb, true, false}
use amt_bh_benchmark.Base.Real.{Real}
use amt_bh_benchmark.Hpx.Octree.{
  Inputs, Built, Swept, leaf_out, internal_out, sweep, build_subtree_serial, no_agg, sum_bodies,
}

module _ {R : Type 0} ⦃real : Real R⦄ (inp : Inputs R) where
  abbrev pub as_leaf : ℕ → ℕ → ℕ → ℕ → Built R
  as_leaf left prefix lo hi =
      let a = sum_bodies inp (hi - lo) lo no_agg in
      record { out = leaf_out left prefix lo hi a ∷ []; agg = a }

  abbrev pub no_children : Swept R
  no_children = record { out = []; agg = no_agg; mask = 0 }

  -- The children of a cell with `left` levels below them.
  unfoldable pub children : ℕ → ℕ → ℕ → ℕ → Swept R
  children left prefix lo hi =
      sweep (build_subtree_serial inp left) inp.codes left prefix hi 8 lo no_children

  unfoldable pub as_internal : ℕ → ℕ → Swept R → Built R
  as_internal left prefix s = record {
    out = s.out ++ internal_out left prefix s.agg s.mask ∷ [];
    agg = s.agg;
  }

  pub build_deepest :
      (prefix lo hi : ℕ) → build_subtree_serial inp 0 prefix lo hi ≡ as_leaf 0 prefix lo hi
  unfolding build_subtree_serial
  build_deepest prefix lo hi = refl

  pub build_few :
      (left prefix lo hi : ℕ)
      → leb (hi - lo) inp.leaf_capacity ≡ true
      → build_subtree_serial inp (suc left) prefix lo hi ≡ as_leaf (suc left) prefix lo hi
  unfolding build_subtree_serial
  build_few left prefix lo hi e = rw e

  pub build_many :
      (left prefix lo hi : ℕ)
      → leb (hi - lo) inp.leaf_capacity ≡ false
      → build_subtree_serial inp (suc left) prefix lo hi
        ≡ as_internal (suc left) prefix (children left prefix lo hi)
  unfolding build_subtree_serial children as_internal
  build_many left prefix lo hi e = rw e
