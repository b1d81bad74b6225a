-- ===== src/Hpx/Octree/Async.antt =====
-- `buildSubtreeAsync` and `collectBufs` of hpx/src/linear_octree.cpp. Tasks of independent subtrees
-- have no shared state, so a future is its value: what is modelled is how the results are put
-- together. The task cutoff is a parameter.
pub mod Agreement
use amt_bh_benchmark.Base.{
  ℕ, zero, suc, ◌+◌, ◌-◌, ◌≡◌, refl, List, [], ◌∷◌, ◌++◌, ltb, leb, if◌then◌else◌, Bool, true,
  false, ◌||◌, Bool-cases, inl, inr, ap, sym, ◌∙◌, append_assoc, append-nil, arith,
}
use amt_bh_benchmark.Base.Real.{Real}
use amt_bh_benchmark.Hpx.Octree.{
  Inputs, NodeOut, Built, Swept, Agg, sweep, sweep_round, build_subtree_serial, no_agg, add_agg,
  run_end, child_prefix, set_octant, internal_out,
}
use amt_bh_benchmark.Hpx.Octree.Steps.{
  build_deepest, build_few, build_many, no_children, children, as_internal,
}

-- The buffers of a subtree: those of its children, and its own.
mutual
  pub data Chunk (R : Type 0) : Type 0 where
    chunk : Chunks R → List (NodeOut R) → Chunk R

  pub data Chunks (R : Type 0) : Type 0 where
    none_left : Chunks R
    and_then : Chunk R → Chunks R → Chunks R

pub record SubtreeResult (R : Type 0) : Type 0 where
  pub agg : Agg R
  pub chunk : Chunk R

pub record Range : Type 0 where
  pub prefix : ℕ
  pub lo : ℕ
  pub hi : ℕ

-- What the sweep collects: the occupied octants in ascending order, and child_mask.
pub record Ranges : Type 0 where
  pub ranges : List Range
  pub mask : ℕ

module _ {R : Type 0} where
  mutual
    -- `collectBufs` walks the children, then the own buffer; an empty buffer adds nothing.
    pub collect_bufs : Chunk R → List (NodeOut R)
    collect_bufs (chunk cs own) = collect_children cs ++ own

    pub collect_children : Chunks R → List (NodeOut R)
    collect_children none_left = []
    collect_children (and_then c cs) = collect_bufs c ++ collect_children cs

  -- `r.chunk.children.push_back(...)`
  pub push_chunk : Chunks R → Chunk R → Chunks R
  push_chunk none_left c = and_then c none_left
  push_chunk (and_then d ds) c = and_then d (push_chunk ds c)

-- The sweep of `buildSubtreeAsync`, which records the ranges instead of recursing.
pub sweep_ranges : List ℕ → ℕ → ℕ → ℕ → ℕ → ℕ → Ranges → Ranges
sweep_ranges codes left prefix hi zero j r = r
sweep_ranges codes left prefix hi (suc octants) j r =
    let oc = 7 - octants in
    let k = run_end codes left oc (hi - j) j in
    sweep_ranges codes left prefix hi octants k (
      if ltb j k
      then record {
        ranges = r.ranges ++ record { prefix = child_prefix prefix left oc; lo = j; hi = k } ∷ [];
        mask = set_octant r.mask oc;
      }
      else r)

-- The children's results so far, while the dataflow combines them.
pub record Combined (R : Type 0) : Type 0 where
  pub agg : Agg R
  pub children : Chunks R

module _ {R : Type 0} ⦃real : Real R⦄ where
  -- The loop over the children's futures, in the order of the ranges.
  pub combine : (ℕ → ℕ → ℕ → SubtreeResult R) → List Range → Combined R → Combined R
  combine build [] c = c
  combine build (q ∷ qs) c =
      let r = build q.prefix q.lo q.hi in
      combine build qs
        (record { agg = add_agg c.agg r.agg; children = push_chunk c.children r.chunk })

  pub serial_result : Built R → SubtreeResult R
  serial_result b = record { agg = b.agg; chunk = chunk none_left b.out }

  pub build_subtree_async : ℕ → Inputs R → ℕ → ℕ → ℕ → ℕ → SubtreeResult R
  build_subtree_async cutoff inp zero prefix lo hi =
      serial_result (build_subtree_serial inp zero prefix lo hi)
  build_subtree_async cutoff inp (suc left) prefix lo hi =
      let rs = sweep_ranges inp.codes left prefix hi 8 lo (record { ranges = []; mask = 0 }) in
      let c =
        combine (build_subtree_async cutoff inp left) rs.ranges
          (record { agg = no_agg; children = none_left }) in
      if leb (hi - lo) inp.leaf_capacity || leb (hi - lo) cutoff
      then serial_result (build_subtree_serial inp (suc left) prefix lo hi)
      else record {
        agg = c.agg;
        chunk = chunk c.children (internal_out (suc left) prefix c.agg rs.mask ∷ []);
      }
