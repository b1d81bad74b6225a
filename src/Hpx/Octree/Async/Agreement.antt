-- ===== src/Hpx/Octree/Async/Agreement.antt =====
-- The task-parallel build gives what the serial one gives.
use amt_bh_benchmark.Base.{
  ℕ, zero, suc, ◌-◌, ◌≡◌, refl, List, [], ◌∷◌, ◌++◌, ltb, leb, if◌then◌else◌, Bool-cases, inl, inr,
  ap, ap₂, sym, ◌∙◌, append_assoc, append-nil,
}
use amt_bh_benchmark.Base.Real.{Real}
use amt_bh_benchmark.Hpx.Octree.{
  Inputs, Built, Swept, sweep, sweep_round, build_subtree_serial, no_agg, add_agg, run_end,
  child_prefix, set_octant, internal_out,
}
use amt_bh_benchmark.Hpx.Octree.Steps.{build_many, no_children, children, as_internal}
use amt_bh_benchmark.Hpx.Octree.Async.{
  Chunk, Chunks, chunk, none_left, and_then, SubtreeResult, Range, Ranges, Combined, collect_bufs,
  collect_children, push_chunk, sweep_ranges, combine, serial_result, build_subtree_async,
}

module _ {R : Type 0} where
  collect_children-push_chunk :
      (cs : Chunks R) (c : Chunk R)
      → collect_children (push_chunk cs c) ≡ collect_children cs ++ collect_bufs c
  unfolding collect_bufs push_chunk
  collect_children-push_chunk none_left c = append-nil (collect_bufs c)
  collect_children-push_chunk (and_then d ds) c =
      rw (collect_children-push_chunk ds c)
        (sym (append_assoc (collect_bufs d) (collect_children ds) (collect_bufs c)))

module _ {R : Type 0} ⦃real : Real R⦄ where
  combine-append :
      (build : ℕ → ℕ → ℕ → SubtreeResult R) (ps qs : List Range) (c : Combined R)
      → combine build (ps ++ qs) c ≡ combine build qs (combine build ps c)
  unfolding combine
  combine-append build [] qs c = refl
  combine-append build (p ∷ ps) qs c = combine-append build ps qs _

  -- Two results that a caller cannot tell apart.
  pub record Agrees (b : Built R) (r : SubtreeResult R) : Type 0 where
    pub same_agg : r.agg ≡ b.agg
    pub same_out : collect_bufs r.chunk ≡ b.out

  -- The ranges collected so far, combined, give what the serial loop has so far.
  -- The ranges collected so far, combined, give what the serial loop has so far.
  record Follows (build : ℕ → ℕ → ℕ → SubtreeResult R) (start : Combined R) (r : Ranges)
      (s : Swept R) : Type 0 where
    agg : (combine build r.ranges start).agg ≡ s.agg
    out : collect_children (combine build r.ranges start).children ≡ s.out
    mask : r.mask ≡ s.mask

module _ {R : Type 0} ⦃real : Real R⦄ (serial : ℕ → ℕ → ℕ → Built R)
    (async : ℕ → ℕ → ℕ → SubtreeResult R)
    (same : (prefix lo hi : ℕ) → Agrees (serial prefix lo hi) (async prefix lo hi))
    (start : Combined R) where
  -- One more occupied octant, on both sides.
  range_round : ℕ → ℕ → ℕ → ℕ → ℕ → Ranges → Ranges
  range_round left prefix oc j k r =
      if ltb j k
      then record {
        ranges = r.ranges ++ record { prefix = child_prefix prefix left oc; lo = j; hi = k } ∷ [];
        mask = set_octant r.mask oc;
      }
      else r

  range_round-Follows :
      (left prefix oc j k : ℕ) (r : Ranges) (s : Swept R)
      → Follows async start r s
      → Follows async start
          (range_round left prefix oc j k r)
          (sweep_round serial left prefix oc j k s)
  unfolding range_round sweep_round
  range_round-Follows left prefix oc j k r s f = elim (Bool-cases (ltb j k)) [
    | inl occupied ↦
        let q : Range = record { prefix = child_prefix prefix left oc; lo = j; hi = k } in
        let both = same (child_prefix prefix left oc) j k in
        let last = combine-append async r.ranges (q ∷ []) start in
        rw occupied (record {
          agg = ap (λ t. t.agg) last ∙ unfold combine in ap₂ add_agg f.agg both.same_agg;
          out =
              ap (λ t. collect_children t.children) last
              ∙ unfold combine in
                collect_children-push_chunk (combine async r.ranges start).children
                  (async (child_prefix prefix left oc) j k).chunk
                ∙ ap₂ ◌++◌ f.out both.same_out;
          mask = ap (λ (t : ℕ). set_octant t oc) f.mask;
        })
    | inr empty ↦ rw empty f
  ]

  sweep_ranges-Follows :
      (codes : List ℕ) (left prefix hi octants j : ℕ) (r : Ranges) (s : Swept R)
      → Follows async start r s
      → Follows async start
          (sweep_ranges codes left prefix hi octants j r)
          (sweep serial codes left prefix hi octants j s)
  unfolding sweep_ranges sweep range_round
  sweep_ranges-Follows codes left prefix hi zero j r s f = f
  sweep_ranges-Follows codes left prefix hi (suc octants) j r s f =
      let oc = 7 - octants in
      let k = run_end codes left oc (hi - j) j in
      sweep_ranges-Follows codes left prefix hi octants k _ _
        (range_round-Follows left prefix oc j k r s f)

module _ {R : Type 0} ⦃real : Real R⦄ (cutoff : ℕ) (inp : Inputs R) where
  serial_result-Agrees : (b : Built R) → Agrees b (serial_result b)
  unfolding serial_result collect_bufs
  serial_result-Agrees b = record { same_agg = refl; same_out = refl }

  none_started : Combined R
  none_started = record { agg = no_agg; children = none_left }

  start-Follows :
      (async : ℕ → ℕ → ℕ → SubtreeResult R)
      → Follows async none_started (record { ranges = []; mask = 0 }) (no_children inp)
  unfolding combine collect_children none_started
  start-Follows async = record { agg = refl; out = refl; mask = refl }

  Follows-Agrees :
      (async : ℕ → ℕ → ℕ → SubtreeResult R) (left prefix : ℕ) (r : Ranges) (s : Swept R)
      → Follows async none_started r s
      → let c = combine async r.ranges none_started in
        Agrees (as_internal inp left prefix s) (record {
          agg = c.agg;
          chunk = chunk c.children (internal_out left prefix c.agg r.mask ∷ []);
        })
  unfolding as_internal collect_bufs
  Follows-Agrees async left prefix r s f = record {
    same_agg = f.agg;
    same_out = ap₂ ◌++◌ f.out (ap₂ (λ a m. internal_out left prefix a m ∷ []) f.agg f.mask);
  }

  -- Whatever the task cutoff, the task-parallel build returns the sums of the serial build, and its
  -- buffers, put together in the order of `collectBufs`, are the serial build's buffer.
  pub build_subtree_async-Agrees :
      (left prefix lo hi : ℕ)
      → Agrees
          (build_subtree_serial inp left prefix lo hi)
          (build_subtree_async cutoff inp left prefix lo hi)
  unfolding build_subtree_async none_started children
  build_subtree_async-Agrees zero prefix lo hi = serial_result-Agrees _
  build_subtree_async-Agrees (suc left) prefix lo hi =
      elim (Bool-cases (leb (hi - lo) inp.leaf_capacity)) [
        | inl few ↦ rw few (serial_result-Agrees _)
        | inr many ↦ elim (Bool-cases (leb (hi - lo) cutoff)) [
          | inl small ↦ rw (many, small) (serial_result-Agrees _)
          | inr large ↦
              let f =
                sweep_ranges-Follows (build_subtree_serial inp left)
                  (build_subtree_async cutoff inp left)
                  (λ p l h. build_subtree_async-Agrees left p l h) none_started inp.codes left
                  prefix hi 8 lo (record { ranges = []; mask = 0 }) (no_children inp)
                  (start-Follows _) in
              rw (many, large, build_many inp left prefix lo hi many)
                (Follows-Agrees _ (suc left) prefix _ _ f)
        ]
      ]
