-- ===== src/Hpx/Octree/Sweep.antt =====
-- The octant loop of `buildSubtreeSerial`: over Morton-sorted bodies of one cell it cuts the range
-- into one run for each octant, and ends at the end of the range.
use native.Mathlib.Nat.{one-le-pow, le-div_iff_mul-le, div-mul-le_self, div-div-eq-div-mul}
use amt_bh_benchmark.Base.{
  ℕ, zero, suc, ◌+◌, ◌-◌, ◌*◌, ◌/◌, ◌^◌, ◌<◌, ◌≤◌, ◌≡◌, ◌≢◌, List, ltb, ◌==◌, get_or, arith,
  Bool-cases, inl, inr, ap, sym, ◌∙◌,
}
use amt_bh_benchmark.Base.Bits.{two_pow_add}
use amt_bh_benchmark.Base.Real.{Real}
use amt_bh_benchmark.Hpx.Octree.{Built, Swept, octant, run_end, sweep, sweep_round}

-- `e` ends the longest run of octant oc that starts at k.
pub record IsRun (codes : List ℕ) (left oc k hi e : ℕ) : Type 0 where
  pub after : k ≤ e
  pub within : e ≤ hi
  pub same : (i : ℕ) → k ≤ i → i < e → octant codes left i ≡ oc
  pub stopped : e < hi → octant codes left e ≢ oc

pub run_end-IsRun :
    (codes : List ℕ) (left oc rounds k hi : ℕ)
    → k + rounds ≡ hi
    → IsRun codes left oc k hi (run_end codes left oc rounds k)
unfolding run_end
run_end-IsRun codes left oc zero k hi e = record {
  after = omega arith;
  within = omega arith;
  same = λ i p q. absurd (omega arith);
  stopped = λ p. absurd (omega arith);
}
run_end-IsRun codes left oc (suc rounds) k hi e = elim (Bool-cases (octant codes left k == oc)) [
  | inl hit ↦
      let rest = run_end-IsRun codes left oc rounds (k + 1) hi (omega arith) in
      rw hit (record {
        after = omega (arith, rest.after);
        within = rest.within;
        same = λ i p q. ground (arith, rest.same i);
        stopped = rest.stopped;
      })
  | inr miss ↦ rw miss (record {
    after = omega arith;
    within = omega arith;
    same = λ i p q. absurd (omega arith);
    stopped = λ p q. ground arith;
  })
]

-- The bodies lo to hi are sorted, and agree on the digits above 3 * left: these make the number p.
pub record InCell (codes : List ℕ) (left p lo hi : ℕ) : Type 0 where
  pub shares : (i : ℕ) → lo ≤ i → i < hi → get_or codes i 0 / 2 ^ (3 * left) ≡ p
  pub sorted : (i j : ℕ) → lo ≤ i → i ≤ j → j < hi → get_or codes i 0 ≤ get_or codes j 0

pub div_mono : (a b c : ℕ) → 0 < c → a ≤ b → a / c ≤ b / c
div_mono a b c pos h = (le-div_iff_mul-le {k = c} pos).1 (omega (arith, div-mul-le_self a c))

-- One octal digit further down.
pub octal_split : (a left : ℕ) → a / 2 ^ (3 * suc left) ≡ a / 2 ^ (3 * left) / 8
octal_split a left =
    ap (λ (t : ℕ). a / t) {x = 2 ^ (3 * suc left)} {y = 2 ^ (3 * left) * 8}
      (ap (λ (t : ℕ). 2 ^ t) {x = 3 * suc left} {y = 3 * left + 3} (omega arith)
        ∙ two_pow_add (3 * left) 3)
    ∙ sym (div-div-eq-div-mul a (2 ^ (3 * left)) 8)

module _ (codes : List ℕ) (left p lo hi : ℕ) (cell : InCell codes (suc left) p lo hi) where
  pub octant_ascends :
      (i j : ℕ) → lo ≤ i → i ≤ j → j < hi → octant codes left i ≤ octant codes left j
  octant_ascends i j h k l = omega (
    arith,
    div_mono (get_or codes i 0) (get_or codes j 0) (2 ^ (3 * left))
        (one-le-pow (3 * left) 2 (omega arith)) (cell.sorted i j h k l),
    octal_split (get_or codes i 0) left,
    octal_split (get_or codes j 0) left,
    cell.shares i h (omega arith),
    cell.shares j (omega arith) l,
  )

  -- A run of one octant lies in one child cell.
  pub run-InCell :
      (oc j k : ℕ)
      → lo ≤ j
      → k ≤ hi
      → ((i : ℕ) → j ≤ i → i < k → octant codes left i ≡ oc)
      → InCell codes left (8 * p + oc) j k
  run-InCell oc j k h l same = record {
    shares = λ i a b. omega (
      arith,
      octal_split (get_or codes i 0) left,
      cell.shares i (omega arith) (omega arith),
      same i a b,
    );
    sorted = λ i i' a b c. cell.sorted i i' (omega arith) b (omega arith);
  }

-- The loop rule: what holds at the start, and is kept by each non-empty round, holds at the end of
-- the range, which the loop reaches.
module _ {R : Type 0} ⦃real : Real R⦄ (build : ℕ → ℕ → ℕ → Built R) (codes : List ℕ)
    (left p prefix lo hi : ℕ) (cell : InCell codes (suc left) p lo hi) (P : ℕ → Swept R → Type 0)
    (keep : (oc j k : ℕ) (s : Swept R)
      → oc < 8
      → lo ≤ j
      → j < k
      → k ≤ hi
      → ((i : ℕ) → j ≤ i → i < k → octant codes left i ≡ oc)
      → P j s
      → P k (sweep_round build left prefix oc j k s)) where
  round_keeps :
      (oc j k : ℕ) (s : Swept R)
      → oc < 8
      → lo ≤ j
      → IsRun codes left oc j hi k
      → P j s
      → P k (sweep_round build left prefix oc j k s)
  round_keeps oc j k s small low run h = elim (Bool-cases (ltb j k)) [
    | inl some_left ↦ keep oc j k s small low (ground arith) run.within run.same h
    | inr empty ↦
        let same : k ≡ j = ground (arith, run.after) in unfold sweep_round in rw (empty, same) h
  ]

  sweep_from :
      (octants j : ℕ) (s : Swept R)
      → octants ≤ 8
      → lo ≤ j
      → j ≤ hi
      → ((i : ℕ) → j ≤ i → i < hi → 8 ≤ octant codes left i + octants)
      → P j s
      → P hi (sweep build codes left prefix hi octants j s)
  unfolding sweep
  sweep_from zero j s few low high rest h =
      let reached : j ≡ hi = ground (arith, rest j) in rw (← reached) h
  sweep_from (suc octants) j s few low high rest h =
      let run = run_end-IsRun codes left (7 - octants) (hi - j) j hi (omega arith) in
      let k = run_end codes left (7 - octants) (hi - j) j in
      sweep_from octants k _ (omega arith) (omega (arith, run.after)) run.within
        (λ i a b. ground (
          arith,
          octant_ascends codes left p lo hi cell k i (omega (arith, run.after)) a b,
          rest k run.after,
          run.stopped,
        ))
        (round_keeps (7 - octants) j k s (omega arith) low run h)

  pub sweep_rule : (s : Swept R) → lo ≤ hi → P lo s → P hi (sweep build codes left prefix hi 8 lo s)
  sweep_rule s h start =
      sweep_from 8 lo s (omega arith) (omega arith) h (λ i a b. omega arith) start
