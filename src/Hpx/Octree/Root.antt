-- ===== src/Hpx/Octree/Root.antt =====
-- The call of the build in `buildOctreeBottomUp`, up to the filling of the map: the nodes that the
-- map is filled from, in the order in which the buffers are collected.
use amt_bh_benchmark.Base.{
  ℕ, zero, suc, ◌^◌, ◌<◌, ◌≤◌, ◌≡◌, List, [], ◌∷◌, ◌==◌, if◌then◌else◌, get_or, length, range_from,
  arith, All, ap, ◌∙◌, Bool-cases, inl, inr,
}
use amt_bh_benchmark.Base.Real.{Real}
use amt_bh_benchmark.Hpx.Octree.{Inputs, NodeOut, bh_max_depth}
use amt_bh_benchmark.Hpx.Octree.Sweep.{InCell}
use amt_bh_benchmark.Hpx.Octree.Partition.{listed, listed-nil, listed-build_subtree_serial}
use amt_bh_benchmark.Hpx.Octree.Async.{collect_bufs, build_subtree_async}
use amt_bh_benchmark.Hpx.Octree.Async.Agreement.{build_subtree_async-Agrees}

pub build_nodes : {R : Type 0} ⦃real : Real R⦄ → ℕ → Inputs R → List (NodeOut R)
build_nodes cutoff inp =
    let n = length inp.codes in
    let root = build_subtree_async cutoff inp bh_max_depth 0 0 n in
    if n == 0 then [] else collect_bufs root.chunk

-- The codes stand in ascending order.
abbrev pub Ascending : List ℕ → Type 0
Ascending [] = Unit
Ascending (x ∷ []) = Unit
Ascending (x ∷ y ∷ xs) = (x ≤ y) × Ascending (y ∷ xs)

abbrev pub AreCodes : List ℕ → Type 0
AreCodes codes = All (λ c. c < 2 ^ 63) codes × Ascending codes

Ascending-get_or :
    (xs : List ℕ) (i j : ℕ) → Ascending xs → i ≤ j → j < length xs → get_or xs i 0 ≤ get_or xs j 0
Ascending-get_or [] i j a h k = absurd (omega arith)
Ascending-get_or (x ∷ []) zero zero a h k = omega arith
Ascending-get_or (x ∷ []) i (suc j) a h k = absurd (omega arith)
Ascending-get_or (x ∷ []) (suc i) zero a h k = absurd (omega arith)
Ascending-get_or (x ∷ y ∷ xs) zero zero a h k = omega arith
Ascending-get_or (x ∷ y ∷ xs) zero (suc j) a h k =
    omega (arith, a.0, Ascending-get_or (y ∷ xs) 0 j a.1 (omega arith) (omega arith))
Ascending-get_or (x ∷ y ∷ xs) (suc i) zero a h k = absurd (omega arith)
Ascending-get_or (x ∷ y ∷ xs) (suc i) (suc j) a h k =
    Ascending-get_or (y ∷ xs) i j a.1 (omega arith) (omega arith)

All-get_or : (n : ℕ) (xs : List ℕ) (i : ℕ) → All (λ c. c < n) xs → i < length xs → get_or xs i 0 < n
All-get_or n [] i a h = absurd (omega arith)
All-get_or n (x ∷ xs) zero a h = a.0
All-get_or n (x ∷ xs) (suc i) a h = All-get_or n xs i a.1 (omega arith)

root-InCell : (codes : List ℕ) → AreCodes codes → InCell codes 21 0 0 (length codes)
root-InCell codes a = record {
  shares = λ i p q. omega (arith, All-get_or (2 ^ 63) codes i a.0 q);
  sorted = λ i j p q r. Ascending-get_or codes i j a.1 q r;
}

-- For sorted 63-bit codes of fewer than 2^32 bodies, whatever the leaf capacity and the task cutoff,
-- the leaves of the built tree list each body exactly once, in ascending order.
pub listed-build_nodes :
    {R : Type 0} ⦃real : Real R⦄ (cutoff : ℕ) (inp : Inputs R)
    → AreCodes inp.codes
    → length inp.codes < 2 ^ 32
    → listed (build_nodes cutoff inp) ≡ range_from 0 (length inp.codes)
unfolding build_nodes
listed-build_nodes cutoff inp a fits = elim (Bool-cases (length inp.codes == 0)) [
  | inl empty ↦
      let none_there : length inp.codes ≡ 0 = ground arith in
      rw (empty, none_there) (listed-nil inp)
  | inr some_there ↦
      rw (some_there, (build_subtree_async-Agrees cutoff inp 21 0 0 (length inp.codes)).same_out)
        (listed-build_subtree_serial inp 21 0 0 0 (length inp.codes) (root-InCell inp.codes a)
            (omega arith) fits
          ∙ ap (range_from 0) (omega arith))
]
