-- ===== src/Hpx/LoadBalance/Splitters.antt =====
-- The splitters cut the buckets into ranges of ranks, in the balance that they are chosen for.
use amt_bh_benchmark.Base.{
  ℕ, zero, suc, ◌+◌, ◌-◌, ◌*◌, ◌<◌, ◌≤◌, ◌≡◌, refl, sym, ap, subst, ◌∙◌, ltb, leb, List, [], ◌∷◌,
  ◌++◌, length, take, get_or, length-append, append_assoc, arith, Bool-cases, inl, inr,
}
use amt_bh_benchmark.Hpx.LoadBalance.{choose_splitters, upper_bound, sum}

pub upper_bound-le : (splitters : List ℕ) (i : ℕ) → upper_bound splitters i ≤ length splitters
unfolding upper_bound
upper_bound-le [] i = omega arith
upper_bound-le (s ∷ splitters) i = ground (arith, upper_bound-le splitters i)

-- upto n is the number of bodies in the first n buckets, here from bucket i on.
Counts : (ℕ → ℕ) → ℕ → List ℕ → Type 0
Counts upto i [] = Unit
Counts upto i (h ∷ hist) = (upto (i + 1) ≡ upto i + h) × Counts upto (i + 1) hist

-- The splitters chosen so far, when the loop stands at bucket i.
pub record IsCutAt (size ideal : ℕ) (upto : ℕ → ℕ) (i : ℕ) (splitters : List ℕ) : Type 0 where
  pub few : length splitters ≤ size - 1
  pub below : (k : ℕ) → k < length splitters → get_or splitters k 0 < i
  pub ascends :
      (k : ℕ) → suc k < length splitters → get_or splitters k 0 < get_or splitters (suc k) 0
  pub reached : (k : ℕ) → k < length splitters → (k + 1) * ideal ≤ upto (get_or splitters k 0 + 1)

get_or-append_low : (xs ys : List ℕ) (k : ℕ) → k < length xs → get_or (xs ++ ys) k 0 ≡ get_or xs k 0
get_or-append_low [] ys k h = absurd (omega arith)
get_or-append_low (x ∷ xs) ys zero h = refl
get_or-append_low (x ∷ xs) ys (suc k) h = get_or-append_low xs ys k (omega arith)

get_or-append_end : (xs : List ℕ) (y : ℕ) → get_or (xs ++ y ∷ []) (length xs) 0 ≡ y
get_or-append_end [] y = refl
get_or-append_end (x ∷ xs) y = get_or-append_end xs y

module _ (size ideal : ℕ) (upto : ℕ → ℕ) where
  later_cut :
      (i j : ℕ) (splitters : List ℕ)
      → i ≤ j
      → IsCutAt size ideal upto i splitters
      → IsCutAt size ideal upto j splitters
  later_cut i j splitters h0 c = record {
    few = c.few;
    below = λ k h. omega (arith, c.below k h);
    ascends = c.ascends;
    reached = c.reached;
  }

  next_cut :
      (i : ℕ) (splitters : List ℕ)
      → IsCutAt size ideal upto i splitters
      → length splitters < size - 1
      → (length splitters + 1) * ideal ≤ upto (i + 1)
      → IsCutAt size ideal upto (i + 1) (splitters ++ i ∷ [])
  next_cut i splitters c room reached =
      let total = length-append splitters (i ∷ []) in
      let end = get_or-append_end splitters i in
      let low = λ (k : ℕ) (h : k < length splitters). get_or-append_low splitters (i ∷ []) k h in
      let at_end = λ (k : ℕ) (e : k ≡ length splitters).
        ap (λ (t : ℕ). get_or (splitters ++ i ∷ []) t 0) e ∙ end in
      record {
        few = omega (arith, total);
        below = λ k h. elim (Bool-cases (ltb k (length splitters))) [
          | inl old ↦ omega (arith, low k (ground arith), c.below k (ground arith))
          | inr new ↦ omega (arith, at_end k (ground (arith, total)))
        ];
        ascends = λ k h. elim (Bool-cases (ltb (suc k) (length splitters))) [
          | inl old ↦
              omega (
                arith,
                low k (ground arith),
                low (suc k) (ground arith),
                c.ascends k (ground arith),
              )
          | inr new ↦ omega (
            arith,
            low k (ground (arith, total)),
            at_end (suc k) (ground (arith, total)),
            c.below k (ground (arith, total)),
          )
        ];
        reached = λ k h. elim (Bool-cases (ltb k (length splitters))) [
          | inl old ↦ rw (low k (ground arith)) (c.reached k (ground arith))
          | inr new ↦
              let same : k ≡ length splitters = ground (arith, total) in rw (same, end) reached
        ];
      }

  choose_splitters-IsCutAt :
      (hist : List ℕ) (i run_sum : ℕ) (splitters : List ℕ)
      → run_sum ≡ upto i
      → Counts upto i hist
      → IsCutAt size ideal upto i splitters
      → IsCutAt size ideal upto
          (i + length hist)
          (choose_splitters size ideal hist i run_sum splitters)
  unfolding choose_splitters Counts
  choose_splitters-IsCutAt [] i run_sum splitters e counts c =
      later_cut i (i + 0) splitters (omega arith) c
  choose_splitters-IsCutAt (h ∷ hist) i run_sum splitters e counts c =
      let next : i + 1 + length hist ≡ i + suc (length hist) = omega arith in
      let run : run_sum + h ≡ upto (i + 1) = omega (arith, counts.0) in
      let at = λ (out : List ℕ) (r : IsCutAt size ideal upto (i + 1 + length hist) out).
        later_cut (i + 1 + length hist) (i + suc (length hist)) out (omega arith) r in
      elim (Bool-cases (ltb (length splitters) (size - 1))) [
        | inl room ↦ elim (Bool-cases (leb ((length splitters + 1) * ideal) (run_sum + h))) [
          | inl reached ↦
              rw (room, reached)
                (at _ (
                  choose_splitters-IsCutAt hist (i + 1) (run_sum + h) (splitters ++ i ∷ []) run
                    counts.1 (next_cut i splitters c (ground arith) (ground (arith, run)))))
          | inr short ↦
              rw (room, short)
                (at _ (
                  choose_splitters-IsCutAt hist (i + 1) (run_sum + h) splitters run counts.1
                    (later_cut i (i + 1) splitters (omega arith) c)))
        ]
        | inr full ↦ rw full (later_cut i (i + suc (length hist)) splitters (omega arith) c)
      ]

sum-append : (xs ys : List ℕ) → sum (xs ++ ys) ≡ sum xs + sum ys
unfolding sum
sum-append [] ys = omega arith
sum-append (x ∷ xs) ys = omega (arith, sum-append xs ys)

-- The number of bodies in the first n buckets.
abbrev pub bodies_upto : List ℕ → ℕ → ℕ
bodies_upto hist n = sum (take n hist)

take-step :
    (pre : List ℕ) (h : ℕ) (hist : List ℕ)
    → sum (take (suc (length pre)) (pre ++ h ∷ hist))
      ≡ sum (take (length pre) (pre ++ h ∷ hist)) + h
unfolding sum
take-step [] h hist = omega arith
take-step (x ∷ pre) h hist = omega (arith, take-step pre h hist)

bodies_upto-Counts :
    (pre hist : List ℕ) (full : List ℕ)
    → full ≡ pre ++ hist
    → Counts (bodies_upto full) (length pre) hist
unfolding Counts
bodies_upto-Counts pre [] full e = tt
bodies_upto-Counts pre (h ∷ hist) full e = (
  ap (bodies_upto full) {x = length pre + 1} {y = suc (length pre)} (omega arith)
      ∙ rw e (take-step pre h hist),
  subst (λ i. Counts (bodies_upto full) i hist) (length-append pre (h ∷ []))
      (bodies_upto-Counts (pre ++ h ∷ []) hist full (e ∙ sym (append_assoc pre (h ∷ []) hist))),
)

-- The splitters chosen for a histogram are at most size - 1 buckets of it, in ascending order, and the
-- buckets up to the k-th one hold at least k + 1 times the ideal number of bodies.
pub choose_splitters-IsCut :
    (size ideal : ℕ) (hist : List ℕ)
    → IsCutAt size ideal (bodies_upto hist) (length hist) (choose_splitters size ideal hist 0 0 [])
unfolding sum
choose_splitters-IsCut size ideal hist =
    later_cut size ideal (bodies_upto hist) (0 + length hist) (length hist) _ (omega arith) (
      choose_splitters-IsCutAt size ideal (bodies_upto hist) hist 0 0 [] refl
        (bodies_upto-Counts [] hist hist refl)
        (record {
          few = omega arith;
          below = λ k h. absurd (omega arith);
          ascends = λ k h. absurd (omega arith);
          reached = λ k h. absurd (omega arith);
        }))

-- Every bucket has a rank.
pub dest_rank-lt :
    (size ideal : ℕ) (hist : List ℕ) (i : ℕ)
    → 0 < size
    → upper_bound (choose_splitters size ideal hist 0 0 []) i < size
dest_rank-lt size ideal hist i h = omega (
  arith,
  upper_bound-le (choose_splitters size ideal hist 0 0 []) i,
  (choose_splitters-IsCut size ideal hist).few,
)
