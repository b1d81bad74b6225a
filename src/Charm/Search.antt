-- ===== src/Charm/Search.antt =====
-- `binary_search_ge` of charm/util.h. The callback on the element at an index is a test on the index;
-- indices are in range and fit an int. The loop takes fuel, and `none` means that it ran out.
use amt_bh_benchmark.Base.{
  ℕ, zero, suc, ◌+◌, ◌-◌, ◌/◌, ◌<◌, ◌≤◌, ◌≡◌, refl, Bool, true, false, Option, none, some, ltb,
  if◌then◌else◌, arith, Bool-cases, inl, inr,
}

search_loop : ℕ → (ℕ → Bool) → ℕ → ℕ → Option ℕ
search_loop zero test lo hi = none
search_loop (suc fuel) test lo hi =
    let mid = lo + (hi - lo) / 2 in
    let left = search_loop fuel test lo mid in
    let right = search_loop fuel test (mid + 1) hi in
    if ltb lo hi then (if test mid then left else right) else some lo

-- Each round at least halves hi - lo, so one round more than its first value is enough.
pub binary_search_ge : (ℕ → Bool) → ℕ → ℕ → Option ℕ
binary_search_ge test lo hi = search_loop (suc (hi - lo)) test lo hi

-- r is the first index from lo on at which the test passes, and hi if there is none.
pub record IsFirst (test : ℕ → Bool) (lo hi r : ℕ) : Type 0 where
  pub low : lo ≤ r
  pub high : r ≤ hi
  pub before : (i : ℕ) → lo ≤ i → i < r → test i ≡ false
  pub after : (i : ℕ) → r ≤ i → i < hi → test i ≡ true

abbrev pub Found : (ℕ → Bool) → ℕ → ℕ → Option ℕ → Type 0
Found test lo hi o = (r : ℕ) × (o ≡ some r) × IsFirst test lo hi r

-- Once the test passes it keeps passing, as it does on a sorted array.
abbrev pub IsMonotone : (ℕ → Bool) → ℕ → ℕ → Type 0
IsMonotone test lo hi = (i j : ℕ) → lo ≤ i → i ≤ j → j < hi → test i ≡ true → test j ≡ true

false_of : (b : Bool) → (b ≡ true → ⊥) → b ≡ false
false_of true h = absurd (h refl)
false_of false h = refl

module _ (test : ℕ → Bool) where
  left_half :
      (lo mid hi r : ℕ)
      → IsMonotone test lo hi
      → mid < hi
      → test mid ≡ true
      → IsFirst test lo mid r
      → IsFirst test lo hi r
  left_half lo mid hi r mono h e f = record {
    low = f.low;
    high = omega (arith, f.high);
    before = f.before;
    after = λ i p q. elim (Bool-cases (ltb i mid)) [
      | inl below ↦ f.after i p (ground arith)
      | inr above ↦ mono mid i (omega (arith, f.low, f.high)) (ground arith) q e
    ];
  }

  right_half :
      (lo mid hi r : ℕ)
      → IsMonotone test lo hi
      → lo ≤ mid
      → mid < hi
      → test mid ≡ false
      → IsFirst test (mid + 1) hi r
      → IsFirst test lo hi r
  right_half lo mid hi r mono l h e f = record {
    low = omega (arith, f.low);
    high = f.high;
    before = λ i p q. elim (Bool-cases (ltb mid i)) [
      | inl above ↦ f.before i (ground arith) q
      | inr below ↦ false_of (test i) (λ yes_i. ground (arith, mono i mid p (ground arith) h yes_i))
    ];
    after = f.after;
  }

  search_loop-Found :
      (fuel lo hi : ℕ)
      → hi - lo < fuel
      → lo ≤ hi
      → IsMonotone test lo hi
      → Found test lo hi (search_loop fuel test lo hi)
  unfolding search_loop
  search_loop-Found zero lo hi h order mono = absurd (omega arith)
  search_loop-Found (suc fuel) lo hi h order mono =
      let mid = lo + (hi - lo) / 2 in
      elim (Bool-cases (ltb lo hi)) [
        | inl more ↦
            let some_left : lo < hi = ground arith in
            elim (Bool-cases (test mid)) [
              | inl hit ↦
                  let (r, e, f) =
                    search_loop-Found fuel lo mid (omega arith) (omega arith)
                      (λ i j a b c. mono i j a b (omega arith)) in
                  (r, rw (more, hit) e, left_half lo mid hi r mono (omega arith) hit f)
              | inr miss ↦
                  let (r, e, f) =
                    search_loop-Found fuel (mid + 1) hi (omega arith) (omega arith)
                      (λ i j a b c. mono i j (omega arith) b c) in
                  (
                    r,
                    rw (more, miss) e,
                    right_half lo mid hi r mono (omega arith) (omega arith) miss f,
                  )
            ]
        | inr done ↦
            let reached : lo ≡ hi = ground arith in
            (
              lo,
              rw done,
              record {
                low = omega arith;
                high = omega arith;
                before = λ i a b. absurd (omega arith);
                after = λ i a b. absurd (omega arith);
              },
            )
      ]

-- On a range where the test is monotone the search returns, and returns the first index at which the
-- test passes, or the end of the range if there is none.
pub binary_search_ge-Found :
    (test : ℕ → Bool) (lo hi : ℕ)
    → lo ≤ hi
    → IsMonotone test lo hi
    → Found test lo hi (binary_search_ge test lo hi)
unfolding binary_search_ge
binary_search_ge-Found test lo hi order mono =
    search_loop-Found test (suc (hi - lo)) lo hi (omega arith) order mono
