-- ===== src/Charm/Owners/Serving.antt =====
-- The owner that serves a node holds particles, and one is found if there is any.
use native.Mathlib.Nat.{mod-lt, mod-eq_of_lt, add-mod_right}
use amt_bh_benchmark.Base.{
  ℕ, zero, suc, ◌+◌, ◌-◌, ◌%◌, ◌<◌, ◌≤◌, ◌≡◌, refl, ap, ◌∙◌, ltb, List, get_or, arith, Bool-cases,
  ◌⊎◌, inl, inr,
}
use amt_bh_benchmark.Base.Int.{ℤ, pos, negsuc}
use amt_bh_benchmark.Charm.Owners.{spread_hash, serving_loop, serving_owner}

-- r is an owner of the range that holds particles, or -1 when none of the range does.
abbrev pub Serves : ℕ → ℕ → List ℕ → ℤ → Type 0
Serves owner_start owner_end tp_counts r =
    ((tp : ℕ) × (r ≡ pos tp) × (owner_start ≤ tp) × (tp ≤ owner_end) × (0 < get_or tp_counts tp 0))
    ⊎ ((r ≡ negsuc 0) × ((tp : ℕ) → owner_start ≤ tp → tp ≤ owner_end → get_or tp_counts tp 0 ≡ 0))

module _ (owner_start : ℕ) (tp_counts : List ℕ) (n first : ℕ) where
  -- The owner of round j.
  tried : ℕ → ℕ
  tried j = owner_start + (first + j) % n

  Tried : ℕ → ℕ → ℤ → Type 0
  Tried i end r =
      ((j : ℕ) × (r ≡ pos (tried j)) × (0 < get_or tp_counts (tried j) 0))
      ⊎ ((r ≡ negsuc 0) × ((j : ℕ) → i ≤ j → j < end → get_or tp_counts (tried j) 0 ≡ 0))

  serving_loop-Tried :
      (rounds i : ℕ) → Tried i (i + rounds) (serving_loop owner_start tp_counts n first rounds i)
  unfolding serving_loop Tried tried
  serving_loop-Tried zero i = inr (refl, λ j a b. absurd (omega arith))
  serving_loop-Tried (suc rounds) i =
      elim (Bool-cases (ltb 0 (get_or tp_counts (owner_start + (first + i) % n) 0))) [
        | inl some_particles ↦ rw some_particles (inl (i, refl, ground arith))
        | inr empty ↦ rw empty (elim (serving_loop-Tried rounds (i + 1)) [
          | inl found ↦ inl found
          | inr none_found ↦ inr (
            none_found.0,
            λ j a b. elim (Bool-cases (ltb i j)) [
              | inl later ↦ none_found.1 j (ground arith) (omega arith)
              | inr now ↦
                  let same : j ≡ i = ground arith in
                  ap (λ (t : ℕ). get_or tp_counts (owner_start + (first + t) % n) 0) same
                  ∙ ground arith
            ],
          )
        ])
      ]

  -- Each place of the range comes up in some round.
  some_round : (d : ℕ) → first < n → d < n → (j : ℕ) × (j < n) × ((first + j) % n ≡ d)
  some_round d h k = elim (Bool-cases (ltb d first)) [
    | inl wrapped ↦ (
      d + n - first,
      ground arith,
      ap (λ (t : ℕ). t % n) {x = first + (d + n - first)} {y = d + n} (ground arith)
          ∙ add-mod_right d n
          ∙ mod-eq_of_lt k,
    )
    | inr ahead ↦ (
      d - first,
      omega arith,
      ap (λ (t : ℕ). t % n) {x = first + (d - first)} {y = d} (ground arith) ∙ mod-eq_of_lt k,
    )
  ]

-- Of a range of owners that is not empty, `servingOwner` returns one that holds particles, and -1 only
-- if none of them holds any.
pub serving_owner-Serves :
    (my_pe owner_start owner_end : ℕ) (tp_counts : List ℕ) (key : ℕ)
    → owner_start ≤ owner_end
    → Serves owner_start owner_end tp_counts
        (serving_owner my_pe owner_start owner_end tp_counts key)
unfolding serving_owner Tried tried
serving_owner-Serves my_pe owner_start owner_end tp_counts key order =
    let n = owner_end - owner_start + 1 in
    let first = spread_hash my_pe key % n in
    let some_owner : 0 < n = omega arith in
    elim (serving_loop-Tried owner_start tp_counts n first n 0) [
      | inl found ↦
          let (j, e, count) = found in
          inl (
            owner_start + (first + j) % n,
            e,
            omega arith,
            omega (arith, mod-lt (first + j) some_owner),
            count,
          )
      | inr none_found ↦ inr (
        none_found.0,
        λ tp a b.
            let (j, low, e) =
              some_round owner_start tp_counts n first (tp - owner_start)
                (mod-lt (spread_hash my_pe key) some_owner) (omega arith) in
            ap (λ (t : ℕ). get_or tp_counts t 0) {x = tp} {y = owner_start + (first + j) % n}
              (omega (arith, e))
            ∙ none_found.1 j (omega arith) (omega arith),
      )
    ]
