-- ===== src/Charm/Requests/Start/Pair.antt =====
-- The two States of a TreePiece, 2 i and 2 i + 1, among the States and in a queue.
use amt_bh_benchmark.Base.{
  ℕ, ◌+◌, ◌*◌, ◌<◌, ◌≡◌, ◌≢◌, ◌∙◌, ltb, ◌==◌, List, [], ◌∷◌, ◌++◌, arith, Bool-cases, ◌⊎◌, inl, inr,
}
use amt_bh_benchmark.Charm.Requests.Steady.{times}
use amt_bh_benchmark.Charm.Requests.Steady.Gravity.{times-append, times-push_other}

pub started_cases : (i t : ℕ) → t < 2 * i + 2 → ((t ≡ 2 * i) ⊎ (t ≡ 2 * i + 1)) ⊎ (t < 2 * i)
started_cases i t h = elim (Bool-cases (ltb t (2 * i))) [
  | inl before ↦ inr (ground (arith, before))
  | inr not_before ↦ elim (Bool-cases (t == 2 * i)) [
    | inl first ↦ inl (inl (ground (arith, first)))
    | inr second ↦ inl (inr (ground (arith, not_before, second)))
  ]
]

-- Both of the States, once each.
pub both_times :
    (l t : ℕ) (us : List ℕ)
    → (t ≡ l) ⊎ (t ≡ l + 1)
    → times t (us ++ (l + 1) ∷ l ∷ []) ≡ times t us + 1
unfolding times
both_times l t us (inl e) = times-append t us ((l + 1) ∷ l ∷ []) ∙ ground (arith, e)
both_times l t us (inr e) = times-append t us ((l + 1) ∷ l ∷ []) ∙ ground (arith, e)

pub neither_times :
    (l t : ℕ) (us : List ℕ) → t ≢ l → t ≢ l + 1 → times t (us ++ (l + 1) ∷ l ∷ []) ≡ times t us
unfolding times
neither_times l t us other other' =
    times-append t us ((l + 1) ∷ l ∷ [])
    ∙ omega (arith, times-push_other (l + 1) t (l ∷ []) other', times-push_other l t [] other)

pub both_pushed :
    (l t : ℕ) (us : List ℕ) → (t ≡ l) ⊎ (t ≡ l + 1) → times t ((l + 1) ∷ l ∷ us) ≡ times t us + 1
unfolding times
both_pushed l t us (inl e) = ground (arith, e)
both_pushed l t us (inr e) = ground (arith, e)

pub both_unpushed : (l t : ℕ) (us : List ℕ) → t < l → times t ((l + 1) ∷ l ∷ us) ≡ times t us
both_unpushed l t us low =
    times-push_other (l + 1) t (l ∷ us) (λ e. omega (arith, e))
    ∙ times-push_other l t us (λ e. omega (arith, e))
