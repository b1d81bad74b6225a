-- ===== src/Hpx/LoadBalance/Examples.antt =====
-- The theorems on hpx/src/load_balancing.cpp at concrete inputs.
use amt_bh_benchmark.Base.{
  ℕ, ◌*◌, ◌^◌, ◌-◌, ◌<◌, ◌≡◌, refl, List, [], ◌∷◌, length, Has, inl, inr, map, concat, get_or,
  copies, arith,
}
use amt_bh_benchmark.Hpx.LoadBalance.{
  choose_splitters, upper_bound, update_rank_domains, bucket_of, local_histogram, rebalance_bodies,
}
use amt_bh_benchmark.Hpx.LoadBalance.Splitters.{IsCutAt, bodies_upto, choose_splitters-IsCut}
use amt_bh_benchmark.Hpx.LoadBalance.Domains.{IsReduction, Has-rank_domain_keys}
use amt_bh_benchmark.Hpx.LoadBalance.Migration.{bound_for, IsExchange, rebalance_bodies-bound_for}

abbrev counts : List ℕ
counts = 5 ∷ 0 ∷ 9 ∷ 1 ∷ 2 ∷ 3 ∷ 0 ∷ 4 ∷ []

choose_splitters-IsCut_example :
    IsCutAt 3 8 (bodies_upto counts) (length counts) (choose_splitters 3 8 counts 0 0 [])
choose_splitters-IsCut_example = choose_splitters-IsCut 3 8 counts

choose_splitters_test : choose_splitters 3 8 counts 0 0 [] ≡ 2 ∷ 4 ∷ []
unfolding choose_splitters
choose_splitters_test = refl

abbrev two_codes : List ℕ
two_codes = 5 ∷ 2 ^ 62 ∷ []

-- The other ranks have no body here.
no_more_bodies : IsReduction (λ hist. hist) (local_histogram 3 two_codes (copies (2 ^ 3) 0))
no_more_bodies = record { length = refl; grows = λ i. omega arith }

Has-rank_domain_keys_example :
    let d = update_rank_domains (λ hist. hist) 2 two_codes 3 in
    let r = upper_bound d.splitters (bucket_of 3 (2 ^ 62)) in
    (r < 2) × Has (bucket_of 3 (2 ^ 62) * 2 ^ (63 - 3)) (get_or d.rank_domain_keys r [])
Has-rank_domain_keys_example =
    Has-rank_domain_keys (λ hist. hist) 2 3 two_codes (2 ^ 62) (omega arith) (omega arith)
      no_more_bodies (inr (inl refl)) (omega arith)

transpose : List (List (List ℕ)) → ℕ → List (List ℕ)
transpose sends r = map (λ s. get_or s r []) sends

transpose-IsExchange : IsExchange transpose
unfolding IsExchange transpose
transpose-IsExchange sends r = refl

abbrev two_ranks : List (List (ℕ × ℕ))
two_ranks = ((5, 10) ∷ (2 ^ 62, 11) ∷ []) ∷ ((2 ^ 61, 12) ∷ []) ∷ []

rebalance_bodies-bound_for_example :
    rebalance_bodies transpose 3 2 (1 ∷ []) two_ranks 1
    ≡ concat (map (bound_for 3 (1 ∷ []) 1) two_ranks)
rebalance_bodies-bound_for_example =
    rebalance_bodies-bound_for transpose 3 2 (1 ∷ []) two_ranks 1 transpose-IsExchange (omega arith)
      (omega arith) (omega arith)
