-- ===== src/Hpx/LoadBalance.antt =====
-- `update_rank_domains` and `rebalance_bodies` of hpx/src/load_balancing.cpp. The collectives of HPX are
-- parameters. A body's position, mass, velocity and id are one value, the i-th entries of its arrays;
-- a count is a number, and a vector index out of range changes nothing.
pub mod Splitters
pub mod Domains
pub mod Migration
mod Examples
use amt_bh_benchmark.Base.{
  ℕ, suc, ◌+◌, ◌-◌, ◌*◌, ◌/◌, ◌%◌, ◌^◌, ltb, leb, if◌then◌else◌, List, [], ◌∷◌, ◌++◌, length,
  concat, change_at, copies, map,
}

-- unsigned b = key >> (63 - bucket_bits), of 32 bits
abbrev pub bucket_of : ℕ → ℕ → ℕ
bucket_of bucket_bits key = key / 2 ^ (63 - bucket_bits) % 2 ^ 32

-- The loop that fills local_hist.
unfoldable pub local_histogram : ℕ → List ℕ → List ℕ → List ℕ
local_histogram bucket_bits [] hist = hist
local_histogram bucket_bits (key ∷ codes) hist =
    local_histogram bucket_bits codes
      (change_at hist (bucket_of bucket_bits key) (λ (c : ℕ). c + 1))

pub sum : List ℕ → ℕ
sum [] = 0
sum (x ∷ xs) = x + sum xs

-- The loop that chooses the splitters, from bucket i on; it stops at size - 1 splitters.
pub choose_splitters : ℕ → ℕ → List ℕ → ℕ → ℕ → List ℕ → List ℕ
choose_splitters size ideal [] i run_sum splitters = splitters
choose_splitters size ideal (h ∷ hist) i run_sum splitters =
    let run_sum = run_sum + h in
    let chosen = choose_splitters size ideal hist (i + 1) run_sum (splitters ++ i ∷ []) in
    let passed = choose_splitters size ideal hist (i + 1) run_sum splitters in
    if ltb (length splitters) (size - 1)
    then if leb ((length splitters + 1) * ideal) run_sum then chosen else passed
    else splitters

-- `std::upper_bound`, as an index: how many entries come before the first one above i.
pub upper_bound : List ℕ → ℕ → ℕ
upper_bound [] i = 0
upper_bound (s ∷ splitters) i = if leb s i then suc (upper_bound splitters i) else 0

-- The upper bound of static_cast<int>(b): from 2^31 on the int is negative, and below every splitter.
unfoldable pub dest_of : List ℕ → ℕ → ℕ
dest_of splitters b = if ltb b (2 ^ 31) then upper_bound splitters b else 0

pub record RankDomains : Type 0 where
  pub rank_domain_keys : List (List ℕ)
  pub global_hist : List (ℕ × ℕ)
  pub splitters : List ℕ

-- The loop over the buckets, from bucket i on.
pub assign_buckets : ℕ → List ℕ → List ℕ → ℕ → RankDomains → RankDomains
assign_buckets bucket_bits splitters [] i out = out
assign_buckets bucket_bits splitters (h ∷ hist) i out =
    let dest_rank = upper_bound splitters i in
    let keys =
      if ltb 0 h
      then change_at out.rank_domain_keys dest_rank (λ ks. ks ++ i * 2 ^ (63 - bucket_bits) ∷ [])
      else out.rank_domain_keys in
    assign_buckets bucket_bits splitters hist (i + 1)
      (record out { rank_domain_keys = keys; global_hist = out.global_hist ++ (h, dest_rank) ∷ [] })

-- `all_reduce` adds up the histograms of all ranks. NUM_BUCKETS is the int 1 << bucket_bits, which is
-- 2 ^ bucket_bits for bucket_bits up to 30.
pub update_rank_domains : (List ℕ → List ℕ) → ℕ → List ℕ → ℕ → RankDomains
update_rank_domains all_reduce size codes bucket_bits =
    let global_hist = all_reduce (local_histogram bucket_bits codes (copies (2 ^ bucket_bits) 0)) in
    let ideal = (sum global_hist + size - 1) / size in
    let splitters = choose_splitters size ideal global_hist 0 0 [] in
    if leb size 1
    then record { rank_domain_keys = [] ∷ []; global_hist = []; splitters = [] }
    else assign_buckets bucket_bits splitters global_hist 0
        (record { rank_domain_keys = copies size []; global_hist = []; splitters = splitters })

module _ {B : Type 0} where
  -- The loop that buckets the bodies, given with their codes.
  pub send_loop : ℕ → List ℕ → List (ℕ × B) → List (List B) → List (List B)
  send_loop bucket_bits splitters [] send_per_dest = send_per_dest
  send_loop bucket_bits splitters (b ∷ bodies) send_per_dest =
      let dest = dest_of splitters (bucket_of bucket_bits b.0) in
      send_loop bucket_bits splitters bodies (change_at send_per_dest dest (λ bs. bs ++ b.1 ∷ []))

  pub send_lists : ℕ → ℕ → List ℕ → List (ℕ × B) → List (List B)
  send_lists bucket_bits size splitters bodies =
      send_loop bucket_bits splitters bodies (copies size [])

  -- What `all_to_all` gives to each rank, in the order of the sources, is joined. The parameter takes
  -- the send lists of all ranks.
  pub rebalance_bodies :
      (List (List (List B)) → ℕ → List (List B)) → ℕ → ℕ → List ℕ → List (List (ℕ × B)) → ℕ → List B
  rebalance_bodies all_to_all bucket_bits size splitters ranks rank =
      concat (all_to_all (map (send_lists bucket_bits size splitters) ranks) rank)
