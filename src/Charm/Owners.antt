-- ===== src/Charm/Owners.antt =====
-- `servingOwner` of charm/Descriptor.h. Owners are indices of TreePieces; my_pe is the PE that asks.
pub mod Serving
use amt_bh_benchmark.Base.{
  ℕ, zero, suc, ◌+◌, ◌-◌, ◌*◌, ◌/◌, ◌%◌, ◌^◌, bit_xor, ltb, if◌then◌else◌, List, get_or,
}
use amt_bh_benchmark.Base.Int.{ℤ, pos, negsuc}

-- The finalizer of splitmix64, in CmiUInt8.
unfoldable pub spread_hash : ℕ → ℕ → ℕ
spread_hash my_pe key =
    let h = (key + 0x9E3779B97F4A7C15 * (my_pe + 1)) % 2 ^ 64 in
    let h = bit_xor h (h / 2 ^ 30) * 0xBF58476D1CE4E5B9 % 2 ^ 64 in
    let h = bit_xor h (h / 2 ^ 27) * 0x94D049BB133111EB % 2 ^ 64 in bit_xor h (h / 2 ^ 31)

-- The loop over i, with `rounds` = n - i.
unfoldable pub serving_loop : ℕ → List ℕ → ℕ → ℕ → ℕ → ℕ → ℤ
serving_loop owner_start tp_counts n first zero i = negsuc 0
serving_loop owner_start tp_counts n first (suc rounds) i =
    let tp = owner_start + (first + i) % n in
    let rest = serving_loop owner_start tp_counts n first rounds (i + 1) in
    if ltb 0 (get_or tp_counts tp 0) then pos tp else rest

unfoldable pub serving_owner : ℕ → ℕ → ℕ → List ℕ → ℕ → ℤ
serving_owner my_pe owner_start owner_end tp_counts key =
    let n = owner_end - owner_start + 1 in
    serving_loop owner_start tp_counts n (spread_hash my_pe key % n) n 0
