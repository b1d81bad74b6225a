-- ===== src/Hpx/ShardedMap.antt =====
-- `ShardedMap` of hpx/include/sharded_map.h. The tables of robin_hood and the hash are parameters, and
-- Shards is 2 ^ log_shards, as the static_assert asks. A reference into the map that the caller
-- assigns through is a function on the value. Capacities are left out.
pub mod Refinement
use amt_bh_benchmark.Base.{
  ℕ, zero, suc, ◌+◌, ◌-◌, ◌/◌, ◌^◌, bit_and, Bool, true, false, not, ◌&&◌, ◌==◌, if◌then◌else◌,
  Option, none, some, List, [], ◌∷◌, get_or, change_at, copies,
}
use amt_bh_benchmark.Base.Eq.{Eq, HashMap, Sharding}

module _ {K V : Type 0} {e : Eq K} (S : Sharding K V e) where
  open S use {table, hash, log_shards}
  open table use {Map, empty, find, insert_or_assign, insert, size}

  pub record ShardedMap : Type 0 where
    pub shards : List Map

  abbrev pub shard_count : ℕ
  shard_count = 2 ^ log_shards

  -- shardOf, which shard_of makes public.
  pub shard_of : K → ℕ
  shard_of k = bit_and (hash k) (shard_count - 1)

  pub new : ShardedMap
  new = record { shards = copies shard_count empty }

  -- The pointer is null (`none`) where the key is missing.
  pub lookup : ShardedMap → K → Option V
  lookup m k = find (get_or m.shards (shard_of k) empty) k

  pub count : ShardedMap → K → ℕ
  count m k = elim (lookup m k) [ none ↦ 0 | some v ↦ 1 ]

  -- `none` is std::out_of_range.
  pub at : ShardedMap → K → Option V
  at m k = elim (lookup m k) [ none ↦ none | some v ↦ some v ]

  -- `m[k] = f(m[k])`; a missing key is created with the default value first.
  pub change : V → ShardedMap → K → (V → V) → ShardedMap
  change default m k f =
      let old : V = elim (lookup m k) [ none ↦ default | some v ↦ v ] in
      record { shards = change_at m.shards (shard_of k) (λ s. insert_or_assign s k (f old)) }

  pub sizes : List Map → ℕ
  sizes [] = 0
  sizes (s ∷ shards) = size s + sizes shards

  -- The number of keys.
  pub total_size : ShardedMap → ℕ
  total_size m = sizes m.shards

  all_empty : List Map → Bool
  all_empty [] = true
  all_empty (s ∷ shards) = (size s == 0) && all_empty shards

  pub is_empty : ShardedMap → Bool
  is_empty m = all_empty m.shards

  pub per_shard_reserve : ℕ → ℕ
  per_shard_reserve n = (n + shard_count - 1) / shard_count

  pub insert_all : List (K × V) → ShardedMap → ShardedMap
  insert_all [] m = m
  insert_all (p ∷ ps) m =
      insert_all ps (record { shards = change_at m.shards (shard_of p.0) (λ s. insert s p.0 p.1) })

  pub insert_shard_unsynchronized : ℕ → K → V → ShardedMap → ShardedMap
  insert_shard_unsynchronized s k v m = record {
    shards = change_at m.shards s (λ t. insert_or_assign t k v);
  }
