-- ===== src/Hpx/ShardedMap/Refinement.antt =====
-- A sharded map is one finite map: its operations, seen through `lookup` and the size.
use native.Mathlib.Nat.{mod-lt, one-le-pow}
use amt_bh_benchmark.Base.{
  ℕ, zero, suc, ◌+◌, ◌^◌, ◌<◌, ◌≡◌, refl, ap, ◌∙◌, ◌==◌, if◌then◌else◌, Option, none, some, List,
  [], ◌∷◌, get_or, length, change_at, copies, length-copies, length-change_at, change_at_self,
  change_at_other, get_or-copies, arith, Bool-cases, Option-cases, inl, inr,
}
use amt_bh_benchmark.Base.Bits.{bit_and_ones}
use amt_bh_benchmark.Base.Eq.{Eq, Sharding}
use amt_bh_benchmark.Hpx.ShardedMap.{
  ShardedMap, shard_of, new, lookup, change, sizes, total_size, insert_shard_unsynchronized,
}

-- The value that `m[k]` refers to, of what `lookup` finds.
abbrev pub or_default : {V : Type 0} → V → Option V → V
or_default default none = default
or_default default (some v) = v

module _ {K V : Type 0} {e : Eq K} (S : Sharding K V e) where
  open S.table use {Map, empty, find, insert_or_assign, size}

  abbrev pub IsSharded : ShardedMap S → Type 0
  IsSharded m = length m.shards ≡ 2 ^ S.log_shards

  pub shard_of-lt : (k : K) → shard_of S k < 2 ^ S.log_shards
  unfolding shard_of
  shard_of-lt k =
      rw (bit_and_ones S.log_shards (S.hash k))
        (mod-lt (S.hash k) (omega (arith, one-le-pow S.log_shards 2 (omega arith))))

  abbrev assigned : ShardedMap S → K → V → ShardedMap S
  assigned m k v = record {
    shards = change_at m.shards (shard_of S k) (λ s. insert_or_assign s k v);
  }

  lookup-assigned :
      (m : ShardedMap S) (k q : K) (v : V)
      → IsSharded m
      → lookup S (assigned m k v) q ≡ (if e.eqb q k then some v else lookup S m q)
  unfolding lookup
  lookup-assigned m k q v h =
      let f = λ (s : Map). insert_or_assign s k v in
      let place = shard_of S k in
      elim (Bool-cases (shard_of S q == place)) [
        | inl here ↦
            let same : shard_of S q ≡ place = ground arith in
            rw
              (
                lookup,
                same,
                change_at_self m.shards place f empty (omega (arith, h, shard_of-lt k)),
              )
              (S.table.find-insert_or_assign (get_or m.shards place empty) k q v)
        | inr elsewhere ↦
            let far = change_at_other m.shards place (shard_of S q) f empty (λ p. ground arith) in
            elim (Bool-cases (e.eqb q k)) [
              | inl equal ↦ absurd (ground (arith, ap (shard_of S) ((e.eqb_iff q k).0 equal)))
              | inr other ↦ rw (lookup, far, other) refl
            ]
      ]

  sizes-change_at :
      (shards : List Map) (i : ℕ) (f : Map → Map)
      → i < length shards
      → sizes S (change_at shards i f) + size (get_or shards i empty)
        ≡ sizes S shards + size (f (get_or shards i empty))
  unfolding sizes
  sizes-change_at [] i f h = absurd (omega arith)
  sizes-change_at (s ∷ shards) zero f h = omega arith
  sizes-change_at (s ∷ shards) (suc i) f h = omega (arith, sizes-change_at shards i f (omega arith))

  -- One more key, if the key is new.
  abbrev pub grown : Option V → ℕ → ℕ
  grown none n = n + 1
  grown (some v) n = n

  total_size-assigned :
      (m : ShardedMap S) (k : K) (v : V)
      → IsSharded m
      → total_size S (assigned m k v) ≡ grown (lookup S m k) (total_size S m)
  unfolding total_size lookup
  total_size-assigned m k v h =
      let old = get_or m.shards (shard_of S k) empty in
      let sum =
        sizes-change_at m.shards (shard_of S k) (λ s. insert_or_assign s k v)
          (omega (arith, h, shard_of-lt k)) in
      let one = S.table.size-insert_or_assign old k v in
      elim (Option-cases (find old k)) [
        | inl missing ↦ rw missing (omega (arith, sum, rw missing at one))
        | inr (w, found) ↦ rw found (omega (arith, sum, rw found at one))
      ]

  length-assigned : (m : ShardedMap S) (k : K) (v : V) → IsSharded m → IsSharded (assigned m k v)
  length-assigned m k v h =
      length-change_at m.shards (shard_of S k) (λ s. insert_or_assign s k v) ∙ h

  -- The map m with the value v at the key k, as its readers see it.
  pub record IsUpdate (m : ShardedMap S) (k : K) (v : V) (after : ShardedMap S) : Type 0 where
    pub sharded : IsSharded after
    pub found : (q : K) → lookup S after q ≡ (if e.eqb q k then some v else lookup S m q)
    pub counted : total_size S after ≡ grown (lookup S m k) (total_size S m)

  assigned-IsUpdate :
      (m : ShardedMap S) (k : K) (v : V) → IsSharded m → IsUpdate m k v (assigned m k v)
  assigned-IsUpdate m k v h = record {
    sharded = length-assigned m k v h;
    found = λ q. lookup-assigned m k q v h;
    counted = total_size-assigned m k v h;
  }

  -- Inserting into the shard of the key is the update of one finite map at the key: it is what `lookup`
  -- finds, and the size grows by one just if the key is new.
  pub insert_shard_unsynchronized-IsUpdate :
      (m : ShardedMap S) (k : K) (v : V)
      → IsSharded m
      → IsUpdate m k v (insert_shard_unsynchronized S (shard_of S k) k v m)
  unfolding insert_shard_unsynchronized
  insert_shard_unsynchronized-IsUpdate m k v h = assigned-IsUpdate m k v h

  -- Assigning through `m[k]` is the update at the key, from the default value where the key is missing.
  pub change-IsUpdate :
      (default : V) (m : ShardedMap S) (k : K) (f : V → V)
      → IsSharded m
      → IsUpdate m k (f (or_default default (lookup S m k))) (change S default m k f)
  unfolding change
  change-IsUpdate default m k f h = elim (Option-cases (lookup S m k)) [
    | inl missing ↦ rw missing (assigned-IsUpdate m k (f default) h)
    | inr (v, found) ↦ rw found (assigned-IsUpdate m k (f v) h)
  ]

  -- The same as a function of what is found at any key.
  pub lookup-change :
      (default : V) (m : ShardedMap S) (k q : K) (f : V → V)
      → IsSharded m
      → lookup S (change S default m k f) q
        ≡ (if e.eqb q k then some (f (or_default default (lookup S m q))) else lookup S m q)
  lookup-change default m k q f h =
      let u = change-IsUpdate default m k f h in
      u.found q ∙ elim (Bool-cases (e.eqb q k)) [
        | inl equal ↦ rw (equal, (e.eqb_iff q k).0 equal) refl
        | inr other ↦ rw other refl
      ]

  pub new-IsSharded : IsSharded (new S)
  unfolding new
  new-IsSharded = length-copies (2 ^ S.log_shards) empty

  sizes-copies : (n : ℕ) → sizes S (copies n empty) ≡ 0
  unfolding sizes
  sizes-copies zero = refl
  sizes-copies (suc n) = omega (arith, S.table.size-empty, sizes-copies n)

  -- The new map has no key.
  pub lookup-new : (q : K) → lookup S (new S) q ≡ none
  unfolding lookup new
  lookup-new q =
      ap (λ s. find s q) (get_or-copies (2 ^ S.log_shards) empty (shard_of S q))
      ∙ S.table.find-empty q

  pub total_size-new : total_size S (new S) ≡ 0
  unfolding total_size new
  total_size-new = sizes-copies (2 ^ S.log_shards)
