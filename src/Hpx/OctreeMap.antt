-- ===== src/Hpx/OctreeMap.antt =====
-- `OctreeMap` of hpx/include/linear_octree.h: a sharded map from keys of cells to nodes, with
-- `OctreeKeyHash` and 128 shards.
use amt_bh_benchmark.Base.{ℕ, ◌*◌, ◌/◌, ◌%◌, ◌^◌, bit_xor, Bool, true, ◌&&◌, ◌==◌, ◌≡◌, ◌↔◌, arith}
use amt_bh_benchmark.Base.Eq.{Eq, HashMap, Sharding}
use amt_bh_benchmark.Hpx.Octree.{OctreeKey, OctreeNode}
use amt_bh_benchmark.Hpx.ShardedMap.{ShardedMap}

-- OctreeKey's operator==
pub octree_key_eqb : OctreeKey → OctreeKey → Bool
octree_key_eqb a b = (a.prefix == b.prefix) && (a.depth == b.depth)

pub octree_key_eqb_iff : (a b : OctreeKey) → (octree_key_eqb a b ≡ true) ↔ (a ≡ b)
unfolding octree_key_eqb
octree_key_eqb_iff a b = (
  λ h.
      let p : a.prefix ≡ b.prefix = ground arith in
      let d : a.depth ≡ b.depth = ground arith in λ i. record { prefix = p i; depth = d i },
  λ h. rw h (ground arith),
)

abbrev pub octree_key_eq : Eq OctreeKey
octree_key_eq = record { eqb = octree_key_eqb; eqb_iff = octree_key_eqb_iff }

-- The operations on uint64_t wrap.
pub octree_key_hash : OctreeKey → ℕ
octree_key_hash k =
    let x = bit_xor k.prefix (k.depth * 0x9e3779b97f4a7c15 % 2 ^ 64) in
    let x = bit_xor x (x / 2 ^ 30) * 0xbf58476d1ce4e5b9 % 2 ^ 64 in
    let x = bit_xor x (x / 2 ^ 27) * 0x94d049bb133111eb % 2 ^ 64 in bit_xor x (x / 2 ^ 31)

abbrev pub octree_sharding :
    {R : Type 0}
    → HashMap OctreeKey (OctreeNode R) octree_key_eq
    → Sharding OctreeKey (OctreeNode R) octree_key_eq
octree_sharding H = record { table = H; hash = octree_key_hash; log_shards = 7 }

abbrev pub OctreeMap : {R : Type 0} → HashMap OctreeKey (OctreeNode R) octree_key_eq → Type 0
OctreeMap H = ShardedMap (octree_sharding H)
