-- ===== src/Hpx/Morton.antt =====
-- hpx/src/morton_keys.cpp: the bit shuffles behind 63-bit Morton keys. A uint64_t is a number
-- below 2 ^ 64; `<<` is written with its wrap-around, `>>` is a division.
pub mod Spread
pub mod Compact
pub mod Interleave
pub mod Decode
pub mod Prefix
use amt_bh_benchmark.Base.{
  ℕ, ◌+◌, ◌-◌, ◌*◌, ◌/◌, ◌%◌, ◌^◌, bit_and, bit_or, bit_xor, if◌then◌else◌, ◌==◌,
}

infixl 75 ◌<<<◌ ◌>>>◌
abbrev pub ◌<<<◌ : ℕ → ℕ → ℕ
x <<< k = x * 2 ^ k % 2 ^ 64

abbrev pub ◌>>>◌ : ℕ → ℕ → ℕ
x >>> k = x / 2 ^ k

-- One round of `spread21`: (x | (x << k)) & mask.
unfoldable pub spread_round : ℕ → ℕ → ℕ → ℕ
spread_round k mask x = bit_and (bit_or x (x <<< k)) mask

unfoldable pub spread21 : ℕ → ℕ
spread21 v = spread_round 2 0x1249249249249249 (
    spread_round 4 0x10C30C30C30C30C3 (
      spread_round 8 0x100F00F00F00F00F
        (spread_round 16 0x1F0000FF0000FF (spread_round 32 0x1F00000000FFFF (bit_and v 0x1FFFFF)))))

unfoldable pub morton63 : ℕ → ℕ → ℕ → ℕ
morton63 xi yi zi = bit_or (bit_or (spread21 xi) (spread21 yi <<< 1)) (spread21 zi <<< 2)

-- `code & (~0ULL << shift)`, for a depth from 0 to 21.
unfoldable pub morton_prefix : ℕ → ℕ → ℕ
morton_prefix code depth =
    if depth == 0 then 0 else bit_and code ((2 ^ 64 - 1) <<< (63 - 3 * depth))

-- One round of `compact21`: (m ^ (m >> k)) & mask.
unfoldable pub compact_round : ℕ → ℕ → ℕ → ℕ
compact_round k mask m = bit_and (bit_xor m (m >>> k)) mask

unfoldable pub compact_rounds : ℕ → ℕ
compact_rounds m = compact_round 32 0x1fffff (
    compact_round 16 0x1f00000000ffff (
      compact_round 8 0x1f0000ff0000ff (
        compact_round 4 0x100f00f00f00f00f
          (compact_round 2 0x10c30c30c30c30c3 (bit_and m 0x1249249249249249)))))

-- With the cast to uint32_t.
unfoldable pub compact21 : ℕ → ℕ
compact21 m = compact_rounds m % 2 ^ 32

pub record Cell : Type 0 where
  pub ix : ℕ
  pub iy : ℕ
  pub iz : ℕ

unfoldable pub decode_prefix : ℕ → ℕ → Cell
decode_prefix prefix depth =
    if depth == 0
    then record { ix = 0; iy = 0; iz = 0 }
    else let bits = prefix >>> (63 - 3 * depth) in
      record {
        ix = compact21 (bits >>> 0);
        iy = compact21 (bits >>> 1);
        iz = compact21 (bits >>> 2);
      }
