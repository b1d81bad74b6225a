-- ===== src/Charm/KeyBits.antt =====
-- Keys of tree nodes: `mssb64_pos` of charm/util.cpp, and the static functions of charm/Node.h. A Key
-- is a uint64_t; `log_branch` is LOG_BRANCH_FACTOR, 1 or 3.
pub mod Position
pub mod Intervals
use amt_bh_benchmark.Base.{
  ℕ, suc, ◌+◌, ◌-◌, ◌*◌, ◌/◌, ◌%◌, ◌^◌, bit_or, Bool, true, false, ltb, ◌==◌, if◌then◌else◌,
}
use amt_bh_benchmark.Base.Int.{ℤ, pos, negsuc}

abbrev pub tree_key_bits : ℕ
tree_key_bits = 64

infixl 75 ◌<<<◌
abbrev pub ◌<<<◌ : ℕ → ℕ → ℕ
k <<< s = k * 2 ^ s % 2 ^ 64

pub record Scan : Type 0 where
  pub n : ℕ
  pub x : ℕ

-- if (x > bound) { n += s; x >>= s; }, with the bound 2^s - 1.
pub scan_step : ℕ → Scan → Scan
scan_step s p = if ltb (2 ^ s - 1) p.x then record { n = p.n + s; x = p.x / 2 ^ s } else p

-- The last step leaves x alone.
pub scan_last : Scan → ℕ
scan_last p = if ltb 1 p.x then p.n + 1 else p.n

unfoldable pub mssb64_pos : ℕ → ℤ
mssb64_pos x =
    if x == 0
    then negsuc 0
    else pos (
        scan_last (
          scan_step 2
            (scan_step 4 (scan_step 8 (scan_step 16 (scan_step 32 (record { n = 0; x = x })))))))

-- The division of C, towards zero.
pub get_depth_from_key : ℕ → ℕ → ℤ
get_depth_from_key log_branch k = elim (mssb64_pos k) [
  | pos n ↦ pos (n / log_branch)
  | negsuc n ↦ if suc n / log_branch == 0 then pos 0 else negsuc (suc n / log_branch - 1)
]

abbrev pub particle_level_shift : ℕ → ℕ → ℕ
particle_level_shift log_branch depth = tree_key_bits - (log_branch * depth + 1)

unfoldable pub get_particle_level_key : ℕ → ℕ → ℕ → ℕ
get_particle_level_key log_branch k depth = k <<< particle_level_shift log_branch depth

unfoldable pub get_last_particle_level_key : ℕ → ℕ → ℕ → ℕ
get_last_particle_level_key log_branch k depth =
    let nshift = particle_level_shift log_branch depth in bit_or (k <<< nshift) (1 <<< nshift - 1)
