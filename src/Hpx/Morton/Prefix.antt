-- ===== src/Hpx/Morton/Prefix.antt =====
-- `morton_prefix`: the key of the cell that holds a body, at each depth.
use native.Mathlib.Nat.{div-lt_iff_lt-mul, mod-eq_of_lt, one-le-pow}
use amt_bh_benchmark.Base.{
  ℕ, zero, suc, ◌+◌, ◌-◌, ◌*◌, ◌/◌, ◌%◌, ◌^◌, ◌<◌, ◌≤◌, ◌≡◌, arith, ap, sym, ◌∙◌,
}
use amt_bh_benchmark.Base.Bits.{bit_and_high, eight_pow, two_pow_add}
use amt_bh_benchmark.Hpx.Morton.{morton_prefix}

wrapped_multiple : (p : ℕ) → 1 ≤ p → p ≤ 2 ^ 64 → (2 ^ 64 - 1) * p % 2 ^ 64 ≡ 2 ^ 64 - p
wrapped_multiple p h k = omega arith

-- (~0ULL << s) has 64 - s ones above s zeros.
shifted_mask : (s : ℕ) → s ≤ 64 → (2 ^ 64 - 1) * 2 ^ s % 2 ^ 64 ≡ (2 ^ (64 - s) - 1) * 2 ^ s
shifted_mask s h =
    let split : 2 ^ 64 ≡ 2 ^ (64 - s) * 2 ^ s =
      ap (λ (t : ℕ). 2 ^ t) {x = 64} {y = 64 - s + s} (omega arith) ∙ two_pow_add (64 - s) s in
    let low = one-le-pow s 2 (omega arith) in
    let high = one-le-pow (64 - s) 2 (omega arith) in
    let less_one : (2 ^ (64 - s) - 1) * 2 ^ s + 2 ^ s ≡ 2 ^ (64 - s) * 2 ^ s = omega (
      arith,
      ap (λ (t : ℕ). t * 2 ^ s) {x = 2 ^ (64 - s) - 1 + 1} {y = 2 ^ (64 - s)} (omega arith),
    ) in
    wrapped_multiple (2 ^ s) low (grind (arith, split, high)) ∙ omega (arith, less_one, split)

-- At every depth d up to 21, `morton_prefix` keeps the d highest octal digits of a 63-bit key and
-- clears the others; at depth 0 that leaves nothing.
pub morton_prefix-eq-high_digits :
    (code d : ℕ)
    → d ≤ 21
    → code < 2 ^ 63
    → morton_prefix code d ≡ code / 8 ^ (21 - d) * 8 ^ (21 - d)
unfolding morton_prefix
morton_prefix-eq-high_digits code zero deep h = let all : code / 8 ^ 21 ≡ 0 = omega arith in rw all
morton_prefix-eq-high_digits code (suc d) deep h =
    let s = 63 - 3 * suc d in
    let places : 2 ^ s ≡ 8 ^ (21 - suc d) =
      ap (λ (t : ℕ). 2 ^ t) {x = s} {y = 3 * (21 - suc d)} (omega arith)
      ∙ sym (eight_pow (21 - suc d)) in
    let split : 2 ^ 64 ≡ 2 ^ (64 - s) * 2 ^ s =
      ap (λ (t : ℕ). 2 ^ t) {x = 64} {y = 64 - s + s} (omega arith) ∙ two_pow_add (64 - s) s in
    let fits : code / 2 ^ s % 2 ^ (64 - s) ≡ code / 2 ^ s =
      mod-eq_of_lt
        ((div-lt_iff_lt-mul {k = 2 ^ s} (one-le-pow s 2 (omega arith))).1 (omega (arith, split))) in
    rw (shifted_mask s (omega arith), bit_and_high s (64 - s) code, fits, places) (ground arith)
