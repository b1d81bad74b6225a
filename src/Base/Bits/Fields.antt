-- ===== src/Base/Bits/Fields.antt =====
-- Fields of digits: disjunctions that are sums, masks that are remainders, octal digits.
use Prim.Native.Nat.{ℕ, zero, suc, ◌+◌, ◌-◌, ◌*◌, ◌/◌, ◌%◌, ◌^◌, ◌≤◌, ◌<◌, bit_and, bit_or, bit_xor}
use mathlib.Core.Path.{◌≡◌, refl, ap, ap₂, sym, ◌∙◌}
use native.Mathlib.Nat.{pow-suc, one-le-pow}
use native.Mathlib.Omega.{arith}
use amt_bh_benchmark.Base.Bits.Step.{bit_or_step}
use amt_bh_benchmark.Base.Bits.Laws.{
  zero-bit_and, zero-bit_or, zero-bit_xor, bit_and_half, bit_and_low, bit_or_half, bit_or_low,
  bit_xor_half, bit_xor_low, digits_ext,
}
use amt_bh_benchmark.Base.Bits.Width.{
  bit_or_mod, mul-two_pow_suc, div-two_pow_suc, mod-two_pow_suc_half, mod-two_pow_suc_low,
}

bit_or_right_below : (n a : ℕ) → a ≤ n → bit_or a 0 ≡ a
bit_or_right_below zero a h = let e : a ≡ 0 = omega arith in rw e (zero-bit_or 0)
bit_or_right_below (suc n) a h =
    digits_ext _ _ (rw (bit_or_half a 0) (bit_or_right_below n (a / 2) (omega arith)))
      (omega (arith, bit_or_low a 0))

pub bit_or-zero : (a : ℕ) → bit_or a 0 ≡ a
bit_or-zero a = bit_or_right_below a a (omega arith)

-- A disjunction of a shifted number and one that fits below it is their sum.
pub bit_or_disjoint : (k hi lo : ℕ) → lo < 2 ^ k → bit_or (hi * 2 ^ k) lo ≡ hi * 2 ^ k + lo
bit_or_disjoint zero hi lo h =
    let e : lo ≡ 0 = omega arith in rw (e, bit_or-zero (hi * 1)) (omega arith)
bit_or_disjoint (suc k) hi lo h =
    let half : hi * 2 ^ suc k / 2 ≡ hi * 2 ^ k = omega (arith, mul-two_pow_suc hi k) in
    digits_ext _ _
      (rw
        (
          bit_or_half (hi * 2 ^ suc k) lo,
          half,
          bit_or_disjoint k hi (lo / 2) (omega (arith, pow-suc 2 k)),
        )
        (omega (arith, mul-two_pow_suc hi k)))
      (omega (arith, bit_or_low (hi * 2 ^ suc k) lo, mul-two_pow_suc hi k))

bit_and_right_below : (n a : ℕ) → a ≤ n → bit_and a 0 ≡ 0
bit_and_right_below zero a h = let e : a ≡ 0 = omega arith in rw e (zero-bit_and 0)
bit_and_right_below (suc n) a h =
    digits_ext _ _ (rw (bit_and_half a 0) (bit_and_right_below n (a / 2) (omega arith)))
      (omega (arith, bit_and_low a 0))

pub bit_and-zero : (a : ℕ) → bit_and a 0 ≡ 0
bit_and-zero a = bit_and_right_below a a (omega arith)

-- A mask of `k` ones keeps the remainder by `2 ^ k`.
pub bit_and_ones : (k a : ℕ) → bit_and a (2 ^ k - 1) ≡ a % 2 ^ k
bit_and_ones zero a = rw (bit_and-zero a) (omega arith)
bit_and_ones (suc k) a =
    let half : (2 ^ suc k - 1) / 2 ≡ 2 ^ k - 1 = omega (arith, pow-suc 2 k, one-le-pow k 2) in
    digits_ext _ _
      (rw (bit_and_half a (2 ^ suc k - 1), half, bit_and_ones k (a / 2), mod-two_pow_suc_half a k))
      (omega (
        arith,
        bit_and_low a (2 ^ suc k - 1),
        mod-two_pow_suc_low a k,
        pow-suc 2 k,
        one-le-pow k 2,
      ))

-- A mask that fits a width ignores the digits above it.
pub bit_and_mask_mod : (k a mask : ℕ) → mask < 2 ^ k → bit_and (a % 2 ^ k) mask ≡ bit_and a mask
bit_and_mask_mod zero a mask h =
    let e : mask ≡ 0 = omega arith in rw (e, bit_and-zero a, bit_and-zero (a % 1))
bit_and_mask_mod (suc k) a mask h =
    digits_ext _ _
      (rw (bit_and_half (a % 2 ^ suc k) mask, bit_and_half a mask, mod-two_pow_suc_half a k)
        (bit_and_mask_mod k (a / 2) (mask / 2) (omega (arith, pow-suc 2 k))))
      (omega (arith, bit_and_low (a % 2 ^ suc k) mask, bit_and_low a mask, mod-two_pow_suc_low a k))

bit_xor_right_below : (n a : ℕ) → a ≤ n → bit_xor a 0 ≡ a
bit_xor_right_below zero a h = let e : a ≡ 0 = omega arith in rw e (zero-bit_xor 0)
bit_xor_right_below (suc n) a h =
    digits_ext _ _ (rw (bit_xor_half a 0) (bit_xor_right_below n (a / 2) (omega arith)))
      (omega (arith, bit_xor_low a 0))

-- Likewise an exclusive disjunction of a shifted number and one that fits below it.
pub bit_xor_disjoint : (k hi lo : ℕ) → lo < 2 ^ k → bit_xor (hi * 2 ^ k) lo ≡ hi * 2 ^ k + lo
bit_xor_disjoint zero hi lo h =
    let e : lo ≡ 0 = omega arith in
    rw (e, bit_xor_right_below (hi * 1) (hi * 1) (omega arith)) (omega arith)
bit_xor_disjoint (suc k) hi lo h =
    let half : hi * 2 ^ suc k / 2 ≡ hi * 2 ^ k = omega (arith, mul-two_pow_suc hi k) in
    digits_ext _ _
      (rw
        (
          bit_xor_half (hi * 2 ^ suc k) lo,
          half,
          bit_xor_disjoint k hi (lo / 2) (omega (arith, pow-suc 2 k)),
        )
        (omega (arith, mul-two_pow_suc hi k)))
      (omega (arith, bit_xor_low (hi * 2 ^ suc k) lo, mul-two_pow_suc hi k))

pub two_pow_add : (a b : ℕ) → 2 ^ (a + b) ≡ 2 ^ a * 2 ^ b
two_pow_add zero b = let e : 0 + b ≡ b = omega arith in rw e (omega arith)
two_pow_add (suc a) b =
    let e : suc a + b ≡ suc (a + b) = omega arith in
    rw e
      (omega (arith, pow-suc 2 (a + b), two_pow_add a b, ap (λ (t : ℕ). t * 2 ^ b) (pow-suc 2 a)))

pub eight_pow : (a : ℕ) → 8 ^ a ≡ 2 ^ (3 * a)
eight_pow zero = refl
eight_pow (suc a) =
    let e : 3 * suc a ≡ 3 + 3 * a = omega arith in
    rw (e, two_pow_add 3 (3 * a)) (omega (arith, pow-suc 8 a, eight_pow a))

pub bit_or-lt : (k a b : ℕ) → a < 2 ^ k → b < 2 ^ k → bit_or a b < 2 ^ k
bit_or-lt zero a b h k =
    let a0 : a ≡ 0 = omega arith in let b0 : b ≡ 0 = omega arith in rw (a0, b0) (omega arith)
bit_or-lt (suc k) a b h l = omega (
  arith,
  bit_or_step a b,
  pow-suc 2 k,
  bit_or-lt k (a / 2) (b / 2) (omega (arith, pow-suc 2 k)) (omega (arith, pow-suc 2 k)),
)

-- A disjunction by groups of three digits.
digits_div_eight : (a : ℕ) → a / 8 ≡ a / 2 / 2 / 2
digits_div_eight a = omega arith

pub bit_or_div_eight : (a b : ℕ) → bit_or a b / 8 ≡ bit_or (a / 8) (b / 8)
bit_or_div_eight a b =
    digits_div_eight (bit_or a b)
    ∙ ap (λ (t : ℕ). t / 2 / 2) (bit_or_half a b)
    ∙ ap (λ (t : ℕ). t / 2) (bit_or_half (a / 2) (b / 2))
    ∙ bit_or_half (a / 2 / 2) (b / 2 / 2)
    ∙ sym (ap₂ bit_or (digits_div_eight a) (digits_div_eight b))

pub bit_or_mod_eight : (a b : ℕ) → bit_or a b % 8 ≡ bit_or (a % 8) (b % 8)
bit_or_mod_eight a b = bit_or_mod 3 a b

pub bit_or_octal : (a b : ℕ) → bit_or a b ≡ bit_or (a / 8) (b / 8) * 8 + bit_or (a % 8) (b % 8)
bit_or_octal a b = omega (arith, bit_or_div_eight a b, bit_or_mod_eight a b)

pub mod-two_pow_suc : (a k : ℕ) → a % 2 ^ suc k ≡ a % 2 + 2 * (a / 2 % 2 ^ k)
mod-two_pow_suc a k = omega (arith, mod-two_pow_suc_half a k, mod-two_pow_suc_low a k)

-- A mask of j ones above s zeros cuts off the s lowest digits.
pub bit_and_high : (s j a : ℕ) → bit_and a ((2 ^ j - 1) * 2 ^ s) ≡ a / 2 ^ s % 2 ^ j * 2 ^ s
bit_and_high zero j a =
    let ea : a / 1 ≡ a = omega arith in
    let em : (2 ^ j - 1) * 1 ≡ 2 ^ j - 1 = omega arith in
    rw (ea, em, bit_and_ones j a) (omega arith)
bit_and_high (suc s) j a =
    let mask = (2 ^ j - 1) * 2 ^ suc s in
    let half : mask / 2 ≡ (2 ^ j - 1) * 2 ^ s = omega (arith, mul-two_pow_suc (2 ^ j - 1) s) in
    digits_ext _ _
      (rw (bit_and_half a mask, half, bit_and_high s j (a / 2), div-two_pow_suc a s)
        (omega (arith, mul-two_pow_suc (a / 2 / 2 ^ s % 2 ^ j) s)))
      (omega (
        arith,
        bit_and_low a mask,
        mul-two_pow_suc (2 ^ j - 1) s,
        mul-two_pow_suc (a / 2 ^ suc s % 2 ^ j) s,
      ))
