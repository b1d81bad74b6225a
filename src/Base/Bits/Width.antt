-- ===== src/Base/Bits/Width.antt =====
-- Shifts and cuts to a width, through the bitwise operations.
use Prim.Native.Nat.{ℕ, zero, suc, ◌*◌, ◌/◌, ◌%◌, ◌^◌, bit_or, bit_xor}
use mathlib.Core.Path.{◌≡◌, ap}
use native.Mathlib.Nat.{pow-suc, div-div-eq-div-mul, mod-eq-sub-div-mul, div-mul-le_self}
use native.Mathlib.Omega.{arith}
use amt_bh_benchmark.Base.Bits.Laws.{zero-bit_or, bit_or_half, bit_or_low, bit_xor_half, digits_ext}

-- A left shift distributes over `|`, a right shift over `^`, and so does the cut to a width.
bit_or_double : (a b : ℕ) → bit_or a b * 2 ≡ bit_or (a * 2) (b * 2)
bit_or_double a b =
    let ea : a * 2 / 2 ≡ a = omega arith in
    let eb : b * 2 / 2 ≡ b = omega arith in
    digits_ext _ _ (rw (bit_or_half, ea, eb) (omega arith))
      (omega (arith, bit_or_low (a * 2) (b * 2)))

pub mul-two_pow_suc : (a k : ℕ) → a * 2 ^ suc k ≡ a * 2 ^ k * 2
mul-two_pow_suc a k = omega (arith, ap (λ (t : ℕ). a * t) (pow-suc 2 k))

pub div-two_pow_suc : (a k : ℕ) → a / 2 ^ suc k ≡ a / 2 / 2 ^ k
div-two_pow_suc a k =
    rw (div-div-eq-div-mul a 2 (2 ^ k)) (ap (λ (t : ℕ). a / t) (omega (arith, pow-suc 2 k)))

pub bit_or_shl : (k a b : ℕ) → bit_or a b * 2 ^ k ≡ bit_or (a * 2 ^ k) (b * 2 ^ k)
bit_or_shl zero a b =
    let ea : a * 1 ≡ a = omega arith in
    let eb : b * 1 ≡ b = omega arith in rw (ea, eb) (omega arith)
bit_or_shl (suc k) a b = rw (
  mul-two_pow_suc (bit_or a b) k,
  mul-two_pow_suc a k,
  mul-two_pow_suc b k,
  bit_or_shl k a b,
  bit_or_double (a * 2 ^ k) (b * 2 ^ k),
)

pub bit_xor_shr : (k a b : ℕ) → bit_xor a b / 2 ^ k ≡ bit_xor (a / 2 ^ k) (b / 2 ^ k)
bit_xor_shr zero a b =
    let ea : a / 1 ≡ a = omega arith in
    let eb : b / 1 ≡ b = omega arith in rw (ea, eb) (omega arith)
bit_xor_shr (suc k) a b = rw (
  div-two_pow_suc (bit_xor a b) k,
  div-two_pow_suc a k,
  div-two_pow_suc b k,
  bit_xor_half a b,
  bit_xor_shr k (a / 2) (b / 2),
)

pub mod-two_pow_suc_half : (a k : ℕ) → a % 2 ^ suc k / 2 ≡ a / 2 % 2 ^ k
mod-two_pow_suc_half a k = omega (
  arith,
  mod-eq-sub-div-mul a (2 ^ suc k),
  mod-eq-sub-div-mul (a / 2) (2 ^ k),
  div-two_pow_suc a k,
  mul-two_pow_suc (a / 2 / 2 ^ k) k,
  ap (λ (t : ℕ). t * 2 ^ suc k) (div-two_pow_suc a k),
)

pub mod-two_pow_suc_low : (a k : ℕ) → a % 2 ^ suc k % 2 ≡ a % 2
mod-two_pow_suc_low a k = omega (
  arith,
  mod-eq-sub-div-mul a (2 ^ suc k),
  div-mul-le_self a (2 ^ suc k),
  mul-two_pow_suc (a / 2 / 2 ^ k) k,
  ap (λ (t : ℕ). t * 2 ^ suc k) (div-two_pow_suc a k),
)

pub bit_or_mod : (k a b : ℕ) → bit_or a b % 2 ^ k ≡ bit_or (a % 2 ^ k) (b % 2 ^ k)
bit_or_mod zero a b =
    let ea : a % 1 ≡ 0 = omega arith in
    let eb : b % 1 ≡ 0 = omega arith in rw (ea, eb, zero-bit_or 0) (omega arith)
bit_or_mod (suc k) a b =
    digits_ext _ _
      (rw (
        mod-two_pow_suc_half (bit_or a b) k,
        bit_or_half a b,
        bit_or_mod k (a / 2) (b / 2),
        bit_or_half (a % 2 ^ suc k) (b % 2 ^ suc k),
        mod-two_pow_suc_half a k,
        mod-two_pow_suc_half b k,
      ))
      (omega (
        arith,
        mod-two_pow_suc_low (bit_or a b) k,
        bit_or_low a b,
        bit_or_low (a % 2 ^ suc k) (b % 2 ^ suc k),
        mod-two_pow_suc_low a k,
        mod-two_pow_suc_low b k,
      ))
