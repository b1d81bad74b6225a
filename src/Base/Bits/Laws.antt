-- ===== src/Base/Bits/Laws.antt =====
-- Laws of the bitwise operations, by induction on the binary digits.
use Prim.Native.Nat.{
  ℕ, zero, suc, ◌+◌, ◌/◌, ◌%◌, ◌≤◌, min, max, bit_and, bit_or, bit_xor, bit_and-bitwise,
  bit_or-bitwise, bit_xor-bitwise,
}
use mathlib.Core.Path.{◌≡◌}
use native.Mathlib.Omega.{arith}
use amt_bh_benchmark.Base.Bits.Step.{bit_or_step, bit_and_step, bit_xor_step}

pub zero-bit_and : (b : ℕ) → bit_and 0 b ≡ 0
zero-bit_and b = bit_and-bitwise 0 b

pub zero-bit_or : (b : ℕ) → bit_or 0 b ≡ b
zero-bit_or b = bit_or-bitwise 0 b

pub zero-bit_xor : (b : ℕ) → bit_xor 0 b ≡ b
zero-bit_xor b = bit_xor-bitwise 0 b

pub bit_and_half : (a b : ℕ) → bit_and a b / 2 ≡ bit_and (a / 2) (b / 2)
bit_and_half a b = omega (arith, bit_and_step a b)

pub bit_and_low : (a b : ℕ) → bit_and a b % 2 ≡ min (a % 2) (b % 2)
bit_and_low a b = omega (arith, bit_and_step a b)

pub bit_or_half : (a b : ℕ) → bit_or a b / 2 ≡ bit_or (a / 2) (b / 2)
bit_or_half a b = omega (arith, bit_or_step a b)

pub bit_or_low : (a b : ℕ) → bit_or a b % 2 ≡ max (a % 2) (b % 2)
bit_or_low a b = omega (arith, bit_or_step a b)

pub bit_xor_half : (a b : ℕ) → bit_xor a b / 2 ≡ bit_xor (a / 2) (b / 2)
bit_xor_half a b = omega (arith, bit_xor_step a b)

pub bit_xor_low : (a b : ℕ) → bit_xor a b % 2 ≡ (a % 2 + b % 2) % 2
bit_xor_low a b = omega (arith, bit_xor_step a b)

-- Two numbers are equal if their halves and their lowest digits are.
pub digits_ext : (a b : ℕ) → a / 2 ≡ b / 2 → a % 2 ≡ b % 2 → a ≡ b
digits_ext a b h k = omega arith

-- `&` distributes over `|` and over `^`.
bit_and-bit_or_below :
    (n a b m : ℕ) → a ≤ n → b ≤ n → bit_and (bit_or a b) m ≡ bit_or (bit_and a m) (bit_and b m)
bit_and-bit_or_below zero a b m p q =
    let a0 : a ≡ 0 = omega arith in
    let b0 : b ≡ 0 = omega arith in rw (a0, b0, zero-bit_or 0, zero-bit_and m, zero-bit_or 0)
bit_and-bit_or_below (suc n) a b m p q =
    digits_ext _ _
      (rw (bit_and_half, bit_or_half, bit_or_half, bit_and_half, bit_and_half)
        (bit_and-bit_or_below n (a / 2) (b / 2) (m / 2) (omega arith) (omega arith)))
      (omega (
        arith,
        bit_and_low (bit_or a b) m,
        bit_or_low a b,
        bit_or_low (bit_and a m) (bit_and b m),
        bit_and_low a m,
        bit_and_low b m,
      ))

bit_and-bit_xor_below :
    (n a b m : ℕ) → a ≤ n → b ≤ n → bit_and (bit_xor a b) m ≡ bit_xor (bit_and a m) (bit_and b m)
bit_and-bit_xor_below zero a b m p q =
    let a0 : a ≡ 0 = omega arith in
    let b0 : b ≡ 0 = omega arith in rw (a0, b0, zero-bit_xor 0, zero-bit_and m, zero-bit_xor 0)
bit_and-bit_xor_below (suc n) a b m p q =
    digits_ext _ _
      (rw (bit_and_half, bit_xor_half, bit_xor_half, bit_and_half, bit_and_half)
        (bit_and-bit_xor_below n (a / 2) (b / 2) (m / 2) (omega arith) (omega arith)))
      (omega (
        arith,
        bit_and_low (bit_xor a b) m,
        bit_xor_low a b,
        bit_xor_low (bit_and a m) (bit_and b m),
        bit_and_low a m,
        bit_and_low b m,
      ))

pub bit_and-bit_or : (a b m : ℕ) → bit_and (bit_or a b) m ≡ bit_or (bit_and a m) (bit_and b m)
bit_and-bit_or a b m = bit_and-bit_or_below (a + b) a b m (omega arith) (omega arith)

pub bit_and-bit_xor : (a b m : ℕ) → bit_and (bit_xor a b) m ≡ bit_xor (bit_and a m) (bit_and b m)
bit_and-bit_xor a b m = bit_and-bit_xor_below (a + b) a b m (omega arith) (omega arith)

-- Regrouping a disjunction of four, digit by digit.
bit_or_regroup_below :
    (n a b c d : ℕ)
    → a ≤ n
    → b ≤ n
    → c ≤ n
    → d ≤ n
    → bit_or (bit_or a b) (bit_or c d) ≡ bit_or (bit_or a c) (bit_or b d)
bit_or_regroup_below zero a b c d p q r s =
    let a0 : a ≡ 0 = omega arith in
    let b0 : b ≡ 0 = omega arith in
    let c0 : c ≡ 0 = omega arith in let d0 : d ≡ 0 = omega arith in rw (a0, b0, c0, d0)
bit_or_regroup_below (suc n) a b c d p q r s =
    digits_ext _ _
      (simp bit_or_half (
        bit_or_regroup_below n (a / 2) (b / 2) (c / 2) (d / 2) (omega arith) (omega arith)
          (omega arith) (omega arith)))
      (simp bit_or_low (omega arith))

pub bit_or_regroup :
    (a b c d : ℕ) → bit_or (bit_or a b) (bit_or c d) ≡ bit_or (bit_or a c) (bit_or b d)
bit_or_regroup a b c d =
    bit_or_regroup_below (a + b + c + d) a b c d (omega arith) (omega arith) (omega arith)
      (omega arith)

bit_xor_regroup_below :
    (n a b c d : ℕ)
    → a ≤ n
    → b ≤ n
    → c ≤ n
    → d ≤ n
    → bit_xor (bit_xor a b) (bit_xor c d) ≡ bit_xor (bit_xor a c) (bit_xor b d)
bit_xor_regroup_below zero a b c d p q r s =
    let a0 : a ≡ 0 = omega arith in
    let b0 : b ≡ 0 = omega arith in
    let c0 : c ≡ 0 = omega arith in let d0 : d ≡ 0 = omega arith in rw (a0, b0, c0, d0)
bit_xor_regroup_below (suc n) a b c d p q r s =
    digits_ext _ _
      (simp bit_xor_half (
        bit_xor_regroup_below n (a / 2) (b / 2) (c / 2) (d / 2) (omega arith) (omega arith)
          (omega arith) (omega arith)))
      (simp bit_xor_low (omega arith))

pub bit_xor_regroup :
    (a b c d : ℕ) → bit_xor (bit_xor a b) (bit_xor c d) ≡ bit_xor (bit_xor a c) (bit_xor b d)
bit_xor_regroup a b c d =
    bit_xor_regroup_below (a + b + c + d) a b c d (omega arith) (omega arith) (omega arith)
      (omega arith)
