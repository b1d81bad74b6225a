-- ===== src/Base/Bits/Step.antt =====
-- The native bitwise operations recur on binary digits, with the first number for a count of them.
-- Here the count is dropped: one equation of each operation, for its lowest digit.
use Prim.Native.Nat.{
  ℕ, zero, suc, ◌+◌, ◌-◌, ◌*◌, ◌/◌, ◌%◌, ◌≤◌, ◌<◌, min, max, bit_and, bit_or, bit_xor, digits,
  differ, bit_and-bitwise, bit_or-bitwise, bit_xor-bitwise,
}
use mathlib.Core.Path.{◌≡◌, refl, ap, ◌∙◌}
use native.Mathlib.Omega.{arith}

module _ (rest : ℕ → ℕ) (op : ℕ → ℕ → ℕ) where
  -- A count that covers the first number may be one larger.
  digits-suc : (n a b : ℕ) → a ≤ n → digits rest op (suc n) a b ≡ digits rest op n a b
  digits-suc zero zero b h = refl
  digits-suc (suc n) zero b h = refl
  digits-suc zero (suc a) b h = absurd (omega arith)
  digits-suc (suc n) (suc a) b h =
      ap (λ (t : ℕ). t * 2 + op (suc a % 2) (b % 2))
        (digits-suc n (suc a / 2) (b / 2) (omega arith))

  -- So it may exceed it by any amount.
  digits-add : (k n a b : ℕ) → a ≤ n → digits rest op (k + n) a b ≡ digits rest op n a b
  digits-add zero n a b h = ap (λ (t : ℕ). digits rest op t a b) (omega arith)
  digits-add (suc k) n a b h =
      ap (λ (t : ℕ). digits rest op t a b) {y = suc (k + n)} (omega arith)
      ∙ digits-suc (k + n) a b (omega arith)
      ∙ digits-add k n a b h

  digits-of_le : (m a b : ℕ) → a ≤ m → digits rest op m a b ≡ digits rest op a a b
  digits-of_le m a b h =
      ap (λ (t : ℕ). digits rest op t a b) {y = m - a + a} (omega arith)
      ∙ digits-add (m - a) a a b (omega arith)

pub bit_and_step : (a b : ℕ) → bit_and a b ≡ bit_and (a / 2) (b / 2) * 2 + min (a % 2) (b % 2)
bit_and_step zero b = rw (bit_and-bitwise 0 b, bit_and-bitwise 0 (b / 2)) (omega arith)
bit_and_step (suc a) b = omega (
  arith,
  bit_and-bitwise (suc a) b,
  bit_and-bitwise (suc a / 2) (b / 2),
  digits-of_le (λ _. 0) min a (suc a / 2) (b / 2) (omega arith),
)

pub bit_or_step : (a b : ℕ) → bit_or a b ≡ bit_or (a / 2) (b / 2) * 2 + max (a % 2) (b % 2)
bit_or_step zero b = rw (bit_or-bitwise 0 b, bit_or-bitwise 0 (b / 2)) (omega arith)
bit_or_step (suc a) b = omega (
  arith,
  bit_or-bitwise (suc a) b,
  bit_or-bitwise (suc a / 2) (b / 2),
  digits-of_le (λ y. y) max a (suc a / 2) (b / 2) (omega arith),
)

differ-mod : (x y : ℕ) → x < 2 → y < 2 → differ x y ≡ (x + y) % 2
differ-mod zero zero h k = refl
differ-mod zero (suc zero) h k = refl
differ-mod (suc zero) zero h k = refl
differ-mod (suc zero) (suc zero) h k = refl
differ-mod (suc (suc x)) y h k = absurd (omega arith)
differ-mod x (suc (suc y)) h k = absurd (omega arith)

pub bit_xor_step : (a b : ℕ) → bit_xor a b ≡ bit_xor (a / 2) (b / 2) * 2 + (a % 2 + b % 2) % 2
bit_xor_step zero b = rw (bit_xor-bitwise 0 b, bit_xor-bitwise 0 (b / 2)) (omega arith)
bit_xor_step (suc a) b = omega (
  arith,
  bit_xor-bitwise (suc a) b,
  bit_xor-bitwise (suc a / 2) (b / 2),
  digits-of_le (λ y. y) differ a (suc a / 2) (b / 2) (omega arith),
  differ-mod (suc a % 2) (b % 2) (omega arith) (omega arith),
)
