-- ===== src/Hpx/Morton/Compact.antt =====
-- `compact21` against its meaning, digit by digit.
use native.Mathlib.Nat.{
  pow-suc, div-div-eq-div-mul, mod-eq-sub-div-mul, div-mul-le_self, mod-lt, one-le-pow,
}
use amt_bh_benchmark.Base.{
  ℕ, zero, suc, ◌+◌, ◌*◌, ◌/◌, ◌%◌, ◌^◌, ◌<◌, ◌≤◌, bit_xor, ◌==◌, ◌≡◌, refl, arith, ap, ◌∙◌, ==_iff,
  holds_below, holds_below_at, true,
}
use amt_bh_benchmark.Base.Bits.{
  bit_and-bit_xor, bit_xor_regroup, bit_xor_shr, bit_xor_disjoint, bit_and_mask_mod, two_pow_add,
  eight_pow,
}
use amt_bh_benchmark.Hpx.Morton.{compact_round, compact_rounds, compact21}

-- Digit 3j of the number becomes digit j.
unfoldable pub compact_digits : ℕ → ℕ → ℕ
compact_digits zero m = 0
compact_digits (suc n) m = m % 2 + 2 * compact_digits n (m / 8)

compact_round-bit_xor :
    (k mask a b : ℕ)
    → compact_round k mask (bit_xor a b) ≡ bit_xor (compact_round k mask a) (compact_round k mask b)
unfolding compact_round
compact_round-bit_xor k mask a b = rw (
  bit_xor_shr k a b,
  bit_xor_regroup a b (a / 2 ^ k) (b / 2 ^ k),
  bit_and-bit_xor (bit_xor a (a / 2 ^ k)) (bit_xor b (b / 2 ^ k)) mask,
)

compact_rounds-bit_xor :
    (a b : ℕ) → compact_rounds (bit_xor a b) ≡ bit_xor (compact_rounds a) (compact_rounds b)
unfolding compact_rounds
compact_rounds-bit_xor a b = simp (bit_and-bit_xor a b 0x1249249249249249, compact_round-bit_xor)

-- The rounds on each group of nine digits, by a table.
compact_table :
    holds_below 7 (λ j.
      holds_below 512 (λ c. compact_rounds (c * 2 ^ (9 * j)) == compact_digits 3 c * 2 ^ (3 * j)))
    ≡ true
unfolding holds_below compact_rounds compact_round compact_digits
compact_table = refl

compact_rounds_group :
    (j c : ℕ)
    → j < 7
    → c < 512
    → compact_rounds (c * 2 ^ (9 * j)) ≡ compact_digits 3 c * 2 ^ (3 * j)
compact_rounds_group j c h k =
    (==_iff _ _).0 (holds_below_at 512 _ c (holds_below_at 7 _ j compact_table h) k)

pub compact_digits-lt : (n m : ℕ) → compact_digits n m < 2 ^ n
unfolding compact_digits
compact_digits-lt zero m = omega arith
compact_digits-lt (suc n) m = omega (arith, compact_digits-lt n (m / 8), pow-suc 2 n)

pub div-eight_pow_suc : (m n : ℕ) → m / 8 ^ suc n ≡ m / 8 / 8 ^ n
div-eight_pow_suc m n =
    rw (div-div-eq-div-mul m 8 (8 ^ n)) (ap (λ (t : ℕ). m / t) (omega (arith, pow-suc 8 n)))

-- The remainder by a product, from the remainder by its second factor.
mod_mul : (m a b : ℕ) → m % (a * b) ≡ m / a % b * a + m % a
mod_mul m a b = omega (
  arith,
  mod-eq-sub-div-mul m (a * b),
  mod-eq-sub-div-mul (m / a) b,
  mod-eq-sub-div-mul m a,
  div-mul-le_self m a,
  div-mul-le_self (m / a) b,
  ap (λ (t : ℕ). t * (a * b)) (div-div-eq-div-mul m a b),
  ap (λ (t : ℕ). t * a) {x = m / a / b * b + m / a % b} {y = m / a}
      (omega (arith, mod-eq-sub-div-mul (m / a) b, div-mul-le_self (m / a) b)),
)

mod-eight_pow_suc : (m n : ℕ) → m % 8 ^ suc n ≡ m / 8 % 8 ^ n * 8 + m % 8
mod-eight_pow_suc m n =
    ap (λ (t : ℕ). m % t) {y = 8 * 8 ^ n} (omega (arith, pow-suc 8 n)) ∙ mod_mul m 8 (8 ^ n)

compact_digits-mod : (n m : ℕ) → compact_digits n (m % 8 ^ n) ≡ compact_digits n m
unfolding compact_digits
compact_digits-mod zero m = refl
compact_digits-mod (suc n) m =
    let tail : m % 8 ^ suc n / 8 ≡ m / 8 % 8 ^ n = omega (arith, mod-eight_pow_suc m n) in
    rw (tail, compact_digits-mod n (m / 8)) (omega (arith, mod-eight_pow_suc m n))

compact_digits-add :
    (n k m : ℕ)
    → compact_digits (n + k) m ≡ compact_digits n m + 2 ^ n * compact_digits k (m / 8 ^ n)
unfolding compact_digits
compact_digits-add zero k m =
    let here : m / 1 ≡ m = omega arith in
    let count : 0 + k ≡ k = omega arith in rw (count, here) (omega arith)
compact_digits-add (suc n) k m =
    let count : suc n + k ≡ suc (n + k) = omega arith in
    rw (count, div-eight_pow_suc m n)
      (omega (
        arith,
        compact_digits-add n k (m / 8),
        ap (λ (t : ℕ). t * compact_digits k (m / 8 / 8 ^ n)) (pow-suc 2 n),
      ))

-- The first mask drops what lies above 63 digits.
compact_rounds-masked : (m : ℕ) → compact_rounds m ≡ compact_rounds (m % 2 ^ 63)
unfolding compact_rounds
compact_rounds-masked m = rw (bit_and_mask_mod 63 m 0x1249249249249249 (omega arith))

-- Nine more digits of the argument give three more of the result.
compact_rounds-mod : (j m : ℕ) → j ≤ 7 → compact_rounds (m % 2 ^ (9 * j)) ≡ compact_digits (3 * j) m
compact_rounds-mod zero m h =
    let e : m % 1 ≡ 0 = omega arith in unfold compact_rounds compact_round compact_digits in rw e
compact_rounds-mod (suc j) m h =
    let places : 9 * suc j ≡ 9 * j + 9 = omega arith in
    let digits : 3 * suc j ≡ 3 * j + 3 = omega arith in
    let top = m / 2 ^ (9 * j) % 512 in
    let ninefold : m / 8 ^ (3 * j) ≡ m / 2 ^ (9 * j) =
      ap (λ (t : ℕ). m / t)
        (eight_pow (3 * j) ∙ ap (λ (t : ℕ). 2 ^ t) {x = 3 * (3 * j)} {y = 9 * j} (omega arith)) in
    let fits = mod-lt m {m = 2 ^ (9 * j)} (one-le-pow (9 * j) 2 (omega arith)) in
    rw
      (
        places,
        digits,
        two_pow_add (9 * j) 9,
        mod_mul m (2 ^ (9 * j)) 512,
        ← bit_xor_disjoint (9 * j) top (m % 2 ^ (9 * j)) fits,
        compact_rounds-bit_xor (top * 2 ^ (9 * j)) (m % 2 ^ (9 * j)),
        compact_rounds_group j top (omega arith) (omega arith),
        compact_rounds-mod j m (omega arith),
        bit_xor_disjoint (3 * j) (compact_digits 3 top) (compact_digits (3 * j) m)
            (compact_digits-lt (3 * j) m),
        compact_digits-add (3 * j) 3 m,
      )
      (rw (compact_digits-mod 3 (m / 2 ^ (9 * j)), ninefold) (omega arith))

-- `compact21` moves digit 3j of its argument to digit j, for j below 21, and drops the others.
pub compact21-eq-compact_digits : (m : ℕ) → compact21 m ≡ compact_digits 21 m
unfolding compact21
compact21-eq-compact_digits m =
    let all : compact_rounds m ≡ compact_digits 21 m =
      compact_rounds-masked m ∙ compact_rounds-mod 7 m (omega arith) in
    rw all (omega (arith, compact_digits-lt 21 m))
