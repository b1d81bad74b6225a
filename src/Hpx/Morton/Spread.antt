-- ===== src/Hpx/Morton/Spread.antt =====
-- `spread21` against its meaning, digit by digit.
use native.Mathlib.Nat.{pow-suc, div-div-eq-div-mul, mod-mod}
use amt_bh_benchmark.Base.{
  ℕ, zero, suc, ◌+◌, ◌*◌, ◌/◌, ◌%◌, ◌^◌, ◌<◌, bit_or, ◌==◌, ◌≡◌, refl, arith, ap, ◌∙◌, ==_iff,
  holds_below, holds_below_at, true,
}
use amt_bh_benchmark.Base.Bits.{
  bit_and-bit_or, bit_or_regroup, bit_or_shl, bit_or_mod, bit_or_disjoint, bit_and_ones,
  mod-two_pow_suc_half, mod-two_pow_suc_low, div-two_pow_suc,
}
use amt_bh_benchmark.Hpx.Morton.{spread_round, spread21}

-- Digit j of the number becomes digit 3j.
unfoldable pub spread_digits : ℕ → ℕ → ℕ
spread_digits zero v = 0
spread_digits (suc n) v = v % 2 + 8 * spread_digits n (v / 2)

spread_round-bit_or :
    (k mask a b : ℕ)
    → spread_round k mask (bit_or a b) ≡ bit_or (spread_round k mask a) (spread_round k mask b)
unfolding spread_round
spread_round-bit_or k mask a b = rw (
  bit_or_shl k a b,
  bit_or_mod 64 (a * 2 ^ k) (b * 2 ^ k),
  bit_or_regroup a b (a * 2 ^ k % 2 ^ 64) (b * 2 ^ k % 2 ^ 64),
  bit_and-bit_or (bit_or a (a * 2 ^ k % 2 ^ 64)) (bit_or b (b * 2 ^ k % 2 ^ 64)) mask,
)

spread21-bit_or : (a b : ℕ) → spread21 (bit_or a b) ≡ bit_or (spread21 a) (spread21 b)
unfolding spread21
spread21-bit_or a b = simp (bit_and-bit_or a b 0x1FFFFF, spread_round-bit_or)

-- The rounds on each group of seven digits, by a table.
spread21_table0 : holds_below 128 (λ c. spread21 c == spread_digits 7 c) ≡ true
unfolding holds_below spread21 spread_round spread_digits
spread21_table0 = refl

spread21_table1 : holds_below 128 (λ c. spread21 (c * 2 ^ 7) == spread_digits 7 c * 2 ^ 21) ≡ true
unfolding holds_below spread21 spread_round spread_digits
spread21_table1 = refl

spread21_table2 : holds_below 128 (λ c. spread21 (c * 2 ^ 14) == spread_digits 7 c * 2 ^ 42) ≡ true
unfolding holds_below spread21 spread_round spread_digits
spread21_table2 = refl

spread21_group0 : (c : ℕ) → c < 128 → spread21 c ≡ spread_digits 7 c
spread21_group0 c h = (==_iff _ _).0 (holds_below_at 128 _ c spread21_table0 h)

spread21_group1 : (c : ℕ) → c < 128 → spread21 (c * 2 ^ 7) ≡ spread_digits 7 c * 2 ^ 21
spread21_group1 c h = (==_iff _ _).0 (holds_below_at 128 _ c spread21_table1 h)

spread21_group2 : (c : ℕ) → c < 128 → spread21 (c * 2 ^ 14) ≡ spread_digits 7 c * 2 ^ 42
spread21_group2 c h = (==_iff _ _).0 (holds_below_at 128 _ c spread21_table2 h)

spread_digits-lt : (n v : ℕ) → spread_digits n v < 8 ^ n
unfolding spread_digits
spread_digits-lt zero v = omega arith
spread_digits-lt (suc n) v = omega (arith, spread_digits-lt n (v / 2), pow-suc 8 n)

-- The digits above a place, and those below it.
spread_digits-add :
    (n m v : ℕ) → spread_digits (n + m) v ≡ spread_digits n v + 8 ^ n * spread_digits m (v / 2 ^ n)
unfolding spread_digits
spread_digits-add zero m v =
    let here : v / 1 ≡ v = omega arith in
    let count : 0 + m ≡ m = omega arith in rw (count, here) (omega arith)
spread_digits-add (suc n) m v =
    let count : suc n + m ≡ suc (n + m) = omega arith in
    rw (count, div-two_pow_suc v n)
      (omega (
        arith,
        spread_digits-add n m (v / 2),
        pow-suc 8 n,
        ap (λ (t : ℕ). t * spread_digits m (v / 2 / 2 ^ n)) (pow-suc 8 n),
      ))

spread_digits-mod : (n v : ℕ) → spread_digits n (v % 2 ^ n) ≡ spread_digits n v
unfolding spread_digits
spread_digits-mod zero v = refl
spread_digits-mod (suc n) v =
    rw (mod-two_pow_suc_half v n, mod-two_pow_suc_low v n, spread_digits-mod n (v / 2))

-- The mask of the first line cuts the argument to 21 digits.
spread21-mod : (v : ℕ) → spread21 (v % 2 ^ 21) ≡ spread21 v
unfolding spread21
spread21-mod v = simp (bit_and_ones 21 (v % 2 ^ 21), bit_and_ones 21 v, mod-mod v (2 ^ 21))

spread21_groups :
    (v : ℕ)
    → spread21 v
      ≡ bit_or
          (spread21 (v / 2 ^ 14 % 128 * 2 ^ 14))
          (bit_or (spread21 (v / 2 ^ 7 % 128 * 2 ^ 7)) (spread21 (v % 128)))
spread21_groups v =
    let low : bit_or (v / 2 ^ 7 % 128 * 2 ^ 7) (v % 128) ≡ v % 2 ^ 14 =
      bit_or_disjoint 7 (v / 2 ^ 7 % 128) (v % 128) (omega arith) ∙ omega arith in
    let all : bit_or (v / 2 ^ 14 % 128 * 2 ^ 14) (v % 2 ^ 14) ≡ v % 2 ^ 21 =
      bit_or_disjoint 14 (v / 2 ^ 14 % 128) (v % 2 ^ 14) (omega arith) ∙ omega arith in
    rw (
      ← spread21-bit_or (v / 2 ^ 7 % 128 * 2 ^ 7) (v % 128),
      low,
      ← spread21-bit_or (v / 2 ^ 14 % 128 * 2 ^ 14) (v % 2 ^ 14),
      all,
      spread21-mod v,
    )

-- `spread21` moves digit j of its argument to digit 3j, for the 21 lowest digits.
pub spread21-eq-spread_digits : (v : ℕ) → spread21 v ≡ spread_digits 21 v
spread21-eq-spread_digits v =
    let low = spread_digits-lt 7 (v % 128) in
    let mid = spread_digits-lt 7 (v / 2 ^ 7 % 128) in
    rw
      (
        spread21_groups v,
        spread21_group2 (v / 2 ^ 14 % 128) (omega arith),
        spread21_group1 (v / 2 ^ 7 % 128) (omega arith),
        spread21_group0 (v % 128) (omega arith),
        bit_or_disjoint 21 (spread_digits 7 (v / 2 ^ 7 % 128)) (spread_digits 7 (v % 128)) low,
        bit_or_disjoint 42 (spread_digits 7 (v / 2 ^ 14 % 128))
            (spread_digits 7 (v / 2 ^ 7 % 128) * 2 ^ 21 + spread_digits 7 (v % 128)) (omega arith),
      )
      (omega (
        arith,
        spread_digits-add 7 14 v,
        spread_digits-add 7 7 (v / 2 ^ 7),
        spread_digits-mod 7 v,
        spread_digits-mod 7 (v / 2 ^ 7),
        spread_digits-mod 7 (v / 2 ^ 14),
        ap (spread_digits 7) (div-div-eq-div-mul v (2 ^ 7) (2 ^ 7)),
      ))
