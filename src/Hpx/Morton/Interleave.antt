-- ===== src/Hpx/Morton/Interleave.antt =====
-- `morton63` against its meaning: the digits of three numbers, interleaved.
use native.Mathlib.Nat.{pow-suc}
use amt_bh_benchmark.Base.{ℕ, zero, suc, ◌+◌, ◌*◌, ◌/◌, ◌%◌, ◌^◌, ◌<◌, bit_or, ◌≡◌, refl, arith}
use amt_bh_benchmark.Base.Bits.{bit_or_octal, bit_or_div_eight, bit_or_mod_eight}
use amt_bh_benchmark.Hpx.Morton.{morton63}
use amt_bh_benchmark.Hpx.Morton.Spread.{spread_digits, spread21-eq-spread_digits}

-- The n lowest digits of three numbers, interleaved.
unfoldable pub interleave : ℕ → ℕ → ℕ → ℕ → ℕ
interleave n x y z = spread_digits n x + 2 * spread_digits n y + 4 * spread_digits n z

spread_digits_room : (n v : ℕ) → 7 * spread_digits n v < 8 ^ n
unfolding spread_digits
spread_digits_room zero v = omega arith
spread_digits_room (suc n) v = omega (arith, spread_digits_room n (v / 2), pow-suc 8 n)

pub interleave-lt : (n x y z : ℕ) → interleave n x y z < 8 ^ n
unfolding interleave
interleave-lt n x y z =
    omega (arith, spread_digits_room n x, spread_digits_room n y, spread_digits_room n z)

low_digits :
    (a b c : ℕ) → a < 2 → b < 2 → c < 2 → bit_or (bit_or a (2 * b)) (4 * c) ≡ a + 2 * b + 4 * c
low_digits zero zero zero h k l = refl
low_digits zero zero (suc zero) h k l = refl
low_digits zero (suc zero) zero h k l = refl
low_digits zero (suc zero) (suc zero) h k l = refl
low_digits (suc zero) zero zero h k l = refl
low_digits (suc zero) zero (suc zero) h k l = refl
low_digits (suc zero) (suc zero) zero h k l = refl
low_digits (suc zero) (suc zero) (suc zero) h k l = refl
low_digits (suc (suc a)) b c h k l = absurd (omega arith)
low_digits zero (suc (suc b)) c h k l = absurd (omega arith)
low_digits (suc zero) (suc (suc b)) c h k l = absurd (omega arith)
low_digits zero zero (suc (suc c)) h k l = absurd (omega arith)
low_digits zero (suc zero) (suc (suc c)) h k l = absurd (omega arith)
low_digits (suc zero) zero (suc (suc c)) h k l = absurd (omega arith)
low_digits (suc zero) (suc zero) (suc (suc c)) h k l = absurd (omega arith)

-- The three disjuncts use different places, so their disjunction is their sum.
bit_or_interleaved :
    (n x y z : ℕ)
    → bit_or (bit_or (spread_digits n x) (2 * spread_digits n y)) (4 * spread_digits n z)
      ≡ interleave n x y z
unfolding spread_digits interleave
bit_or_interleaved zero x y z = refl
bit_or_interleaved (suc n) x y z =
    rw
      (
        bit_or_octal (bit_or a (2 * b)) (4 * c),
        bit_or_div_eight a (2 * b),
        bit_or_mod_eight a (2 * b),
        a_div,
        b_div,
        c_div,
        a_mod,
        b_mod,
        c_mod,
        low_digits (x % 2) (y % 2) (z % 2) (omega arith) (omega arith) (omega arith),
        bit_or_interleaved n (x / 2) (y / 2) (z / 2),
      )
      (omega arith)
  where
    a : ℕ
    a = x % 2 + 8 * spread_digits n (x / 2)

    b : ℕ
    b = y % 2 + 8 * spread_digits n (y / 2)

    c : ℕ
    c = z % 2 + 8 * spread_digits n (z / 2)

    a_div : a / 8 ≡ spread_digits n (x / 2)
    a_div = omega arith

    b_div : 2 * b / 8 ≡ 2 * spread_digits n (y / 2)
    b_div = omega arith

    c_div : 4 * c / 8 ≡ 4 * spread_digits n (z / 2)
    c_div = omega arith

    a_mod : a % 8 ≡ x % 2
    a_mod = omega arith

    b_mod : 2 * b % 8 ≡ 2 * (y % 2)
    b_mod = omega arith

    c_mod : 4 * c % 8 ≡ 4 * (z % 2)
    c_mod = omega arith

-- `morton63` interleaves the 21 lowest digits of its arguments, and neither shift loses a digit.
pub morton63-eq-interleave : (x y z : ℕ) → morton63 x y z ≡ interleave 21 x y z
unfolding morton63
morton63-eq-interleave x y z =
    let sx = spread_digits 21 x in
    let sy = spread_digits 21 y in
    let sz = spread_digits 21 z in
    let shift_y : sy * 2 % 2 ^ 64 ≡ 2 * sy = omega (arith, spread_digits_room 21 y) in
    let shift_z : sz * 4 % 2 ^ 64 ≡ 4 * sz = omega (arith, spread_digits_room 21 z) in
    rw
      (
        spread21-eq-spread_digits x,
        spread21-eq-spread_digits y,
        spread21-eq-spread_digits z,
        shift_y,
        shift_z,
      )
      (bit_or_interleaved 21 x y z)
