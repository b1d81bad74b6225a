-- ===== src/Hpx/Morton/Decode.antt =====
-- `decode_prefix` reads back, at each depth, what `morton63` has interleaved.
use native.Mathlib.Nat.{pow-suc, div-mul-le_self, one-le-pow}
use amt_bh_benchmark.Base.{
  ℕ, zero, suc, ◌+◌, ◌-◌, ◌*◌, ◌/◌, ◌%◌, ◌^◌, ◌<◌, ◌≤◌, ◌≡◌, refl, arith, ap, ap₂, sym, ◌∙◌,
}
use amt_bh_benchmark.Base.Bits.{div-two_pow_suc, mod-two_pow_suc, eight_pow, two_pow_add}
use amt_bh_benchmark.Hpx.Morton.{morton63, decode_prefix, compact21}
use amt_bh_benchmark.Hpx.Morton.Spread.{spread_digits}
use amt_bh_benchmark.Hpx.Morton.Compact.{
  compact_digits, div-eight_pow_suc, compact21-eq-compact_digits,
}
use amt_bh_benchmark.Hpx.Morton.Interleave.{interleave, morton63-eq-interleave}

-- The lowest octal digit, and what stands above it.
interleave-suc :
    (n x y z : ℕ)
    → interleave (suc n) x y z
      ≡ x % 2 + 2 * (y % 2) + 4 * (z % 2) + 8 * interleave n (x / 2) (y / 2) (z / 2)
unfolding interleave spread_digits
interleave-suc n x y z = omega arith

-- Dropping the k lowest octal digits of an interleaving halves each coordinate k times.
interleave-div :
    (k n x y z : ℕ)
    → interleave (k + n) x y z / 8 ^ k ≡ interleave n (x / 2 ^ k) (y / 2 ^ k) (z / 2 ^ k)
interleave-div zero n x y z =
    let count : 0 + n ≡ n = omega arith in
    let ex : x / 1 ≡ x = omega arith in
    let ey : y / 1 ≡ y = omega arith in
    let ez : z / 1 ≡ z = omega arith in rw (count, ex, ey, ez) (omega arith)
interleave-div (suc k) n x y z =
    let count : suc k + n ≡ suc (k + n) = omega arith in
    let tail : interleave (suc (k + n)) x y z / 8 ≡ interleave (k + n) (x / 2) (y / 2) (z / 2) =
      omega (arith, interleave-suc (k + n) x y z) in
    rw
      (
        count,
        div-eight_pow_suc (interleave (suc (k + n)) x y z) k,
        tail,
        div-two_pow_suc x k,
        div-two_pow_suc y k,
        div-two_pow_suc z k,
      )
      (interleave-div k n (x / 2) (y / 2) (z / 2))

-- Each coordinate is read back from its own places.
compact_digits-interleave :
    (n x y z : ℕ)
    → (compact_digits n (interleave n x y z) ≡ x % 2 ^ n)
      × (compact_digits n (interleave n x y z / 2) ≡ y % 2 ^ n)
      × (compact_digits n (interleave n x y z / 4) ≡ z % 2 ^ n)
unfolding compact_digits
compact_digits-interleave zero x y z = (omega arith, omega arith, omega arith)
compact_digits-interleave (suc n) x y z =
    let rest = interleave n (x / 2) (y / 2) (z / 2) in
    let digits = interleave-suc n x y z in
    let (rx, ry, rz) = compact_digits-interleave n (x / 2) (y / 2) (z / 2) in
    let tail_x : interleave (suc n) x y z / 8 ≡ rest = omega (arith, digits) in
    let tail_y : interleave (suc n) x y z / 2 / 8 ≡ rest / 2 = omega (arith, digits) in
    let tail_z : interleave (suc n) x y z / 4 / 8 ≡ rest / 4 = omega (arith, digits) in
    (
      rw (tail_x, rx) (omega (arith, digits, mod-two_pow_suc x n)),
      rw (tail_y, ry) (omega (arith, digits, mod-two_pow_suc y n)),
      rw (tail_z, rz) (omega (arith, digits, mod-two_pow_suc z n)),
    )

spread_digits-zero : (n : ℕ) → spread_digits n 0 ≡ 0
unfolding spread_digits
spread_digits-zero zero = refl
spread_digits-zero (suc n) = omega (arith, spread_digits-zero n)

spread_digits_fits : (n m v : ℕ) → v < 2 ^ n → spread_digits (n + m) v ≡ spread_digits n v
unfolding spread_digits
spread_digits_fits zero m v h =
    let count : 0 + m ≡ m = omega arith in
    let none_left : v ≡ 0 = omega arith in rw (count, none_left) (spread_digits-zero m)
spread_digits_fits (suc n) m v h =
    let count : suc n + m ≡ suc (n + m) = omega arith in
    rw (count, spread_digits_fits n m (v / 2) (omega (arith, pow-suc 2 n)))

interleave_fits :
    (d x y z : ℕ)
    → d ≤ 21
    → x < 2 ^ d
    → y < 2 ^ d
    → z < 2 ^ d
    → interleave d x y z ≡ interleave 21 x y z
unfolding interleave
interleave_fits d x y z deep hx hy hz =
    let all : 21 ≡ d + (21 - d) = omega arith in
    rw (
      all,
      spread_digits_fits d (21 - d) x hx,
      spread_digits_fits d (21 - d) y hy,
      spread_digits_fits d (21 - d) z hz,
    )

coordinate-lt : (d x : ℕ) → d ≤ 21 → x < 2 ^ 21 → x / 2 ^ (21 - d) < 2 ^ d
coordinate-lt d x deep h =
    let all : 2 ^ 21 ≡ 2 ^ d * 2 ^ (21 - d) =
      ap (λ (t : ℕ). 2 ^ t) {x = 21} {y = d + (21 - d)} (omega arith) ∙ two_pow_add d (21 - d) in
    grind (arith, all, div-mul-le_self x (2 ^ (21 - d)))

coordinate-lt-top : (d v : ℕ) → d ≤ 21 → v < 2 ^ d → v % 2 ^ 21 ≡ v
coordinate-lt-top d v deep h =
    let all : 2 ^ 21 ≡ 2 ^ d * 2 ^ (21 - d) =
      ap (λ (t : ℕ). 2 ^ t) {x = 21} {y = d + (21 - d)} (omega arith) ∙ two_pow_add d (21 - d) in
    grind (arith, all, one-le-pow (21 - d) 2 (omega arith))

-- For every depth d from 1 to 21, decoding the key of a point gives the cell of the 2^d grid that
-- holds it: the d highest of the 21 digits of each coordinate.
pub decode_prefix-morton63 :
    (d x y z : ℕ)
    → 0 < d
    → d ≤ 21
    → x < 2 ^ 21
    → y < 2 ^ 21
    → z < 2 ^ 21
    → decode_prefix (morton63 x y z) d
      ≡ record { ix = x / 2 ^ (21 - d); iy = y / 2 ^ (21 - d); iz = z / 2 ^ (21 - d) }
unfolding decode_prefix
decode_prefix-morton63 d x y z pos deep hx hy hz =
    rw (bits, one, read_x, read_y, read_z) (ground arith)
  where
    cx : ℕ
    cx = x / 2 ^ (21 - d)

    cy : ℕ
    cy = y / 2 ^ (21 - d)

    cz : ℕ
    cz = z / 2 ^ (21 - d)

    shift : 2 ^ (63 - 3 * d) ≡ 8 ^ (21 - d)
    shift =
        ap (λ (t : ℕ). 2 ^ t) {x = 63 - 3 * d} {y = 3 * (21 - d)} (omega arith)
        ∙ sym (eight_pow (21 - d))

    bits : morton63 x y z / 2 ^ (63 - 3 * d) ≡ interleave 21 cx cy cz
    bits =
        ap₂ ◌/◌ (morton63-eq-interleave x y z) shift
        ∙ ap (λ (t : ℕ). interleave t x y z / 8 ^ (21 - d)) {x = 21} {y = 21 - d + d} (omega arith)
        ∙ interleave-div (21 - d) d x y z
        ∙ interleave_fits d cx cy cz deep (coordinate-lt d x deep hx) (coordinate-lt d y deep hy)
            (coordinate-lt d z deep hz)

    one : interleave 21 cx cy cz / 1 ≡ interleave 21 cx cy cz
    one = omega arith

    fields :
        (compact_digits 21 (interleave 21 cx cy cz) ≡ cx % 2 ^ 21)
        × (compact_digits 21 (interleave 21 cx cy cz / 2) ≡ cy % 2 ^ 21)
        × (compact_digits 21 (interleave 21 cx cy cz / 4) ≡ cz % 2 ^ 21)
    fields = compact_digits-interleave 21 cx cy cz

    read_x : compact21 (interleave 21 cx cy cz) ≡ cx
    read_x =
        compact21-eq-compact_digits _
        ∙ fields.0
        ∙ coordinate-lt-top d cx deep (coordinate-lt d x deep hx)

    read_y : compact21 (interleave 21 cx cy cz / 2) ≡ cy
    read_y =
        compact21-eq-compact_digits _
        ∙ fields.1
        ∙ coordinate-lt-top d cy deep (coordinate-lt d y deep hy)

    read_z : compact21 (interleave 21 cx cy cz / 4) ≡ cz
    read_z =
        compact21-eq-compact_digits _
        ∙ fields.2
        ∙ coordinate-lt-top d cz deep (coordinate-lt d z deep hz)
