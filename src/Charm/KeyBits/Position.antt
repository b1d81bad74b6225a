-- ===== src/Charm/KeyBits/Position.antt =====
-- `mssb64_pos` finds the highest digit, and so the depth of a node is read off its key.
use native.Mathlib.Nat.{
  pow-suc, div-div-eq-div-mul, one-le-pow, le-div_iff_mul-le, div-lt_iff_lt-mul, div-mul-le_self,
  mul-div_cancel_left,
}
use amt_bh_benchmark.Base.{
  ℕ, suc, ◌+◌, ◌-◌, ◌*◌, ◌/◌, ◌^◌, ◌<◌, ◌≤◌, ◌≡◌, sym, ap, ◌∙◌, ltb, arith, Bool-cases, inl, inr,
}
use amt_bh_benchmark.Base.Int.{pos}
use amt_bh_benchmark.Base.Bits.{two_pow_add}
use amt_bh_benchmark.Charm.KeyBits.{Scan, scan_step, scan_last, mssb64_pos, get_depth_from_key}

-- The scan holds the digits of x0 from n on, fewer than w of them and at least one.
record Holds (x0 w : ℕ) (p : Scan) : Type 0 where
  shifted : x0 / 2 ^ p.n ≡ p.x
  some_digit : 0 < p.x
  few_digits : p.x < 2 ^ w

scan_step-Holds : (x0 s : ℕ) (p : Scan) → Holds x0 (s + s) p → Holds x0 s (scan_step s p)
unfolding scan_step
scan_step-Holds x0 s p h = elim (Bool-cases (ltb (2 ^ s - 1) p.x)) [
  | inl large ↦
      let unit = one-le-pow s 2 (omega arith) in
      rw large (record {
        shifted =
            ap (λ (t : ℕ). x0 / t) (two_pow_add p.n s)
            ∙ sym (div-div-eq-div-mul x0 (2 ^ p.n) (2 ^ s))
            ∙ ap (λ (t : ℕ). t / 2 ^ s) h.shifted;
        some_digit = (le-div_iff_mul-le {k = 2 ^ s} unit).1 (ground (arith, unit));
        few_digits =
            (div-lt_iff_lt-mul {k = 2 ^ s} unit).1 (omega (arith, h.few_digits, two_pow_add s s));
      })
  | inr small ↦ rw small (record {
    shifted = h.shifted;
    some_digit = h.some_digit;
    few_digits = ground (arith, one-le-pow s 2 (omega arith));
  })
]

-- n is the place of the highest digit of x.
abbrev pub IsTop : ℕ → ℕ → Type 0
IsTop x n = (2 ^ n ≤ x) × (x < 2 ^ suc n)

scan_last-IsTop : (x0 : ℕ) (p : Scan) → Holds x0 2 p → IsTop x0 (scan_last p)
unfolding scan_last
scan_last-IsTop x0 p h =
    let unit = one-le-pow p.n 2 (omega arith) in
    let low : p.x * 2 ^ p.n ≤ x0 =
      omega (arith, ap (λ (t : ℕ). t * 2 ^ p.n) h.shifted, div-mul-le_self x0 (2 ^ p.n)) in
    let high : x0 < suc p.x * 2 ^ p.n =
      (div-lt_iff_lt-mul {k = 2 ^ p.n} unit).0 (omega (arith, h.shifted)) in
    elim (Bool-cases (ltb 1 p.x)) [
      | inl two ↦
          let next : p.n + 1 ≡ suc p.n = omega arith in
          rw (two, next)
            (
              grind (arith, low, two, pow-suc 2 p.n),
              grind (arith, high, h.few_digits, pow-suc 2 p.n, pow-suc 2 (suc p.n)),
            )
      | inr one ↦
          let only : p.x ≡ 1 = ground (arith, h.some_digit) in
          rw one (
            omega (arith, low, ap (λ (t : ℕ). t * 2 ^ p.n) only),
            omega (arith, high, ap (λ (t : ℕ). suc t * 2 ^ p.n) only, pow-suc 2 p.n),
          )
    ]

-- Of a 64-bit number that is not zero `mssb64_pos` returns the place of the highest digit.
pub mssb64_pos-IsTop : (x : ℕ) → 0 < x → x < 2 ^ 64 → (n : ℕ) × (mssb64_pos x ≡ pos n) × IsTop x n
unfolding mssb64_pos
mssb64_pos-IsTop x positive fits = (
  _,
  ground arith,
  scan_last-IsTop x _ (
      scan_step-Holds x 2 _ (
        scan_step-Holds x 4 _ (
          scan_step-Holds x 8 _
            (scan_step-Holds x 16 _ (scan_step-Holds x 32 (record { n = 0; x = x }) start))))),
)
  where
    start : Holds x 64 (record { n = 0; x = x })
    start = record { shifted = omega arith; some_digit = positive; few_digits = fits }

two_pow_reflects : (a b : ℕ) → 2 ^ a < 2 ^ b → a < b
two_pow_reflects a b h = elim (Bool-cases (ltb a b)) [
  | inl yes_lt ↦ ground arith
  | inr above ↦
      let split : 2 ^ a ≡ 2 ^ b * 2 ^ (a - b) =
        ap (λ (t : ℕ). 2 ^ t) {x = a} {y = b + (a - b)} (ground arith) ∙ two_pow_add b (a - b) in
      let unit = one-le-pow (a - b) 2 (omega arith) in absurd (grind (arith, split, unit, h))
]

IsTop-unique : (x m n : ℕ) → IsTop x m → IsTop x n → m ≡ n
IsTop-unique x m n h k = omega (
  arith,
  two_pow_reflects m (suc n) (omega (arith, h.0, k.1)),
  two_pow_reflects n (suc m) (omega (arith, k.0, h.1)),
)

-- A key of depth d has its highest digit at place log_branch * d, and there the depth is read off.
pub get_depth_from_key_lem :
    (log_branch d k : ℕ)
    → 0 < log_branch
    → k < 2 ^ 64
    → IsTop k (log_branch * d)
    → get_depth_from_key log_branch k ≡ pos d
unfolding get_depth_from_key
get_depth_from_key_lem log_branch d k l fits top =
    let (n, found, place) =
      mssb64_pos-IsTop k (omega (arith, top.0, one-le-pow (log_branch * d) 2 (omega arith))) fits in
    let same = IsTop-unique k n (log_branch * d) place top in
    rw (found, get_depth_from_key)
      (ap pos (ap (λ (t : ℕ). t / log_branch) same ∙ mul-div_cancel_left d l))
