-- ===== src/Ttg/Key/Validity.antt =====
-- The keys that `is_valid` accepts.
use native.Mathlib.Nat.{one-le-pow, pow-suc}
use amt_bh_benchmark.Base.{
  ℕ, suc, ◌+◌, ◌-◌, ◌*◌, ◌%◌, ◌^◌, ◌<◌, ◌≤◌, ◌≡◌, refl, ap, ◌∙◌, true, false, ltb, leb, arith,
  Bool-cases, inl, inr, ◌↔◌,
}
use amt_bh_benchmark.Base.Bits.{two_pow_add}
use amt_bh_benchmark.Base.Int.{ℤ, pos, negsuc, ◌+ℤ◌, ◌-ℤ◌, pos_part, neg_part}
use amt_bh_benchmark.Ttg.Key.{
  Key, neighbor, minus, twice, width, to_translation, in_range, is_invalid, is_valid, child_at,
  max_level,
}
use amt_bh_benchmark.Ttg.Key.Children.{
  sub_pos, sub_negsuc, twice_pos, get_bit-lt, exact_child, child_at-exact_child, Doubles,
  IsDoublable,
}

-- t is a translation of a key of level n: 0, ..., 2^n - 1.
abbrev pub Inside : ℕ → ℤ → Type 0
Inside n (pos t) = t < 2 ^ n
Inside n (negsuc t) = ⊥

pub record IsInTree (key : Key) : Type 0 where
  pub level : key.n < max_level
  pub x : Inside key.n key.l.x
  pub y : Inside key.n key.l.y
  pub z : Inside key.n key.l.z

two_pow-le : (n m : ℕ) → n ≤ m → 2 ^ n ≤ 2 ^ m
two_pow-le n m h =
    let split : 2 ^ m ≡ 2 ^ n * 2 ^ (m - n) =
      ap (λ (t : ℕ). 2 ^ t) {x = m} {y = n + (m - n)} (omega arith) ∙ two_pow_add n (m - n) in
    grind (arith, split, one-le-pow (m - n) 2 (omega arith))

width_lem : (n : ℕ) → n < 31 → width n ≡ pos (2 ^ n)
unfolding to_translation
width_lem n h =
    let small = two_pow-le n 30 (omega arith) in
    let fits : 2 ^ n % 2 ^ 64 % 2 ^ 32 ≡ 2 ^ n = omega (arith, small) in
    rw fits (ground (arith, small))

in_range-Inside : (n : ℕ) (t : ℤ) → n < 31 → in_range n t ≡ true → Inside n t
in_range-Inside n (pos t) h e = ground (arith, width_lem n h)
in_range-Inside n (negsuc t) h e = absurd (ground arith)

Inside-in_range : (n : ℕ) (t : ℤ) → n < 31 → Inside n t → in_range n t ≡ true
Inside-in_range n (pos t) h e = rw (width_lem n h) (ground arith)
Inside-in_range n (negsuc t) h e = absurd e

-- At level 31 the width is negative, so nothing is in range.
in_range_at_31 : (t : ℤ) → in_range 31 t ≡ false
unfolding to_translation
in_range_at_31 (pos t) = ground arith
in_range_at_31 (negsuc t) = ground arith

in_range_top : (n : ℕ) (t : ℤ) → n ≤ 31 → in_range n t ≡ true → n < 31
in_range_top n t h e = elim (Bool-cases (ltb n 31)) [
  | inl below ↦ ground arith
  | inr top ↦
      let at : n ≡ 31 = ground arith in
      absurd (ground (arith, ap (λ m. in_range m t) at, in_range_at_31 t))
]

-- Of the keys of levels up to MAX_LEVEL, `is_valid` accepts those below level MAX_LEVEL with each
-- translation from 0 to 2^n - 1, and none of level MAX_LEVEL.
pub is_valid-iff-IsInTree : (key : Key) → key.n ≤ max_level → (is_valid key ≡ true) ↔ IsInTree key
unfolding is_valid is_invalid
is_valid-iff-IsInTree key h = (
  λ e.
      let level : key.n < 31 = in_range_top key.n key.l.x h (ground arith) in
      record {
        level = level;
        x = in_range-Inside key.n key.l.x level (ground arith);
        y = in_range-Inside key.n key.l.y level (ground arith);
        z = in_range-Inside key.n key.l.z level (ground arith);
      },
  λ v.
      rw
        (
          Inside-in_range key.n key.l.x v.level v.x,
          Inside-in_range key.n key.l.y v.level v.y,
          Inside-in_range key.n key.l.z v.level v.z,
        )
        (ground (arith, v.level)),
)

Inside-twice : (n bit : ℕ) (t : ℤ) → bit < 2 → Inside n t → Inside (n + 1) (twice t bit)
Inside-twice n bit (pos t) h i =
    let next : n + 1 ≡ suc n = omega arith in
    rw (twice_pos t bit, next) (omega (arith, pow-suc 2 n))
Inside-twice n bit (negsuc t) h i = absurd i

Inside-Doubles : (n : ℕ) (t : ℤ) → n < 31 → Inside n t → Doubles t
Inside-Doubles n (pos t) h i = omega (arith, two_pow-le n 30 (omega arith))
Inside-Doubles n (negsuc t) h i = absurd i

-- A child of a valid key is valid, unless it is at level MAX_LEVEL.
pub child_at-IsValid :
    (key : Key) (idx : ℕ)
    → key.n + 1 < max_level
    → is_valid key ≡ true
    → is_valid (child_at key idx) ≡ true
unfolding exact_child
child_at-IsValid key idx h valid =
    let v = (is_valid-iff-IsInTree key (omega arith)).0 valid in
    let fits : IsDoublable key = record {
      x = Inside-Doubles key.n key.l.x v.level v.x;
      y = Inside-Doubles key.n key.l.y v.level v.y;
      z = Inside-Doubles key.n key.l.z v.level v.z;
    } in
    rw (child_at-exact_child key idx fits) (
      (is_valid-iff-IsInTree (exact_child key idx) (omega arith)).1 (record {
        level = h;
        x = Inside-twice key.n _ key.l.x (get_bit-lt idx 0) v.x;
        y = Inside-twice key.n _ key.l.y (get_bit-lt idx 1) v.y;
        z = Inside-twice key.n _ key.l.z (get_bit-lt idx 2) v.z;
      }))

add_difference : (a b : ℤ) → a +ℤ (b -ℤ a) ≡ b
unfolding ◌+ℤ◌ ◌-ℤ◌
add_difference a (pos n) = elim (Bool-cases (leb (0 + pos_part a) (n + neg_part a))) [
  | inl up ↦
      rw (sub_pos (n + neg_part a) (0 + pos_part a) (n + neg_part a - pos_part a) (ground arith))
        (sub_pos _ _ _ (ground arith))
  | inr down ↦
      rw
        (sub_negsuc (n + neg_part a) (0 + pos_part a) (pos_part a - (n + neg_part a) - 1)
          (ground arith))
        (sub_pos _ _ _ (ground arith))
]
add_difference a (negsuc n) = elim (Bool-cases (leb (suc n + pos_part a) (0 + neg_part a))) [
  | inl up ↦
      rw
        (sub_pos (0 + neg_part a) (suc n + pos_part a) (neg_part a - (suc n + pos_part a))
          (ground arith))
        (sub_negsuc _ _ _ (ground arith))
  | inr down ↦
      rw
        (sub_negsuc (0 + neg_part a) (suc n + pos_part a) (suc n + pos_part a - neg_part a - 1)
          (ground arith))
        (sub_negsuc _ _ _ (ground arith))
]

-- Of two keys of a level below MAX_LEVEL, the second one valid, the second is the neighbour of the
-- first at their difference.
pub neighbor-minus :
    (key other : Key)
    → key.n ≡ other.n
    → other.n < max_level
    → is_valid other ≡ true
    → neighbor key (minus other key) ≡ other
unfolding neighbor minus
neighbor-minus key other level low valid =
    let v = (is_valid-iff-IsInTree other (omega arith)).0 valid in
    rw
      (
        level,
        add_difference key.l.x other.l.x,
        add_difference key.l.y other.l.y,
        add_difference key.l.z other.l.z,
        Inside-in_range other.n other.l.x low v.x,
        Inside-in_range other.n other.l.y low v.y,
        Inside-in_range other.n other.l.z low v.z,
      )
      refl
