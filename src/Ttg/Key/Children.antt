-- ===== src/Ttg/Key/Children.antt =====
-- A child's parent is its key, its index is the one it was made with, and the iteration over the
-- children meets them in the order of their indices.
use amt_bh_benchmark.Base.{
  ℕ, zero, suc, ◌+◌, ◌-◌, ◌*◌, ◌/◌, ◌%◌, ◌^◌, ◌<◌, ◌≡◌, refl, sym, ap, ap₂, ◌∙◌, bit_or, ltb,
  if◌then◌else◌, ◌∷◌, map, range_from, ◌↔◌, Bool-cases, inl, inr, leb, arith,
}
use mathlib.Core.Path.{fun_ext}
use amt_bh_benchmark.Base.Bits.{bit_or_disjoint}
use amt_bh_benchmark.Base.Int.{ℤ, pos, negsuc, ◌+ℤ◌, ◌-ℤ◌, ◌*ℤ◌, shr_ℤ, low_bit_ℤ, sub_ℕ}
use amt_bh_benchmark.Ttg.Key.{
  Translations, Key, parent, twice, get_bit, first_child, next_child, childindex, child_at,
  max_level, each, int_32, to_translation, children, children_from,
}

pub sub_pos : (a b c : ℕ) → a ≡ b + c → sub_ℕ a b ≡ pos c
sub_pos a b c e = ground arith

pub sub_negsuc : (a b c : ℕ) → b ≡ a + suc c → sub_ℕ a b ≡ negsuc c
sub_negsuc a b c e = ground arith

-- 2 * t and 2 * t + bit, by the sign of t.
double_pos : (n : ℕ) → pos 2 *ℤ pos n ≡ pos (2 * n)
unfolding ◌*ℤ◌
double_pos n = sub_pos _ _ _ (omega arith)

double_negsuc : (n : ℕ) → pos 2 *ℤ negsuc n ≡ negsuc (2 * n + 1)
unfolding ◌*ℤ◌
double_negsuc n = sub_negsuc _ _ _ (omega arith)

pub twice_pos : (n bit : ℕ) → twice (pos n) bit ≡ pos (2 * n + bit)
unfolding ◌+ℤ◌
twice_pos n bit = rw (double_pos n) (sub_pos _ _ _ (omega arith))

pub twice_negsuc : (n bit : ℕ) → bit < 2 → twice (negsuc n) bit ≡ negsuc (2 * n + 1 - bit)
unfolding ◌+ℤ◌
twice_negsuc n bit h = rw (double_negsuc n) (sub_negsuc _ _ _ (omega arith))

shr-twice : (t : ℤ) (bit : ℕ) → bit < 2 → shr_ℤ (twice t bit) 1 ≡ t
shr-twice (pos n) bit h = rw (twice_pos n bit) (ap pos (omega arith))
shr-twice (negsuc n) bit h = rw (twice_negsuc n bit h) (ap negsuc (omega arith))

low_bit-twice : (t : ℤ) (bit : ℕ) → bit < 2 → low_bit_ℤ (twice t bit) ≡ bit
low_bit-twice (pos n) bit h = rw (twice_pos n bit) (omega arith)
low_bit-twice (negsuc n) bit h = rw (twice_negsuc n bit h) (omega arith)

twice-shr : (t : ℤ) → twice (shr_ℤ t 1) (low_bit_ℤ t) ≡ t
twice-shr (pos n) = twice_pos (n / 2) (n % 2) ∙ ap pos (omega arith)
twice-shr (negsuc n) = twice_negsuc (n / 2) ((n + 1) % 2) (omega arith) ∙ ap negsuc (omega arith)

pub get_bit-lt : (bits d : ℕ) → get_bit bits d < 2
unfolding get_bit
get_bit-lt bits d = omega arith

Translations-ext : (a b : Translations) → a.x ≡ b.x → a.y ≡ b.y → a.z ≡ b.z → a ≡ b
Translations-ext a b e f g i = record { x = e i; y = f i; z = g i }

pub Key-ext : (a b : Key) → a.n ≡ b.n → a.l.x ≡ b.l.x → a.l.y ≡ b.l.y → a.l.z ≡ b.l.z → a ≡ b
Key-ext a b e f g h i = record { n = e i; l = Translations-ext a.l b.l f g h i }

-- A child with its translations as integers.
unfoldable pub exact_child : Key → ℕ → Key
exact_child key idx = record { n = key.n + 1; l = each (λ d t. twice t (get_bit idx d)) key.l }

-- Twice the translation is an int32_t, and twice and one too.
abbrev pub Doubles : ℤ → Type 0
Doubles (pos n) = n < 2 ^ 30
Doubles (negsuc n) = n < 2 ^ 30

pub record IsDoublable (key : Key) : Type 0 where
  pub x : Doubles key.l.x
  pub y : Doubles key.l.y
  pub z : Doubles key.l.z

int_32-twice : (t : ℤ) (bit : ℕ) → bit < 2 → Doubles t → int_32 (twice t bit) ≡ twice t bit
unfolding int_32 to_translation
int_32-twice (pos n) bit h fits =
    rw (twice_pos n bit)
      (let small : (2 * n + bit) % 2 ^ 32 ≡ 2 * n + bit = omega arith in rw small (ground arith))
int_32-twice (negsuc n) bit h fits = rw (twice_negsuc n bit h) (
    let low : (2 ^ 32 - 1 - (2 * n + 1 - bit) % 2 ^ 32) % 2 ^ 32 ≡ 2 ^ 32 - 1 - (2 * n + 1 - bit) =
      omega arith in
    rw low (ground arith))

pub child_at-exact_child :
    (key : Key) (idx : ℕ) → IsDoublable key → child_at key idx ≡ exact_child key idx
unfolding child_at exact_child
child_at-exact_child key idx h =
    Key-ext _ _ refl (int_32-twice key.l.x _ (get_bit-lt idx 0) h.x)
      (int_32-twice key.l.y _ (get_bit-lt idx 1) h.y)
      (int_32-twice key.l.z _ (get_bit-lt idx 2) h.z)

-- The parent of a child of a key is the key.
pub parent-exact_child : (key : Key) (idx : ℕ) → parent (exact_child key idx) 1 ≡ key
unfolding parent exact_child
parent-exact_child key idx =
    let one : (if ltb (key.n + 1) 1 then key.n + 1 else 1) ≡ 1 = ground arith in
    rw one (
      Key-ext _ _ (omega arith) (shr-twice key.l.x _ (get_bit-lt idx 0))
        (shr-twice key.l.y _ (get_bit-lt idx 1)) (shr-twice key.l.z _ (get_bit-lt idx 2)))

three_bits :
    (x y z : ℕ) → x < 2 → y < 2 → z < 2 → bit_or (bit_or (z * 2) y * 2) x ≡ 4 * z + 2 * y + x
three_bits x y z hx hy hz =
    let inner : bit_or (z * 2) y ≡ z * 2 + y = bit_or_disjoint 1 z y hy in
    rw inner (bit_or_disjoint 1 (z * 2 + y) x hx ∙ omega arith)

low_bit-lt : (t : ℤ) → low_bit_ℤ t < 2
low_bit-lt (pos n) = omega arith
low_bit-lt (negsuc n) = omega arith

bits_of_index : (idx : ℕ) → idx < 8 → 4 * get_bit idx 2 + 2 * get_bit idx 1 + get_bit idx 0 ≡ idx
unfolding get_bit
bits_of_index idx h = omega arith

-- The index of a child is the one it was made with.
pub childindex-exact_child :
    (key : Key) (idx : ℕ) → idx < 8 → childindex (exact_child key idx) ≡ idx
unfolding childindex exact_child
childindex-exact_child key idx h =
    rw
      (
        low_bit-twice key.l.x _ (get_bit-lt idx 0),
        low_bit-twice key.l.y _ (get_bit-lt idx 1),
        low_bit-twice key.l.z _ (get_bit-lt idx 2),
        three_bits _ _ _ (get_bit-lt idx 0) (get_bit-lt idx 1) (get_bit-lt idx 2),
      )
      (bits_of_index idx h)

module _ (x y z : ℕ) (hx : x < 2) (hy : y < 2) (hz : z < 2) where
  get_bit_zero : get_bit (4 * z + 2 * y + x) 0 ≡ x
  unfolding get_bit
  get_bit_zero = omega arith

  get_bit_one : get_bit (4 * z + 2 * y + x) 1 ≡ y
  unfolding get_bit
  get_bit_one = omega arith

  get_bit_two : get_bit (4 * z + 2 * y + x) 2 ≡ z
  unfolding get_bit
  get_bit_two = omega arith

-- A key below the root is the child of its parent at its index.
pub exact_child-parent : (key : Key) → 0 < key.n → exact_child (parent key 1) (childindex key) ≡ key
unfolding childindex exact_child parent
exact_child-parent key h =
    let one : (if ltb key.n 1 then key.n else 1) ≡ 1 = ground arith in
    let hx = low_bit-lt key.l.x in
    let hy = low_bit-lt key.l.y in
    let hz = low_bit-lt key.l.z in
    rw
      (
        one,
        three_bits _ _ _ hx hy hz,
        get_bit_zero _ _ _ hx hy hz,
        get_bit_one _ _ _ hx hy hz,
        get_bit_two _ _ _ hx hy hz,
      )
      (Key-ext _ _ (omega arith) (twice-shr key.l.x) (twice-shr key.l.y) (twice-shr key.l.z))

double-twice : (t : ℤ) → pos 2 *ℤ t ≡ twice t 0
double-twice (pos n) = double_pos n ∙ sym (twice_pos n 0 ∙ ap pos (omega arith))
double-twice (negsuc n) =
    double_negsuc n ∙ sym (twice_negsuc n 0 (omega arith) ∙ ap negsuc (omega arith))

-- What next_child adds to a translation sets its lowest bit.
reset_bit : (t : ℤ) (a b : ℕ) → a < 2 → b < 2 → twice t a +ℤ (pos b -ℤ pos a) ≡ twice t b
unfolding ◌+ℤ◌ ◌-ℤ◌
reset_bit (pos n) a b ha hb =
    rw (twice_pos n a, twice_pos n b)
      (elim (Bool-cases (leb a b)) [
        | inl up ↦
            rw (sub_pos (b + 0) (0 + a) (b - a) (ground arith)) (sub_pos _ _ _ (ground arith))
        | inr down ↦
            rw (sub_negsuc (b + 0) (0 + a) (a - b - 1) (ground arith))
              (sub_pos _ _ _ (ground arith))
      ])
reset_bit (negsuc n) a b ha hb =
    rw (twice_negsuc n a ha, twice_negsuc n b hb)
      (elim (Bool-cases (leb a b)) [
        | inl up ↦
            rw (sub_pos (b + 0) (0 + a) (b - a) (ground arith)) (sub_negsuc _ _ _ (ground arith))
        | inr down ↦
            rw (sub_negsuc (b + 0) (0 + a) (a - b - 1) (ground arith))
              (sub_negsuc _ _ _ (ground arith))
      ])

first_child_lem : (key : Key) → first_child key ≡ exact_child key 0
unfolding first_child exact_child get_bit
first_child_lem key =
    Key-ext _ _ refl (double-twice key.l.x) (double-twice key.l.y) (double-twice key.l.z)

next_child_lem :
    (key : Key) (bits : ℕ) → next_child (exact_child key bits) bits ≡ exact_child key (bits + 1)
unfolding next_child exact_child
next_child_lem key bits =
    let bit = λ (d : ℕ) (t : ℤ).
      reset_bit t (get_bit bits d) (get_bit (bits + 1) d) (get_bit-lt bits d)
        (get_bit-lt (bits + 1) d) in
    Key-ext _ _ refl (bit 0 key.l.x) (bit 1 key.l.y) (bit 2 key.l.z)

children_from_lem :
    (rounds : ℕ) (key : Key) (bits : ℕ)
    → children_from rounds (exact_child key bits) bits
      ≡ map (exact_child key) (range_from bits rounds)
unfolding children_from
children_from_lem zero key bits = refl
children_from_lem (suc rounds) key bits =
    rw (next_child_lem key bits)
      (ap (λ r. exact_child key bits ∷ r) (children_from_lem rounds key (bits + 1)))

-- The iteration over the children of a key whose translations can be doubled meets those at the indices
-- 0 to 7, in this order.
pub children-eq-map :
    (key : Key) → IsDoublable key → children key ≡ map (child_at key) (range_from 0 8)
unfolding children
children-eq-map key h =
    rw (first_child_lem key) (children_from_lem 8 key 0)
    ∙ ap (λ f. map f (range_from 0 8)) (fun_ext (λ idx. sym (child_at-exact_child key idx h)))

-- Children are inverse to parents.
pub IsChildOf : Key → Key → ℕ → Type 0
IsChildOf child key idx = (parent child 1 ≡ key) × (childindex child ≡ idx)

-- Of a key below level MAX_LEVEL whose translations can be doubled in 32 bits, a child is told by its
-- parent and its index, an index below 8: the child at the index has the key as its parent and that
-- index, and a key below the root with this parent and this index is that child.
pub child_at-parent_lem :
    (key child : Key) (idx : ℕ)
    → idx < 8
    → key.n < max_level
    → IsDoublable key
    → 0 < child.n
    → (child_at key idx ≡ child) ↔ IsChildOf child key idx
unfolding IsChildOf
child_at-parent_lem key child idx h low fits positive = rw (child_at-exact_child key idx fits) (
  λ e. (
    ap (λ c. parent c 1) (sym e) ∙ parent-exact_child key idx,
    ap childindex (sym e) ∙ childindex-exact_child key idx h,
  ),
  λ c. ap₂ exact_child (sym c.0) (sym c.1) ∙ exact_child-parent child positive,
)
