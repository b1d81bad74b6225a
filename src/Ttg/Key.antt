-- ===== src/Ttg/Key.antt =====
-- The keys of the octree: ttg-parsec/src/key.h. A translation is an int32_t; child_at keeps its 32 bits,
-- and the operations that cannot leave them on the keys of the tree (Key.Validity bounds these) are on
-- integers. What an assert asks is a hypothesis of the theorems. The shift 1ul << n is for levels below 64, as it is in C++.
pub mod Children
pub mod Ancestors
pub mod Validity
use amt_bh_benchmark.Base.{
  ℕ, zero, suc, ◌+◌, ◌-◌, ◌*◌, ◌/◌, ◌%◌, ◌^◌, bit_or, Bool, false, ◌&&◌, not, ltb, leb, ◌==◌,
  if◌then◌else◌, List, [], ◌∷◌,
}
use amt_bh_benchmark.Base.Int.{ℤ, pos, negsuc, ◌+ℤ◌, ◌-ℤ◌, ◌*ℤ◌, ltb_ℤ, eqb_ℤ, shr_ℤ, low_bit_ℤ}

abbrev pub max_level : ℕ
max_level = 31

-- std::array<Translation, NDIM>
pub record Translations : Type 0 where
  pub x : ℤ
  pub y : ℤ
  pub z : ℤ

-- A loop over the dimensions that sets each entry.
abbrev pub each : (ℕ → ℤ → ℤ) → Translations → Translations
each f t = record { x = f 0 t.x; y = f 1 t.y; z = f 2 t.z }

pub record Key : Type 0 where
  pub n : ℕ
  pub l : Translations

-- static_cast<Translation> of an unsigned number.
unfoldable pub to_translation : ℕ → ℤ
to_translation u = let w = u % 2 ^ 32 in if ltb w (2 ^ 31) then pos w else negsuc (2 ^ 32 - w - 1)

-- static_cast<Translation>(1ul << n)
abbrev pub width : ℕ → ℤ
width n = to_translation (2 ^ n % 2 ^ 64)

pub get_bit : ℕ → ℕ → ℕ
get_bit bits d = bits / 2 ^ d % 2

pub parent : Key → ℕ → Key
parent key generation =
    let g = if ltb key.n generation then key.n else generation in
    record { n = key.n - g; l = each (λ d t. shr_ℤ t g) key.l }

abbrev pub twice : ℤ → ℕ → ℤ
twice t bit = pos 2 *ℤ t +ℤ pos bit

pub first_child : Key → Key
first_child key = record { n = key.n + 1; l = each (λ d t. pos 2 *ℤ t) key.l }

-- The value of the iterator after ++, which increments bits.
pub next_child : Key → ℕ → Key
next_child key bits = record {
  n = key.n;
  l = each (λ d t. t +ℤ (pos (get_bit (bits + 1) d) -ℤ pos (get_bit bits d))) key.l;
}

pub childindex : Key → ℕ
childindex key =
    let b = low_bit_ℤ key.l.z in
    let b = bit_or (b * 2) (low_bit_ℤ key.l.y) in bit_or (b * 2) (low_bit_ℤ key.l.x)

-- The 32 bits of a number as an int32_t.
unfoldable pub int_32 : ℤ → ℤ
int_32 (pos n) = to_translation n
int_32 (negsuc n) = to_translation (2 ^ 32 - 1 - n % 2 ^ 32)

-- For a key below level MAX_LEVEL and an index below 8.
unfoldable pub child_at : Key → ℕ → Key
child_at key idx = record {
  n = key.n + 1;
  l = each (λ d t. int_32 (twice t (get_bit idx d))) key.l;
}

-- for (child : children(key)), with `rounds` = 8 - bits.
pub children_from : ℕ → Key → ℕ → List Key
children_from zero value bits = []
children_from (suc rounds) value bits =
    value ∷ children_from rounds (next_child value bits) (bits + 1)

pub children : Key → List Key
children key = children_from 8 (first_child key) 0

abbrev pub invalid_level : ℕ
invalid_level = 2 ^ 32 - 1

pub invalid : Key
invalid = record { n = invalid_level; l = record { x = pos 0; y = pos 0; z = pos 0 } }

unfoldable pub is_invalid : Key → Bool
is_invalid key = key.n == invalid_level

abbrev pub in_range : ℕ → ℤ → Bool
in_range n t = not (ltb_ℤ t (pos 0)) && ltb_ℤ t (width n)

unfoldable pub is_valid : Key → Bool
is_valid key =
    not (is_invalid key)
    && (in_range key.n key.l.x && (in_range key.n key.l.y && in_range key.n key.l.z))

-- The first `neighbor`: the loop returns `invalid` at the first translation out of range.
pub neighbor : Key → Key → Key
neighbor key disp =
    let t : Translations = record {
      x = key.l.x +ℤ disp.l.x;
      y = key.l.y +ℤ disp.l.y;
      z = key.l.z +ℤ disp.l.z;
    } in
    if in_range key.n t.x && (in_range key.n t.y && in_range key.n t.z)
    then record { n = key.n; l = t }
    else invalid

-- operator-
pub minus : Key → Key → Key
minus key other = record {
  n = key.n;
  l = record { x = key.l.x -ℤ other.l.x; y = key.l.y -ℤ other.l.y; z = key.l.z -ℤ other.l.z };
}

unfoldable pub is_ancestor_of : Key → Key → Bool
is_ancestor_of key other =
    let shift = other.n - key.n in
    if leb other.n key.n
    then false
    else eqb_ℤ key.l.x (shr_ℤ other.l.x shift)
      && (eqb_ℤ key.l.y (shr_ℤ other.l.y shift) && eqb_ℤ key.l.z (shr_ℤ other.l.z shift))

pub is_descendant_of : Key → Key → Bool
is_descendant_of key other = is_ancestor_of other key
