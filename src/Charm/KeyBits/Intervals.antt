-- ===== src/Charm/KeyBits/Intervals.antt =====
-- The interval of particle keys of a node, and those of its children.
use native.Mathlib.Nat.{one-le-pow, mod-eq_of_lt, pow-suc}
use amt_bh_benchmark.Base.{
  ℕ, suc, ◌+◌, ◌-◌, ◌*◌, ◌^◌, ◌<◌, ◌≤◌, ◌≡◌, sym, ap, ap₂, ◌∙◌, bit_or, arith,
}
use amt_bh_benchmark.Base.Bits.{two_pow_add, bit_or_disjoint}
use amt_bh_benchmark.Charm.KeyBits.{
  ◌<<<◌, particle_level_shift, get_particle_level_key, get_last_particle_level_key,
}

-- A key of a node at this depth fits log_branch * depth + 1 digits, and these fit a Key.
pub record IsNodeKey (log_branch k depth : ℕ) : Type 0 where
  pub fits : k < 2 ^ (log_branch * depth + 1)
  pub deep : log_branch * depth + 1 ≤ 64

module _ (log_branch k depth : ℕ) (node : IsNodeKey log_branch k depth) where
  shift_room :
      k * 2 ^ particle_level_shift log_branch depth + 2 ^ particle_level_shift log_branch depth
      ≤ 2 ^ 64
  shift_room =
      let s = particle_level_shift log_branch depth in
      let split : 2 ^ 64 ≡ 2 ^ (log_branch * depth + 1) * 2 ^ s =
        ap (λ (t : ℕ). 2 ^ t) {x = 64} {y = log_branch * depth + 1 + s} (omega (arith, node.deep))
        ∙ two_pow_add (log_branch * depth + 1) s in
      grind (arith, split, node.fits)

  pub first_key :
      get_particle_level_key log_branch k depth ≡ k * 2 ^ particle_level_shift log_branch depth
  unfolding get_particle_level_key
  first_key = mod-eq_of_lt (
      omega (arith, shift_room, one-le-pow (particle_level_shift log_branch depth) 2 (omega arith)))

  -- 1 <<< nshift does not wrap, for a node key leaves a digit for the root.
  one_shifted :
      1 <<< particle_level_shift log_branch depth ≡ 2 ^ particle_level_shift log_branch depth
  one_shifted =
      let s = particle_level_shift log_branch depth in
      let room : 2 ^ 64 ≡ 2 ^ suc s * 2 ^ (64 - suc s) =
        ap (λ (t : ℕ). 2 ^ t) {x = 64} {y = suc s + (64 - suc s)} (omega arith)
        ∙ two_pow_add (suc s) (64 - suc s) in
      let small : 1 * 2 ^ s < 2 ^ 64 = grind (
        arith,
        room,
        pow-suc 2 s,
        one-le-pow s 2 (omega arith),
        one-le-pow (64 - suc s) 2 (omega arith),
      ) in
      mod-eq_of_lt small ∙ omega arith

  pub last_key :
      get_last_particle_level_key log_branch k depth + 1
      ≡ suc k * 2 ^ particle_level_shift log_branch depth
  unfolding get_last_particle_level_key get_particle_level_key
  last_key =
      let s = particle_level_shift log_branch depth in
      let unit = one-le-pow s 2 (omega arith) in
      let filled : bit_or (k <<< s) (1 <<< s - 1) ≡ k * 2 ^ s + (2 ^ s - 1) =
        ap₂ bit_or first_key (ap (λ (t : ℕ). t - 1) one_shifted)
        ∙ bit_or_disjoint s k (2 ^ s - 1) (omega (arith, unit)) in
      grind (arith, filled, unit)

-- The interval of a node is cut by its children: it begins with that of child 0, each child's
-- interval begins right after the one before it, and the last child's ends it.
abbrev pub IsCutByChildren : ℕ → ℕ → ℕ → Type 0
IsCutByChildren log_branch k depth =
    let first = λ (i : ℕ). get_particle_level_key log_branch (k * 2 ^ log_branch + i) (suc depth) in
    let last =
      λ (i : ℕ). get_last_particle_level_key log_branch (k * 2 ^ log_branch + i) (suc depth) in
    (first 0 ≡ get_particle_level_key log_branch k depth)
    × ((i : ℕ) → suc i < 2 ^ log_branch → last i + 1 ≡ first (suc i))
    × (last (2 ^ log_branch - 1) ≡ get_last_particle_level_key log_branch k depth)

module _ (log_branch k depth : ℕ) (node : IsNodeKey log_branch k depth)
    (deep : log_branch * suc depth + 1 ≤ 64) where
  levels :
      particle_level_shift log_branch depth
      ≡ log_branch + particle_level_shift log_branch (suc depth)
  levels = grind (arith, deep)

  child_node :
      (i : ℕ) → i < 2 ^ log_branch → IsNodeKey log_branch (k * 2 ^ log_branch + i) (suc depth)
  child_node i h = record {
    fits =
        let split : 2 ^ (log_branch * suc depth + 1)
            ≡ 2 ^ (log_branch * depth + 1) * 2 ^ log_branch =
          ap (λ (t : ℕ). 2 ^ t) {x = log_branch * suc depth + 1}
            {y = log_branch * depth + 1 + log_branch} (grind arith)
          ∙ two_pow_add (log_branch * depth + 1) log_branch in
        grind (arith, split, node.fits, h);
    deep = deep;
  }

  -- The first child begins where the node does, and one past the last child is one past the node.
  widened :
      (m : ℕ)
      → m * 2 ^ log_branch * 2 ^ particle_level_shift log_branch (suc depth)
        ≡ m * 2 ^ particle_level_shift log_branch depth
  widened m =
      let s = particle_level_shift log_branch (suc depth) in
      let split : 2 ^ particle_level_shift log_branch depth ≡ 2 ^ log_branch * 2 ^ s =
        ap (λ (t : ℕ). 2 ^ t) levels ∙ two_pow_add log_branch s in
      grind (arith, split)

  -- At a depth whose children still have keys, the first particle key of a node is that of child 0, the
  -- last particle key of a child is followed by the first one of the next child, and the last particle
  -- key of the last child is the node's.
  pub children_intervals : IsCutByChildren log_branch k depth
  children_intervals =
      let some_child = one-le-pow log_branch 2 (omega arith) in
      let s = particle_level_shift log_branch (suc depth) in
      let key = λ (i : ℕ). k * 2 ^ log_branch + i in
      let begin = λ (i : ℕ) (h : i < 2 ^ log_branch).
        first_key log_branch (key i) (suc depth) (child_node i h) in
      let end = λ (i : ℕ) (h : i < 2 ^ log_branch).
        last_key log_branch (key i) (suc depth) (child_node i h) in
      let h0 : 0 < 2 ^ log_branch = omega (arith, some_child) in
      let hl : 2 ^ log_branch - 1 < 2 ^ log_branch = omega (arith, some_child) in
      (
        begin 0 h0
            ∙ ap (λ (t : ℕ). t * 2 ^ s) {x = key 0} {y = k * 2 ^ log_branch} (omega arith)
            ∙ widened k
            ∙ sym (first_key log_branch k depth node),
        λ i h.
            end i (omega arith)
            ∙ ap (λ (t : ℕ). t * 2 ^ s) {x = suc (key i)} {y = key (suc i)} (omega arith)
            ∙ sym (begin (suc i) h),
        omega (
          arith,
          end (2 ^ log_branch - 1) hl,
          ap (λ (t : ℕ). t * 2 ^ s) {x = suc (key (2 ^ log_branch - 1))}
              {y = suc k * 2 ^ log_branch} (omega (arith, some_child)),
          widened (suc k),
          last_key log_branch k depth node,
        ),
      )
