-- ===== src/Charm/Splitters/Cuts.antt =====
-- The splitters of a node put each of its particles in the child whose interval holds its key.
use native.Mathlib.Nat.{one-le-pow}
use amt_bh_benchmark.Base.{
  ℕ, zero, suc, ◌+◌, ◌-◌, ◌*◌, ◌^◌, ◌<◌, ◌≤◌, ◌≡◌, refl, sym, ap, ◌∙◌, true, some, List, [], ◌∷◌,
  get_or, length, arith, Bool-cases, inl, inr, ltb,
}
use amt_bh_benchmark.Charm.Search.{binary_search_ge-Found, IsFirst}
use amt_bh_benchmark.Charm.KeyBits.{get_particle_level_key, get_last_particle_level_key}
use amt_bh_benchmark.Charm.KeyBits.Intervals.{IsNodeKey, children_intervals}
use amt_bh_benchmark.Charm.Splitters.{compare_particle_to_key, splitter_loop, find_splitters}

abbrev pub key_at : List ℕ → ℕ → ℕ
key_at particles i = get_or particles i 0

pub record IsSortedOn (particles : List ℕ) (start end : ℕ) : Type 0 where
  pub ordered : (i j : ℕ) → start ≤ i → i ≤ j → j < end → key_at particles i ≤ key_at particles j

-- What the loop sets: `rounds` splitters and the last one, ascending, with the keys between two of them
-- from the first key of a child on, and below the first key of the next.
record CutUp (particles : List ℕ) (log_branch depth end rounds c start : ℕ) (ss : List ℕ)
    : Type 0 where
  size : length ss ≡ suc rounds
  ascends : (j : ℕ) → j ≤ rounds → key_at (start ∷ ss) j ≤ key_at (start ∷ ss) (suc j)
  ends : key_at (start ∷ ss) (suc rounds) ≡ end
  above :
      (j i : ℕ)
      → j ≤ rounds
      → key_at (start ∷ ss) j ≤ i
      → i < key_at (start ∷ ss) (suc j)
      → get_particle_level_key log_branch (c + j) depth ≤ key_at particles i
  below :
      (j i : ℕ)
      → j < rounds
      → key_at (start ∷ ss) j ≤ i
      → i < key_at (start ∷ ss) (suc j)
      → key_at particles i < get_particle_level_key log_branch (c + suc j) depth

module _ (particles : List ℕ) (log_branch depth end : ℕ) where
  compare-IsMonotone :
      (key start : ℕ)
      → IsSortedOn particles start end
      → (i j : ℕ) → start ≤ i
      → i ≤ j
      → j < end
      → compare_particle_to_key particles key i ≡ true
      → compare_particle_to_key particles key j ≡ true
  compare-IsMonotone key start sorted i j a b c h = ground (arith, sorted.ordered i j a b c)

  From : ℕ → ℕ → Type 0
  From c start =
      (i : ℕ) → start ≤ i → i < end → get_particle_level_key log_branch c depth ≤ key_at particles i

  next_child :
      (c j : ℕ)
      → get_particle_level_key log_branch (c + 1 + j) depth
        ≡ get_particle_level_key log_branch (c + suc j) depth
  next_child c j =
      ap (λ (t : ℕ). get_particle_level_key log_branch t depth) {x = c + 1 + j} {y = c + suc j}
        (omega arith)

  same_child :
      (c : ℕ)
      → get_particle_level_key log_branch (c + 0) depth ≡ get_particle_level_key log_branch c depth
  same_child c =
      ap (λ (t : ℕ). get_particle_level_key log_branch t depth) {x = c + 0} {y = c} (omega arith)

  last_cut :
      (c start : ℕ)
      → start ≤ end
      → From c start
      → CutUp particles log_branch depth end 0 c start (end ∷ [])
  unfolding From
  last_cut c start order from = record {
    size = refl;
    ascends = ascends;
    ends = refl;
    above = above;
    below = λ j i h. absurd (omega arith);
  }
    where
      ascends : (j : ℕ) → j ≤ 0 → key_at (start ∷ end ∷ []) j ≤ key_at (start ∷ end ∷ []) (suc j)
      ascends zero h = order
      ascends (suc j) h = absurd (omega arith)

      above :
          (j i : ℕ)
          → j ≤ 0
          → key_at (start ∷ end ∷ []) j ≤ i
          → i < key_at (start ∷ end ∷ []) (suc j)
          → get_particle_level_key log_branch (c + j) depth ≤ key_at particles i
      above zero i h a b = omega (arith, same_child c, from i a b)
      above (suc j) i h a b = absurd (omega arith)

  more_cuts :
      (rounds c start s : ℕ) (ss : List ℕ)
      → From c start
      → IsFirst
          (compare_particle_to_key particles (get_particle_level_key log_branch (c + 1) depth))
          start
          end
          s
      → CutUp particles log_branch depth end rounds (c + 1) s ss
      → CutUp particles log_branch depth end (suc rounds) c start (s ∷ ss)
  unfolding From
  more_cuts rounds c start s ss from f cut = record {
    size = ap suc cut.size;
    ascends = ascends;
    ends = cut.ends;
    above = above;
    below = below;
  }
    where
      ascends :
          (j : ℕ) → j ≤ suc rounds → key_at (start ∷ s ∷ ss) j ≤ key_at (start ∷ s ∷ ss) (suc j)
      ascends zero h = f.low
      ascends (suc j) h = cut.ascends j (omega arith)

      above :
          (j i : ℕ)
          → j ≤ suc rounds
          → key_at (start ∷ s ∷ ss) j ≤ i
          → i < key_at (start ∷ s ∷ ss) (suc j)
          → get_particle_level_key log_branch (c + j) depth ≤ key_at particles i
      above zero i h a b = omega (arith, same_child c, f.high, from i a (omega (arith, f.high)))
      above (suc j) i h a b = omega (arith, next_child c j, cut.above j i (omega arith) a b)

      below :
          (j i : ℕ)
          → j < suc rounds
          → key_at (start ∷ s ∷ ss) j ≤ i
          → i < key_at (start ∷ s ∷ ss) (suc j)
          → key_at particles i < get_particle_level_key log_branch (c + suc j) depth
      below zero i h a b = ground (arith, f.before i a b)
      below (suc j) i h a b = omega (arith, next_child c (suc j), cut.below j i (omega arith) a b)

  splitter_loop-CutUp :
      (rounds c start : ℕ)
      → start ≤ end
      → IsSortedOn particles start end
      → From c start
      → (ss : List ℕ) × (splitter_loop particles log_branch depth end rounds c start ≡ some ss)
        × CutUp particles log_branch depth end rounds c start ss
  unfolding splitter_loop From
  splitter_loop-CutUp zero c start order sorted from = (end ∷ [], refl, last_cut c start order from)
  splitter_loop-CutUp (suc rounds) c start order sorted from =
      let test_key = get_particle_level_key log_branch (c + 1) depth in
      let (s, e, f) =
        binary_search_ge-Found (compare_particle_to_key particles test_key) start end order
          (compare-IsMonotone test_key start sorted) in
      let (ss, e2, cut) =
        splitter_loop-CutUp rounds (c + 1) s f.high
          (record { ordered = λ i j a. sorted.ordered i j (omega (arith, f.low)) })
          (λ i a b. ground (arith, f.after i a b)) in
      (s ∷ ss, rw (e, e2) refl, more_cuts rounds c start s ss from f cut)

-- The splitters are one more than the children; they begin at start, end at end, and ascend.
pub record IsCut (log_branch start end : ℕ) (splitters : List ℕ) : Type 0 where
  pub size : length splitters ≡ 2 ^ log_branch + 1
  pub begins : key_at splitters 0 ≡ start
  pub ends : key_at splitters (2 ^ log_branch) ≡ end
  pub ascends : (j : ℕ) → j < 2 ^ log_branch → key_at splitters j ≤ key_at splitters (suc j)

-- The keys of the particles in [start, end) are in the interval of the node with this key.
abbrev pub InNode : List ℕ → ℕ → ℕ → ℕ → ℕ → ℕ → Type 0
InNode particles log_branch key depth start end =
    (i : ℕ)
    → start ≤ i
    → i < end
    → (get_particle_level_key log_branch key depth ≤ key_at particles i)
      × (key_at particles i ≤ get_last_particle_level_key log_branch key depth)

module _ (particles : List ℕ) (log_branch depth end c start : ℕ) (ss : List ℕ)
    (cut : CutUp particles log_branch depth end (2 ^ log_branch - 1) c start ss) where
  begins_low : (j : ℕ) → j ≤ 2 ^ log_branch → start ≤ key_at (start ∷ ss) j
  begins_low zero h = omega arith
  begins_low (suc j) h = omega (arith, begins_low j (omega arith), cut.ascends j (omega arith))

  CutUp-IsCut : IsCut log_branch start end (start ∷ ss)
  CutUp-IsCut =
      let unit = one-le-pow log_branch 2 (omega arith) in
      let all : suc (2 ^ log_branch - 1) ≡ 2 ^ log_branch = omega (arith, unit) in
      record {
        size = omega (arith, unit, cut.size);
        begins = refl;
        ends = sym (ap (λ (t : ℕ). key_at (start ∷ ss) t) all) ∙ cut.ends;
        ascends = λ j h. cut.ascends j (omega arith);
      }

  -- The next child's first key is one past this one's last; the last child has the node's last key.
  CutUp-InNode :
      (last : ℕ)
      → ((i : ℕ)
          → suc i < 2 ^ log_branch
          → get_last_particle_level_key log_branch (c + i) depth + 1
            ≡ get_particle_level_key log_branch (c + suc i) depth)
      → get_last_particle_level_key log_branch (c + (2 ^ log_branch - 1)) depth ≡ last
      → ((i : ℕ) → start ≤ i → i < end → key_at particles i ≤ last)
      → (j : ℕ) → j < 2 ^ log_branch
      → InNode particles log_branch
          (c + j)
          depth
          (key_at (start ∷ ss) j)
          (key_at (start ∷ ss) (suc j))
  CutUp-InNode last between ends inside j h i a b = (
    cut.above j i (omega arith) a b,
    elim (Bool-cases (ltb (suc j) (2 ^ log_branch))) [
      | inl inner ↦ omega (arith, cut.below j i (ground arith) a b, between j (ground arith))
      | inr outer ↦
          let is_last : j ≡ 2 ^ log_branch - 1 = ground arith in
          let reached : key_at (start ∷ ss) (suc j) ≡ end =
            ap (λ (t : ℕ). key_at (start ∷ ss) (suc t)) is_last ∙ cut.ends in
          omega (
            arith,
            ap (λ (t : ℕ). get_last_particle_level_key log_branch (c + t) depth) is_last,
            ends,
            inside i (omega (arith, begins_low j (omega arith))) (omega (arith, reached)),
          )
    ],
  )

-- Of a node whose children have keys, and whose particles are those of a range, sorted by key, with keys
-- in the node's interval, `findSplitters` returns splitters that cut the range into one range for each
-- child, in order, and the particles of each child's range have keys in that child's interval.
pub find_splitters-IsCut :
    (particles : List ℕ) (log_branch k depth start end : ℕ)
    → IsNodeKey log_branch k depth
    → log_branch * suc depth + 1 ≤ 64
    → start ≤ end
    → IsSortedOn particles start end
    → InNode particles log_branch k depth start end
    → (splitters : List ℕ) × (find_splitters particles log_branch start end
          (k * 2 ^ log_branch)
          (suc depth)
        ≡ some splitters)
      × IsCut log_branch start end splitters
      × ((j : ℕ)
          → j < 2 ^ log_branch
          → InNode particles log_branch
              (k * 2 ^ log_branch + j)
              (suc depth)
              (key_at splitters j)
              (key_at splitters (suc j)))
unfolding find_splitters From
find_splitters-IsCut particles log_branch k depth start end node deep order sorted inside =
    let c = k * 2 ^ log_branch in
    let (first, between, last) = children_intervals log_branch k depth node deep in
    let (ss, e, cut) =
      splitter_loop-CutUp particles log_branch (suc depth) end (2 ^ log_branch - 1) c start order
        sorted
        (λ i a b.
          omega
            (arith, same_child particles log_branch (suc depth) end c, first, (inside i a b).0)) in
    (
      start ∷ ss,
      rw e refl,
      CutUp-IsCut particles log_branch (suc depth) end c start ss cut,
      CutUp-InNode particles log_branch (suc depth) end c start ss cut _ between last
          (λ i a b. (inside i a b).1),
    )
