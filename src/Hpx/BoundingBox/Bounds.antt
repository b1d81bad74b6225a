-- ===== src/Hpx/BoundingBox/Bounds.antt =====
-- The reductions of boxes keep every position in the box.
use amt_bh_benchmark.Base.{true, false, Bool-cases, inl, inr, List, [], ◌∷◌, All, ◌≡◌}
use amt_bh_benchmark.Base.Real.{Real}
use amt_bh_benchmark.Hpx.Octree.{Position}
use amt_bh_benchmark.Hpx.Scene.{BoundingBox, larger, smaller}
use amt_bh_benchmark.Hpx.BoundingBox.{
  combine_boxes, point_box, min_each, max_each, reduce_boxes, compute_local_bbox,
}

-- What < does on numbers that are not NaN.
pub record IsOrdered {R : Type 0} (real : Real R) : Type 0 where
  pub lt_asym : (a b : R) → real.lt a b ≡ true → real.lt b a ≡ false
  pub up_to_trans : (a b c : R) → real.lt b a ≡ false → real.lt c b ≡ false → real.lt c a ≡ false

module _ {R : Type 0} ⦃real : Real R⦄ where
  open real use {lt}

  -- a is not above b.
  abbrev pub UpTo : R → R → Type 0
  UpTo a b = lt b a ≡ false

  abbrev pub Below : Position R → Position R → Type 0
  Below p q = UpTo p.x q.x × UpTo p.y q.y × UpTo p.z q.z

  abbrev pub Inside : BoundingBox R → Position R → Type 0
  Inside b p = Below b.min p × Below p b.max

  module _ (ordered : IsOrdered real) where
    open ordered use {lt_asym, up_to_trans}

    UpTo-refl : (a : R) → UpTo a a
    UpTo-refl a = elim (Bool-cases (lt a a)) [ inl yes_lt ↦ lt_asym a a yes_lt | inr no_lt ↦ no_lt ]

    smaller_left : (a b : R) → UpTo (smaller a b) a
    smaller_left a b = elim (Bool-cases (lt b a)) [
      | inl yes_lt ↦ rw yes_lt (lt_asym b a yes_lt)
      | inr no_lt ↦ rw no_lt (UpTo-refl a)
    ]

    smaller_right : (a b : R) → UpTo (smaller a b) b
    smaller_right a b = elim (Bool-cases (lt b a)) [
      | inl yes_lt ↦ rw yes_lt (UpTo-refl b)
      | inr no_lt ↦ rw no_lt no_lt
    ]

    larger_left : (a b : R) → UpTo a (larger a b)
    larger_left a b = elim (Bool-cases (lt a b)) [
      | inl yes_lt ↦ rw yes_lt (lt_asym a b yes_lt)
      | inr no_lt ↦ rw no_lt (UpTo-refl a)
    ]

    larger_right : (a b : R) → UpTo b (larger a b)
    larger_right a b = elim (Bool-cases (lt a b)) [
      | inl yes_lt ↦ rw yes_lt (UpTo-refl b)
      | inr no_lt ↦ rw no_lt no_lt
    ]

    min_each_left : (p q : Position R) → Below (min_each p q) p
    min_each_left p q = (smaller_left p.x q.x, smaller_left p.y q.y, smaller_left p.z q.z)

    min_each_right : (p q : Position R) → Below (min_each p q) q
    min_each_right p q = (smaller_right p.x q.x, smaller_right p.y q.y, smaller_right p.z q.z)

    max_each_left : (p q : Position R) → Below p (max_each p q)
    max_each_left p q = (larger_left p.x q.x, larger_left p.y q.y, larger_left p.z q.z)

    max_each_right : (p q : Position R) → Below q (max_each p q)
    max_each_right p q = (larger_right p.x q.x, larger_right p.y q.y, larger_right p.z q.z)

    Below-trans : (p q r : Position R) → Below p q → Below q r → Below p r
    Below-trans p q r h k = (
      up_to_trans p.x q.x r.x h.0 k.0,
      up_to_trans p.y q.y r.y h.1 k.1,
      up_to_trans p.z q.z r.z h.2 k.2,
    )

    Below-refl : (p : Position R) → Below p p
    Below-refl p = (UpTo-refl p.x, UpTo-refl p.y, UpTo-refl p.z)

    combine_old :
        (b : BoundingBox R) (q p : Position R)
        → Inside b p
        → Inside (combine_boxes b (point_box q)) p
    unfolding combine_boxes
    combine_old b q p h = (
      Below-trans (min_each b.min q) b.min p (min_each_left b.min q) h.0,
      Below-trans p b.max (max_each b.max q) h.1 (max_each_left b.max q),
    )

    combine_new : (b : BoundingBox R) (q : Position R) → Inside (combine_boxes b (point_box q)) q
    unfolding combine_boxes
    combine_new b q = (min_each_right b.min q, max_each_right b.max q)

    reduce_boxes_old :
        (ps : List (Position R)) (b : BoundingBox R) (p : Position R)
        → Inside b p
        → Inside (reduce_boxes b ps) p
    unfolding reduce_boxes
    reduce_boxes_old [] b p h = h
    reduce_boxes_old (q ∷ ps) b p h =
        reduce_boxes_old ps (combine_boxes b (point_box q)) p (combine_old b q p h)

    reduce_boxes-All :
        (ps : List (Position R)) (b : BoundingBox R) → All (Inside (reduce_boxes b ps)) ps
    unfolding reduce_boxes
    reduce_boxes-All [] b = tt
    reduce_boxes-All (q ∷ ps) b = (
      reduce_boxes_old ps (combine_boxes b (point_box q)) q (combine_new b q),
      reduce_boxes-All ps (combine_boxes b (point_box q)),
    )

    -- On coordinates that < orders, every position of the list is inside the box that
    -- compute_local_bbox returns for it.
    pub compute_local_bbox-Inside :
        (no_box : BoundingBox R) (ps : List (Position R))
        → All (Inside (compute_local_bbox no_box ps)) ps
    unfolding compute_local_bbox
    compute_local_bbox-Inside no_box [] = tt
    compute_local_bbox-Inside no_box (p ∷ ps) = reduce_boxes-All (p ∷ ps) (point_box p)
