-- ===== src/Hpx/BoundingBox.antt =====
-- hpx/src/bounding_box.cpp, and the codes of positions in a box: `generateMortonCodes` and
-- `key_to_normalized_position` of hpx/src/morton_keys.cpp. The reduction is in ascending order. The
-- shift 1 << depth is for depths below 31.
pub mod Bounds
mod Examples
use amt_bh_benchmark.Base.{ℕ, ◌^◌, List, [], ◌∷◌, if◌then◌else◌}
use amt_bh_benchmark.Base.Real.{Real}
use amt_bh_benchmark.Hpx.Morton.{morton63, decode_prefix}
use amt_bh_benchmark.Hpx.Octree.{Position, OctreeKey}
use amt_bh_benchmark.Hpx.Scene.{BoundingBox, larger, smaller, root_side}

module _ {R : Type 0} ⦃real : Real R⦄ where
  open real use {nought, one, below_one, of_nat, to_nat, add, sub, mul, div, le}

  -- The separation along an axis: 0 where the two ranges overlap.
  abbrev pub apart : R → R → R
  apart a b = larger nought (larger a b)

  pub min_distance_sq : BoundingBox R → BoundingBox R → R
  min_distance_sq b1 b2 =
      let dx = apart (sub b1.min.x b2.max.x) (sub b2.min.x b1.max.x) in
      let dy = apart (sub b1.min.y b2.max.y) (sub b2.min.y b1.max.y) in
      let dz = apart (sub b1.min.z b2.max.z) (sub b2.min.z b1.max.z) in
      add (add (mul dx dx) (mul dy dy)) (mul dz dz)

  pub point_box_distance_sq : R → R → R → BoundingBox R → R
  point_box_distance_sq x y z b =
      let dx = apart (sub b.min.x x) (sub x b.max.x) in
      let dy = apart (sub b.min.y y) (sub y b.max.y) in
      let dz = apart (sub b.min.z z) (sub z b.max.z) in
      add (add (mul dx dx) (mul dy dy)) (mul dz dz)

  abbrev pub min_each : Position R → Position R → Position R
  min_each a b = record { x = smaller a.x b.x; y = smaller a.y b.y; z = smaller a.z b.z }

  abbrev pub max_each : Position R → Position R → Position R
  max_each a b = record { x = larger a.x b.x; y = larger a.y b.y; z = larger a.z b.z }

  pub combine_boxes : BoundingBox R → BoundingBox R → BoundingBox R
  combine_boxes a b = record { min = min_each a.min b.min; max = max_each a.max b.max }

  abbrev pub point_box : Position R → BoundingBox R
  point_box p = record { min = p; max = p }

  pub reduce_boxes : BoundingBox R → List (Position R) → BoundingBox R
  reduce_boxes b [] = b
  reduce_boxes b (p ∷ ps) = reduce_boxes (combine_boxes b (point_box p)) ps

  -- `no_box` is BoundingBox{}, with infinite corners.
  pub compute_local_bbox : BoundingBox R → List (Position R) → BoundingBox R
  compute_local_bbox no_box [] = no_box
  compute_local_bbox no_box (p ∷ ps) = reduce_boxes (point_box p) (p ∷ ps)

  -- The two all_reduce calls, with MinArr3 and MaxArr3, are parameters.
  pub compute_global_bbox :
      (Position R → Position R) → (Position R → Position R) → BoundingBox R → BoundingBox R
  compute_global_bbox reduce_min reduce_max local_bb = record {
    min = reduce_min local_bb.min;
    max = reduce_max local_bb.max;
  }

  pub key_to_normalized_position : ℕ → ℕ → Position R
  key_to_normalized_position code depth =
      let cell = decode_prefix code depth in
      let scale = div one (of_nat (2 ^ depth)) in
      record {
        x = mul (of_nat cell.ix) scale;
        y = mul (of_nat cell.iy) scale;
        z = mul (of_nat cell.iz) scale;
      }

  -- The corner of a cell in the box, and the side of the cell from the side of the box.
  abbrev pub corner : BoundingBox R → Position R → Position R
  corner b n =
      let l = root_side b in
      record {
        x = add b.min.x (mul n.x l);
        y = add b.min.y (mul n.y l);
        z = add b.min.z (mul n.z l);
      }

  abbrev pub box_at : Position R → R → BoundingBox R
  box_at p size = record {
    min = p;
    max = record { x = add p.x size; y = add p.y size; z = add p.z size };
  }

  pub get_bounding_box_for_cell : OctreeKey → BoundingBox R → BoundingBox R
  get_bounding_box_for_cell k b =
      box_at (corner b (key_to_normalized_position k.prefix k.depth))
        (div (root_side b) (of_nat (2 ^ k.depth)))

  -- `norm`
  pub norm : R → R → R → R
  norm v lo span =
      let t = div (sub v lo) span in
      if le t nought then nought else if le one t then below_one else t

  -- The grid coordinate of one axis.
  pub quantize : R → R → R → ℕ
  quantize v lo span = to_nat (mul (norm v lo span) (of_nat (2 ^ 21)))

  pub box_span : BoundingBox R → R
  box_span b = if le (root_side b) nought then one else root_side b

  pub morton_code : BoundingBox R → Position R → ℕ
  morton_code b p =
      morton63 (quantize p.x b.min.x (box_span b)) (quantize p.y b.min.y (box_span b))
        (quantize p.z b.min.z (box_span b))

  pub generate_morton_codes : List (Position R) → BoundingBox R → List ℕ
  generate_morton_codes [] b = []
  generate_morton_codes (p ∷ raw) b = morton_code b p ∷ generate_morton_codes raw b
