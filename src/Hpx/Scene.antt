-- ===== src/Hpx/Scene.antt =====
-- What a walk of hpx/ runs on: the arrays of the bodies, the nodes of the flat tree, and the geometry
-- of the cells (hpx/src/traversal.cpp, hpx/include/linear_octree.h, hpx/include/bounding_box.h). A read
-- out of range, which the source does not define, gives a default.
use amt_bh_benchmark.Base.{ℕ, ◌^◌, Bool, false, List, [], ◌∷◌, if◌then◌else◌}
use amt_bh_benchmark.Base.Real.{Real}
use amt_bh_benchmark.Hpx.Octree.{Position}

pub record BoundingBox (R : Type 0) : Type 0 where
  pub min : Position R
  pub max : Position R

-- A node of the flat tree: its children are the child_count entries from children_offset on.
pub record FlatNode (R : Type 0) : Type 0 where
  pub mass : R
  pub com_x : R
  pub com_y : R
  pub com_z : R
  pub prefix : ℕ
  pub children_offset : ℕ
  pub body_begin : ℕ
  pub body_count : ℕ
  pub child_count : ℕ
  pub depth : ℕ
  pub is_leaf : Bool
  pub is_pseudo : Bool

-- The arrays and the constants of a walk; `side` is the side of the root cell.
pub record Scene (R : Type 0) : Type 0 where
  pub nodes : List (FlatNode R)
  pub key : List ℕ
  pub pos : List (Position R)
  pub mass : List R
  pub theta2 : R
  pub soft2 : R
  pub side : R

-- What a mass at a displacement and at a softened squared distance adds to the sum: a single body or
-- what is left of a leaf (near), and a whole cell (far).
pub record Kernel (R A : Type 0) : Type 0 where
  pub near : R → Position R → R → A → A
  pub far : R → Position R → R → A → A

-- The stack at the start: the root is at index 0.
unfoldable pub root_stack : {R : Type 0} → List (FlatNode R) → List ℕ
root_stack [] = []
root_stack (n ∷ ns) = 0 ∷ []

module _ {R : Type 0} ⦃real : Real R⦄ where
  open real use {nought, of_nat, add, sub, mul, div, lt}

  abbrev pub origin : Position R
  origin = record { x = nought; y = nought; z = nought }

  -- std::max
  abbrev pub larger : R → R → R
  larger a b = if lt a b then b else a

  -- std::min
  abbrev pub smaller : R → R → R
  smaller a b = if lt b a then b else a

  -- The longest side of the box.
  pub root_side : BoundingBox R → R
  root_side b = larger (larger (sub b.max.x b.min.x) (sub b.max.y b.min.y)) (sub b.max.z b.min.z)

  pub side2 : R → ℕ → R
  side2 side d = let s = div side (of_nat (2 ^ d)) in mul s s

  pub displacement : Position R → Position R → Position R
  displacement a b = record { x = sub a.x b.x; y = sub a.y b.y; z = sub a.z b.z }

  -- d.x*d.x + d.y*d.y + d.z*d.z + soft2
  pub softened : R → Position R → R
  softened soft2 d = add (add (add (mul d.x d.x) (mul d.y d.y)) (mul d.z d.z)) soft2

  -- A node that no array holds.
  abbrev pub no_node : FlatNode R
  no_node = record {
    mass = nought;
    com_x = nought;
    com_y = nought;
    com_z = nought;
    prefix = 0;
    children_offset = 0;
    body_begin = 0;
    body_count = 0;
    child_count = 0;
    depth = 0;
    is_leaf = false;
    is_pseudo = false;
  }

  abbrev pub centre : FlatNode R → Position R
  centre node = record { x = node.com_x; y = node.com_y; z = node.com_z }

  abbrev pub scene_of :
      List (FlatNode R) → List ℕ → List (Position R) → List R → R → R → BoundingBox R → Scene R
  scene_of flat key pos mass theta soft2 global_bb = record {
    nodes = flat;
    key = key;
    pos = pos;
    mass = mass;
    theta2 = mul theta theta;
    soft2 = soft2;
    side = root_side global_bb;
  }
