-- ===== src/Hpx/Traversal.antt =====
-- The walk of one body over the flat tree, in `computeAccelerations` of hpx/src/traversal.cpp and in
-- `computeLocalPotentialEnergy` of hpx/src/energy.cpp, which is a copy of it with another sum: what a
-- mass adds to the sum is a kernel here.
pub mod Acceptance
use amt_bh_benchmark.Base.{
  ℕ, zero, suc, ◌+◌, ◌^◌, Bool, ◌&&◌, ◌||◌, not, List, ltb, leb, ◌==◌, if◌then◌else◌, get_or,
  range_from,
}
use amt_bh_benchmark.Base.Real.{Real}
use amt_bh_benchmark.Hpx.Octree.{Position, bh_max_depth}
use amt_bh_benchmark.Hpx.Walk.{Visit, settled, opened, Outcome, push_or_throw, walk}
use amt_bh_benchmark.Hpx.Scene.{
  FlatNode, Scene, Kernel, origin, side2, displacement, softened, no_node, centre, root_stack,
}

-- Enough rounds for a tree of 21 levels below its root.
abbrev pub walk_fuel : ℕ
walk_fuel = 9 ^ 21

module _ {R : Type 0} ⦃real : Real R⦄ where
  open real use {nought, tiny, add, sub, mul, div, lt, le, same}

  module _ (scene : Scene R) (i : ℕ) where
    abbrev pub here : Position R
    here = get_or scene.pos i origin

    -- The mass of the bodies of a leaf.
    pub own_mass : ℕ → ℕ → R → R
    own_mass zero j own_m = own_m
    own_mass (suc rounds) j own_m = own_mass rounds (j + 1) (add own_m (get_or scene.mass j nought))

    -- The sums of the second loop of a leaf, own_wx to own_wz.
    pub own_weighted : ℕ → ℕ → Position R → Position R
    own_weighted zero j w = w
    own_weighted (suc rounds) j w =
        let m = get_or scene.mass j nought in
        let p = get_or scene.pos j origin in
        own_weighted rounds (j + 1)
          (record { x = add w.x (mul m p.x); y = add w.y (mul m p.y); z = add w.z (mul m p.z) })

    pub self_leaf : FlatNode R → Bool
    self_leaf node =
        ltb 0 node.body_count
        && (leb node.body_begin i && ltb i (node.body_begin + node.body_count))

    abbrev pub to_centre : FlatNode R → Position R
    to_centre node = displacement (centre node) here

    -- theta2 * r2
    abbrev pub opening : FlatNode R → R
    opening node = mul scene.theta2 (softened scene.soft2 (to_centre node))

    -- The leaf is resolved by its bodies.
    abbrev pub near_leaf : FlatNode R → Bool
    near_leaf node =
        node.is_leaf && (self_leaf node || le (opening node) (side2 scene.side node.depth))

    abbrev pub myself : FlatNode R → Bool
    myself node = (node.depth == bh_max_depth) && (node.prefix == get_or scene.key i 0)

    -- Barnes-Hut acceptance.
    abbrev pub accepted : FlatNode R → Bool
    accepted node =
        node.is_pseudo
        || (node.is_leaf
            || (node.depth == bh_max_depth || lt (side2 scene.side node.depth) (opening node)))

    module _ {A : Type 0} (kernel : Kernel R A) where
      -- The first loop of a leaf, from body j on: each body but i adds to the sum.
      pub pairs : ℕ → ℕ → A → A
      pairs zero j a = a
      pairs (suc rounds) j a =
          let d = displacement (get_or scene.pos j origin) here in
          let r2j = softened scene.soft2 d in
          let skip = (j == i) || not (lt nought r2j) in
          pairs rounds (j + 1)
            (if skip then a else kernel.near (get_or scene.mass j nought) d r2j a)

      -- The mass that came from other localities, as one monopole.
      pub add_extra : FlatNode R → R → A → A
      add_extra node extra a =
          let w = own_weighted node.body_count node.body_begin origin in
          let e : Position R = record {
            x = div (sub (mul node.mass node.com_x) w.x) extra;
            y = div (sub (mul node.mass node.com_y) w.y) extra;
            z = div (sub (mul node.mass node.com_z) w.z) extra;
          } in
          let d = displacement e here in
          let er2 = softened scene.soft2 d in if lt nought er2 then kernel.near extra d er2 a else a

      pub resolve_leaf : FlatNode R → A → A
      resolve_leaf node a =
          let summed = pairs node.body_count node.body_begin a in
          let extra = sub node.mass (own_mass node.body_count node.body_begin nought) in
          if lt (mul tiny node.mass) extra then add_extra node extra summed else summed

      -- The cell as one monopole.
      abbrev pub add_far : FlatNode R → A → A
      add_far node a =
          kernel.far node.mass (to_centre node) (softened scene.soft2 (to_centre node)) a

      -- The body of the while loop.
      pub visit_node : FlatNode R → A → Visit ℕ A
      visit_node node a =
          if same node.mass nought
          then settled a
          else if near_leaf node
          then settled (resolve_leaf node a)
          else if myself node
          then settled a
          else if accepted node
          then settled (add_far node a)
          else opened (range_from node.children_offset node.child_count)

      pub visit : ℕ → A → Visit ℕ A
      visit n a = visit_node (get_or scene.nodes n no_node) a

      -- The whole walk of body i.
      pub walk_body : A → Outcome A
      walk_body a = walk push_or_throw visit (root_stack scene.nodes) walk_fuel a
