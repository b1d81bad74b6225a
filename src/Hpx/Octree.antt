-- ===== src/Hpx/Octree.antt =====
-- hpx/include/linear_octree.h and the build in hpx/src/linear_octree.cpp. A cell is given by its
-- prefix and by the number `left` of levels below it: its depth is bh_max_depth - left.
pub mod Sweep
pub mod Async
pub mod Root
pub mod Steps
pub mod Partition
use amt_bh_benchmark.Base.{
  ℕ, zero, suc, ◌+◌, ◌-◌, ◌*◌, ◌/◌, ◌%◌, ◌^◌, bit_or, Bool, true, false, ◌||◌, List, [], ◌∷◌, ◌++◌,
  ltb, leb, ◌==◌, if◌then◌else◌, get_or, length, min, max,
}
use amt_bh_benchmark.Base.Real.{Real}

abbrev pub bh_max_depth : ℕ
bh_max_depth = 21

pub record OctreeKey : Type 0 where
  pub prefix : ℕ
  pub depth : ℕ

pub record OctreeNode (R : Type 0) : Type 0 where
  pub mass : R
  pub com_x : R
  pub com_y : R
  pub com_z : R
  pub is_pseudo : Bool
  pub is_leaf : Bool
  pub body_begin : ℕ
  pub body_count : ℕ
  pub child_mask : ℕ

pub record Position (R : Type 0) : Type 0 where
  pub x : R
  pub y : R
  pub z : R

-- Mass and mass-weighted coordinate sums.
pub record Agg (R : Type 0) : Type 0 where
  pub m : R
  pub wx : R
  pub wy : R
  pub wz : R

pub record NodeOut (R : Type 0) : Type 0 where
  pub key : OctreeKey
  pub node : OctreeNode R

-- What a call returns, and what it appends to its buffer.
pub record Built (R : Type 0) : Type 0 where
  pub out : List (NodeOut R)
  pub agg : Agg R

-- The variables of the octant loop: the buffer, the sums so far and child_mask.
pub record Swept (R : Type 0) : Type 0 where
  pub out : List (NodeOut R)
  pub agg : Agg R
  pub mask : ℕ

-- The Morton-sorted arrays of the bodies, and the leaf capacity.
pub record Inputs (R : Type 0) : Type 0 where
  pub codes : List ℕ
  pub pos : List (Position R)
  pub mass : List R
  pub leaf_capacity : ℕ

-- (codes[k] >> shift) & 7, with the shift 3 * left of the cells that have `left` levels below.
abbrev pub octant : List ℕ → ℕ → ℕ → ℕ
octant codes left k = get_or codes k 0 / 2 ^ (3 * left) % 8

-- The inner while loop: the end of the run of octant oc that starts at k, with `rounds` = hi - k.
pub run_end : List ℕ → ℕ → ℕ → ℕ → ℕ → ℕ
run_end codes left oc zero k = k
run_end codes left oc (suc rounds) k =
    let rest = run_end codes left oc rounds (k + 1) in if octant codes left k == oc then rest else k

-- prefix | (oc << shift)
abbrev pub child_prefix : ℕ → ℕ → ℕ → ℕ
child_prefix prefix left oc = bit_or prefix (oc * 2 ^ (3 * left) % 2 ^ 64)

-- mask | (1u << oc), in a uint8_t.
abbrev pub set_octant : ℕ → ℕ → ℕ
set_octant mask oc = bit_or mask (2 ^ oc) % 2 ^ 8

module _ {R : Type 0} ⦃real : Real R⦄ where
  open real use {nought, add, mul, div, lt}

  abbrev pub no_agg : Agg R
  no_agg = record { m = nought; wx = nought; wy = nought; wz = nought }

  pub add_agg : Agg R → Agg R → Agg R
  add_agg a c = record {
    m = add a.m c.m;
    wx = add a.wx c.wx;
    wy = add a.wy c.wy;
    wz = add a.wz c.wz;
  }

  pub finalize_com : OctreeNode R → OctreeNode R
  finalize_com n =
      if lt nought n.mass
      then record n {
        com_x = div n.com_x n.mass;
        com_y = div n.com_y n.mass;
        com_z = div n.com_z n.mass;
      }
      else n

  abbrev nowhere : Position R
  nowhere = record { x = nought; y = nought; z = nought }

  -- The leaf's loop over its bodies, in ascending order, with `rounds` = hi - j.
  pub sum_bodies : Inputs R → ℕ → ℕ → Agg R → Agg R
  sum_bodies inp zero j a = a
  sum_bodies inp (suc rounds) j a =
      let m = get_or inp.mass j nought in
      let p = get_or inp.pos j nowhere in
      sum_bodies inp rounds (j + 1) (record {
        m = add a.m m;
        wx = add a.wx (mul p.x m);
        wy = add a.wy (mul p.y m);
        wz = add a.wz (mul p.z m);
      })

  abbrev bare_node : Agg R → OctreeNode R
  bare_node a = record {
    mass = a.m;
    com_x = a.wx;
    com_y = a.wy;
    com_z = a.wz;
    is_pseudo = false;
    is_leaf = false;
    body_begin = 0;
    body_count = 0;
    child_mask = 0;
  }

  pub leaf_out : ℕ → ℕ → ℕ → ℕ → Agg R → NodeOut R
  leaf_out left prefix lo hi a = record {
    key = record { prefix = prefix; depth = bh_max_depth - left };
    node = finalize_com (record (bare_node a) {
      is_leaf = true;
      body_begin = lo % 2 ^ 32;
      body_count = (hi - lo) % 2 ^ 32;
    });
  }

  pub internal_out : ℕ → ℕ → Agg R → ℕ → NodeOut R
  internal_out left prefix a mask = record {
    key = record { prefix = prefix; depth = bh_max_depth - left };
    node = finalize_com (record (bare_node a) { child_mask = mask });
  }

  -- One round of the octant loop: bodies j to k are those of octant oc. An empty run adds nothing.
  unfoldable pub sweep_round : (ℕ → ℕ → ℕ → Built R) → ℕ → ℕ → ℕ → ℕ → ℕ → Swept R → Swept R
  sweep_round build left prefix oc j k s =
      let c = build (child_prefix prefix left oc) j k in
      if ltb j k
      then record { out = s.out ++ c.out; agg = add_agg s.agg c.agg; mask = set_octant s.mask oc }
      else s

  -- The loop over the octants from oc = 8 - octants on. `build` is the recursive call.
  unfoldable pub sweep : (ℕ → ℕ → ℕ → Built R) → List ℕ → ℕ → ℕ → ℕ → ℕ → ℕ → Swept R → Swept R
  sweep build codes left prefix hi zero j s = s
  sweep build codes left prefix hi (suc octants) j s =
      let oc = 7 - octants in
      let k = run_end codes left oc (hi - j) j in
      sweep build codes left prefix hi octants k (sweep_round build left prefix oc j k s)

  pub build_subtree_serial : Inputs R → ℕ → ℕ → ℕ → ℕ → Built R
  build_subtree_serial inp zero prefix lo hi =
      let a = sum_bodies inp (hi - lo) lo no_agg in
      record { out = leaf_out zero prefix lo hi a ∷ []; agg = a }
  build_subtree_serial inp (suc left) prefix lo hi =
      let a = sum_bodies inp (hi - lo) lo no_agg in
      let s =
        sweep (build_subtree_serial inp left) inp.codes left prefix hi 8 lo
          (record { out = []; agg = no_agg; mask = 0 }) in
      if leb (hi - lo) inp.leaf_capacity
      then record { out = leaf_out (suc left) prefix lo hi a ∷ []; agg = a }
      else record { out = s.out ++ internal_out (suc left) prefix s.agg s.mask ∷ []; agg = s.agg }
