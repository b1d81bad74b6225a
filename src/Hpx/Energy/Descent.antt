-- ===== src/Hpx/Energy/Descent.antt =====
-- The energies against the recursive descent into the tree.
use amt_bh_benchmark.Base.{ℕ, List, map, length, range_from, ◌≡◌, ap}
use amt_bh_benchmark.Base.Real.{Real}
use amt_bh_benchmark.Hpx.Octree.{Position}
use amt_bh_benchmark.Hpx.Walk.{finished, map_outcome}
use amt_bh_benchmark.Hpx.Walk.Descent.{each_body-finished}
use amt_bh_benchmark.Hpx.Scene.{BoundingBox, FlatNode, Scene, scene_of}
use amt_bh_benchmark.Hpx.Traversal.{walk_body}
use amt_bh_benchmark.Hpx.Traversal.Acceptance.{IsFlat, descend_root, walk_body-descend_root}
use amt_bh_benchmark.Hpx.Energy.{potential, half_sum, compute_local_potential_energy}

module _ {R : Type 0} ⦃real : Real R⦄ (flat : List (FlatNode R)) (key : List ℕ)
    (pos : List (Position R)) (mass : List R) (theta g soft2 : R) (global_bb : BoundingBox R) where
  -- The potential of each body by the recursive descent.
  pub descend_potentials : List R
  descend_potentials =
      map
        (λ i.
          descend_root (scene_of flat key pos mass theta soft2 global_bb) i (potential g)
            real.nought)
        (range_from 0 (length pos))

  -- Over a flat tree of at most 21 levels, the potential energy is half the sum of mass times
  -- potential over the bodies, the potentials those of the recursive descent from the root, and the
  -- stack does not overflow.
  pub compute_local_potential_energy-descend_root :
      IsFlat flat
      → compute_local_potential_energy flat key pos mass theta g soft2 global_bb
        ≡ finished (half_sum mass descend_potentials)
  unfolding compute_local_potential_energy map_outcome descend_potentials
  compute_local_potential_energy-descend_root h =
      let scene : Scene R = scene_of flat key pos mass theta soft2 global_bb in
      ap (map_outcome (half_sum mass)) (
        each_body-finished (λ i. walk_body scene i (potential g) real.nought)
          (λ i. descend_root scene i (potential g) real.nought)
          (λ i. walk_body-descend_root scene i (potential g) h real.nought)
          (range_from 0 (length pos)))
