-- ===== src/Hpx/Energy.antt =====
-- The energy of the system: hpx/src/energy.cpp, from the flat tree on. The collectives of HPX are
-- parameters: what all_gather gives to this rank, and the all_reduce that adds up two numbers.
pub mod Descent
use amt_bh_benchmark.Base.{
  ℕ, ◌+◌, ◌==◌, Bool, List, [], ◌∷◌, length, concat, if◌then◌else◌, get_or, range_from,
}
use amt_bh_benchmark.Base.Real.{Real}
use amt_bh_benchmark.Hpx.Octree.{Position}
use amt_bh_benchmark.Hpx.Merge.{NodeRecord}
use amt_bh_benchmark.Hpx.Walk.{Outcome, finished, each_body, map_outcome}
use amt_bh_benchmark.Hpx.Scene.{
  BoundingBox, FlatNode, Scene, Kernel, origin, displacement, softened, scene_of,
}
use amt_bh_benchmark.Hpx.Traversal.{walk_body}

pub data FcPolicy : Type 0 where
  tree : FcPolicy
  let_merged : FcPolicy
  let_direct_sum : FcPolicy

pub record EnergySample (R : Type 0) : Type 0 where
  pub kinetic : R
  pub potential : R
  pub total : R

pub record TransferBody (R : Type 0) : Type 0 where
  pub pos : Position R
  pub mass : R
  pub vel : Position R
  pub id : ℕ

module _ {R : Type 0} ⦃real : Real R⦄ where
  open real use {nought, one, half, tiny, add, sub, mul, div, sqrt, le}

  -- sum += ke[i], in ascending order.
  pub kinetic_sum : List R → List (Position R) → ℕ → R → R
  kinetic_sum [] vel i sum = sum
  kinetic_sum (m ∷ mass) vel i sum =
      let v = get_or vel i origin in
      let ke = mul (mul half m) (add (add (mul v.x v.x) (mul v.y v.y)) (mul v.z v.z)) in
      kinetic_sum mass vel (i + 1) (add sum ke)

  pub compute_local_kinetic_energy : List R → List (Position R) → R
  compute_local_kinetic_energy mass vel = kinetic_sum mass vel 0 nought

  -- The kernel of the potential, which ignores the displacement.
  pub near_potential : R → R → Position R → R → R → R
  near_potential g m d r2 p = sub p (div (mul g m) (sqrt r2))

  pub far_potential : R → R → Position R → R → R → R
  far_potential g m d r2 p = sub p (mul (mul g m) (div one (sqrt r2)))

  abbrev pub potential : R → Kernel R R
  potential g = record { near = near_potential g; far = far_potential g }

  -- sum += mass[i] * phi[i], in ascending order, from body i on.
  pub weighted_sum : List R → ℕ → List R → R → R
  weighted_sum mass i [] sum = sum
  weighted_sum mass i (p ∷ phi) sum =
      weighted_sum mass (i + 1) phi (add sum (mul (get_or mass i nought) p))

  -- 0.5 * sum
  pub half_sum : List R → List R → R
  half_sum mass phi = mul half (weighted_sum mass 0 phi nought)

  pub compute_local_potential_energy :
      List (FlatNode R)
      → List ℕ
      → List (Position R)
      → List R
      → R
      → R
      → R
      → BoundingBox R
      → Outcome R
  compute_local_potential_energy flat key pos mass theta g soft2 global_bb =
      let scene = scene_of flat key pos mass theta soft2 global_bb in
      map_outcome (half_sum mass)
        (each_body (λ i. walk_body scene i (potential g) nought) (range_from 0 (length pos)))

  -- The remote nodes, summed directly; near ones add nothing.
  pub remote_potential : R → R → Position R → List (NodeRecord R) → R → R
  remote_potential g soft2 at [] p = p
  remote_potential g soft2 at (r ∷ remote) p =
      let d = displacement (record { x = r.com_x; y = r.com_y; z = r.com_z }) at in
      let r2 = softened soft2 d in
      remote_potential g soft2 at remote
        (if le r2 tiny then p else sub p (div (mul r.mass g) (sqrt r2)))

  pub potentials : (Position R → R) → List (Position R) → List R
  potentials f [] = []
  potentials f (p ∷ pos) = f p ∷ potentials f pos

  pub compute_local_potential_energy_with_remote_direct_sum :
      List (FlatNode R)
      → List (NodeRecord R)
      → List ℕ
      → List (Position R)
      → List R
      → R
      → R
      → R
      → BoundingBox R
      → Outcome R
  compute_local_potential_energy_with_remote_direct_sum flat remote key pos mass theta g soft2 bb =
      let phi_remote = potentials (λ at. remote_potential g soft2 at remote nought) pos in
      map_outcome (λ local_part. add local_part (half_sum mass phi_remote))
        (compute_local_potential_energy flat key pos mass theta g soft2 bb)

  -- The bodies of every rank but the body itself.
  pub exact_potential : R → R → ℕ → Position R → List (TransferBody R) → R → R
  exact_potential g soft2 my_id at [] p = p
  exact_potential g soft2 my_id at (b ∷ all) p =
      let r2 = softened soft2 (displacement b.pos at) in
      exact_potential g soft2 my_id at all
        (if b.id == my_id then p else sub p (div (mul g b.mass) (sqrt r2)))

  -- `mine`, from body i on.
  pub transfer_bodies : List (Position R) → List R → List ℕ → ℕ → List (TransferBody R)
  transfer_bodies [] mass ids i = []
  transfer_bodies (p ∷ pos) mass ids i =
      record { pos = p; mass = get_or mass i nought; vel = origin; id = get_or ids i 0 }
      ∷ transfer_bodies pos mass ids (i + 1)

  -- phi, from body i on.
  pub exact_potentials : R → R → List (TransferBody R) → List ℕ → ℕ → List (Position R) → List R
  exact_potentials g soft2 all ids i [] = []
  exact_potentials g soft2 all ids i (p ∷ pos) =
      exact_potential g soft2 (get_or ids i 0) p all nought
      ∷ exact_potentials g soft2 all ids (i + 1) pos

  pub compute_local_exact_potential_energy :
      (List (TransferBody R) → List (List (TransferBody R)))
      → List (Position R)
      → List R
      → List ℕ
      → R
      → R
      → R
  compute_local_exact_potential_energy all_gather pos mass ids g soft2 =
      let all = concat (all_gather (transfer_bodies pos mass ids 0)) in
      half_sum mass (exact_potentials g soft2 all ids 0 pos)

  -- The potential energy of this rank, by the policy.
  pub local_potential :
      FcPolicy
      → List (FlatNode R)
      → List (NodeRecord R)
      → List ℕ
      → List (Position R)
      → List R
      → R
      → R
      → R
      → BoundingBox R
      → Outcome R
  local_potential tree flat remote key pos mass theta g soft2 bb =
      compute_local_potential_energy flat key pos mass theta g soft2 bb
  local_potential let_merged flat remote key pos mass theta g soft2 bb =
      compute_local_potential_energy flat key pos mass theta g soft2 bb
  local_potential let_direct_sum flat remote key pos mass theta g soft2 bb =
      compute_local_potential_energy_with_remote_direct_sum flat remote key pos mass theta g soft2
        bb

  abbrev pub sample : R × R → EnergySample R
  sample g = record { kinetic = g.0; potential = g.1; total = add g.0 g.1 }

  pub compute_global_energy :
      (List (TransferBody R) → List (List (TransferBody R)))
      → (R × R → R × R)
      → FcPolicy
      → Bool
      → List (FlatNode R)
      → List (NodeRecord R)
      → List ℕ
      → List (Position R)
      → List (Position R)
      → List R
      → List ℕ
      → R
      → R
      → R
      → BoundingBox R
      → Outcome (EnergySample R)
  compute_global_energy all_gather all_reduce pol exact_pe flat remote key pos vel mass ids theta g
        soft2 bb =
      let ke = compute_local_kinetic_energy mass vel in
      let exact : Outcome R =
        finished (compute_local_exact_potential_energy all_gather pos mass ids g soft2) in
      map_outcome (λ pe. sample (all_reduce (ke, pe)))
        (if exact_pe then exact else local_potential pol flat remote key pos mass theta g soft2 bb)
