-- ===== src/Charm/WalkGroups.antt =====
-- `TreePiece::formWalkGroups` of charm/TreePiece.cpp and charm/WalkGroup.h. A bucket is given by its
-- particle count and a name; a group by its buckets. The centres of mass that the code copies for the
-- vector loop are left out. The loops take fuel in the number of buckets.
pub mod Grouping
use amt_bh_benchmark.Base.{
  ℕ, zero, suc, ◌+◌, ◌≤◌, ◌<◌, ◌≡◌, ◌≢◌, refl, sym, ap, ◌∙◌, Bool, true, false, ◌&&◌, ◌||◌, not,
  ltb, leb, if◌then◌else◌, List, [], ◌∷◌, ◌++◌, length, All, arith, Bool-cases, inl, inr, ◌⊎◌,
}

abbrev pub walk_group_max_buckets : ℕ
walk_group_max_buckets = 32

pub record Bucket : Type 0 where
  pub name : ℕ
  pub num_particles : ℕ

pub record WalkGroup : Type 0 where
  pub buckets : List Bucket
  pub packet : Bool

-- `globalParams`, as far as it is read, and PACKET_MAX_LANES.
pub record Parameters : Type 0 where
  pub walk_group_particles : ℕ
  pub packet_walk : Bool
  pub packet_max_lanes : ℕ

pub with_particles : List Bucket → List Bucket
with_particles [] = []
with_particles (b ∷ bs) = if ltb 0 b.num_particles then b ∷ with_particles bs else with_particles bs

-- What the inner loop leaves: the group's buckets, their particles, and the buckets that remain.
pub record Filled : Type 0 where
  pub group : List Bucket
  pub particles : ℕ
  pub rest : List Bucket

-- The inner while loop, with the group so far in order.
pub fill_group : Parameters → List Bucket → ℕ → List Bucket → Filled
fill_group params group particles [] = record { group = group; particles = particles; rest = [] }
fill_group params group particles (b ∷ bs) =
    let more = fill_group params (group ++ b ∷ []) (particles + b.num_particles) bs in
    if not (ltb (length group) walk_group_max_buckets)
    then record { group = group; particles = particles; rest = b ∷ bs }
    else if ltb 0 (length group) && ltb params.walk_group_particles (particles + b.num_particles)
    then record { group = group; particles = particles; rest = b ∷ bs }
    else more

pub group_of : Parameters → Filled → WalkGroup
group_of params f = record {
  buckets = f.group;
  packet = params.packet_walk && leb f.particles params.packet_max_lanes;
}

-- The outer while loop.
pub group_loop : ℕ → Parameters → List Bucket → List WalkGroup
group_loop zero params bs = []
group_loop (suc fuel) params [] = []
group_loop (suc fuel) params (b ∷ bs) =
    let f = fill_group params [] 0 (b ∷ bs) in group_of params f ∷ group_loop fuel params f.rest

-- Each group takes a bucket, so as many rounds as there are buckets are enough.
pub form_walk_groups : Parameters → List Bucket → List WalkGroup
form_walk_groups params my_buckets =
    let bs = with_particles my_buckets in group_loop (length bs) params bs
