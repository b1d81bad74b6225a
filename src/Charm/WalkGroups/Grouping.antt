-- ===== src/Charm/WalkGroups/Grouping.antt =====
-- The groups cut the buckets that hold particles into runs within the limits.
use amt_bh_benchmark.Base.{
  ℕ, zero, suc, ◌+◌, ◌≤◌, ◌<◌, ◌≡◌, refl, ap, true, false, ◌&&◌, ltb, List, [], ◌∷◌, ◌++◌, length,
  length-append, All, arith, Bool-cases, inl, inr, ◌⊎◌, append_assoc,
}
use amt_bh_benchmark.Charm.WalkGroups.{
  walk_group_max_buckets, Bucket, WalkGroup, Parameters, with_particles, fill_group, group_of,
  group_loop, form_walk_groups,
}

pub all_buckets_of : List WalkGroup → List Bucket
all_buckets_of [] = []
all_buckets_of (g ∷ gs) = g.buckets ++ all_buckets_of gs

pub particles_of : List Bucket → ℕ
particles_of [] = 0
particles_of (b ∷ bs) = b.num_particles + particles_of bs

particles_of-append :
    (xs ys : List Bucket) → particles_of (xs ++ ys) ≡ particles_of xs + particles_of ys
unfolding particles_of
particles_of-append [] ys = omega arith
particles_of-append (b ∷ xs) ys = omega (arith, particles_of-append xs ys)

-- A group within its limits: at most 32 buckets, and too many particles only in a bucket that walks
-- alone. The packet is used for groups that fit its lanes.
pub record IsWithin (params : Parameters) (g : WalkGroup) : Type 0 where
  pub some_bucket : 0 < length g.buckets
  pub few_buckets : length g.buckets ≤ 32
  pub few_particles :
      (length g.buckets ≡ 1) ⊎ (particles_of g.buckets ≤ params.walk_group_particles)
  pub packet_fits : g.packet ≡ true → particles_of g.buckets ≤ params.packet_max_lanes

-- What the inner loop keeps.
record Fits (params : Parameters) (group : List Bucket) (particles : ℕ) : Type 0 where
  few : length group ≤ 32
  counted : particles ≡ particles_of group
  light : (length group ≤ 1) ⊎ (particles ≤ params.walk_group_particles)

module _ (params : Parameters) where
  fill_group-append :
      (group : List Bucket) (particles : ℕ) (bs : List Bucket)
      → let f = fill_group params group particles bs in f.group ++ f.rest ≡ group ++ bs
  unfolding fill_group
  fill_group-append group particles [] = refl
  fill_group-append group particles (b ∷ bs) = ground (
    arith,
    fill_group-append (group ++ b ∷ []) (particles + b.num_particles) bs,
    append_assoc group (b ∷ []) bs,
  )

  joined :
      (group : List Bucket) (particles : ℕ) (b : Bucket)
      → Fits params group particles
      → length group < 32
      → (ltb 0 (length group) && ltb params.walk_group_particles (particles + b.num_particles))
        ≡ false
      → Fits params (group ++ b ∷ []) (particles + b.num_particles)
  unfolding particles_of
  joined group particles b h room joins = record {
    few = omega (arith, length-append group (b ∷ []));
    counted = omega (arith, h.counted, particles_of-append group (b ∷ []));
    light = ground (arith, length-append group (b ∷ []));
  }

  fill_group-Fits :
      (group : List Bucket) (particles : ℕ) (bs : List Bucket)
      → Fits params group particles
      → let f = fill_group params group particles bs in Fits params f.group f.particles
  unfolding fill_group particles_of
  fill_group-Fits group particles [] h = h
  fill_group-Fits group particles (b ∷ bs) h =
      elim (Bool-cases (ltb (length group) walk_group_max_buckets)) [
        | inr full ↦ rw full h
        | inl room ↦
            elim (Bool-cases (
              ltb 0 (length group)
              && ltb params.walk_group_particles (particles + b.num_particles))) [
                | inl heavy ↦ rw (room, heavy) h
                | inr joins ↦
                    rw (room, joins)
                      (fill_group-Fits (group ++ b ∷ []) (particles + b.num_particles) bs
                        (joined group particles b h (ground arith) joins))
              ]
      ]

  fill_group-grows :
      (group : List Bucket) (particles : ℕ) (bs : List Bucket)
      → length group ≤ length (fill_group params group particles bs).group
  unfolding fill_group
  fill_group-grows group particles [] = omega arith
  fill_group-grows group particles (b ∷ bs) = ground (
    arith,
    fill_group-grows (group ++ b ∷ []) (particles + b.num_particles) bs,
    length-append group (b ∷ []),
  )

  fill_group-takes :
      (b : Bucket) (bs : List Bucket) → 0 < length (fill_group params [] 0 (b ∷ bs)).group
  unfolding fill_group
  fill_group-takes b bs = ground (arith, fill_group-grows (b ∷ []) (0 + b.num_particles) bs)

  start-Fits : Fits params [] 0
  unfolding particles_of
  start-Fits = record { few = omega arith; counted = refl; light = inl (omega arith) }

  group_of-IsWithin :
      (b : Bucket) (bs : List Bucket)
      → IsWithin params (group_of params (fill_group params [] 0 (b ∷ bs)))
  unfolding group_of
  group_of-IsWithin b bs =
      let f = fill_group-Fits [] 0 (b ∷ bs) start-Fits in
      let some_bucket = fill_group-takes b bs in
      record {
        some_bucket = some_bucket;
        few_buckets = f.few;
        few_particles = ground (arith, f.light, f.counted, some_bucket);
        packet_fits = λ e. ground (arith, f.counted);
      }

  -- Each round of the outer loop leaves fewer buckets.
  fill_group-rest-lt :
      (b : Bucket) (bs : List Bucket)
      → length (fill_group params [] 0 (b ∷ bs)).rest < length (b ∷ bs)
  fill_group-rest-lt b bs =
      let f = fill_group params [] 0 (b ∷ bs) in
      omega (
        arith,
        ap length (fill_group-append [] 0 (b ∷ bs)),
        length-append f.group f.rest,
        fill_group-takes b bs,
      )

  group_loop-append :
      (fuel : ℕ) (bs : List Bucket)
      → length bs ≤ fuel
      → all_buckets_of (group_loop fuel params bs) ≡ bs
  unfolding group_loop all_buckets_of group_of
  group_loop-append zero [] h = refl
  group_loop-append zero (b ∷ bs) h = absurd (omega arith)
  group_loop-append (suc fuel) [] h = refl
  group_loop-append (suc fuel) (b ∷ bs) h =
      rw
        (group_loop-append fuel (fill_group params [] 0 (b ∷ bs)).rest
          (omega (arith, fill_group-rest-lt b bs)))
        (fill_group-append [] 0 (b ∷ bs))

  group_loop-IsWithin :
      (fuel : ℕ) (bs : List Bucket) → All (IsWithin params) (group_loop fuel params bs)
  unfolding group_loop
  group_loop-IsWithin zero bs = tt
  group_loop-IsWithin (suc fuel) [] = tt
  group_loop-IsWithin (suc fuel) (b ∷ bs) =
      (group_of-IsWithin b bs, group_loop-IsWithin fuel (fill_group params [] 0 (b ∷ bs)).rest)

-- The groups, put together, are the buckets that hold particles, in their order. Each has from 1 to 32
-- buckets; it holds more particles than the limit only if it is a single bucket, and is walked with the
-- packet only if its particles fit the lanes.
pub form_walk_groups_lem :
    (params : Parameters) (my_buckets : List Bucket)
    → (all_buckets_of (form_walk_groups params my_buckets) ≡ with_particles my_buckets)
      × All (IsWithin params) (form_walk_groups params my_buckets)
unfolding form_walk_groups
form_walk_groups_lem params my_buckets =
    let bs = with_particles my_buckets in
    (
      group_loop-append params (length bs) bs (omega arith),
      group_loop-IsWithin params (length bs) bs,
    )
