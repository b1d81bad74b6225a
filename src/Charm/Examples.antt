-- ===== src/Charm/Examples.antt =====
-- Runs of the theorems of this tree at concrete inputs.
use amt_bh_benchmark.Base.{
  refl, ℕ, zero, suc, ◌<◌, ◌≤◌, ◌≡◌, ◌*◌, ◌+◌, ◌^◌, List, [], ◌∷◌, All, true, some, leb, arith,
}
use amt_bh_benchmark.Base.Int.{pos, negsuc, ◌-ℤ◌}
use amt_bh_benchmark.Charm.Owners.{serving_owner}
use amt_bh_benchmark.Charm.Owners.Serving.{Serves, serving_owner-Serves}
use amt_bh_benchmark.Charm.Ownership.{
  Owned, remote, remote_bucket, boundary, get_ownership_from_children, walk_children, walk_child,
  leaves_gap, is_external, node_of,
}
use amt_bh_benchmark.Charm.Search.{binary_search_ge, Found, binary_search_ge-Found}
use amt_bh_benchmark.Charm.WalkGroups.{Bucket, Parameters, form_walk_groups, with_particles}
use amt_bh_benchmark.Charm.WalkGroups.Grouping.{all_buckets_of, IsWithin, form_walk_groups_lem}
use amt_bh_benchmark.Charm.KeyBits.{get_particle_level_key, get_last_particle_level_key}
use amt_bh_benchmark.Charm.KeyBits.Intervals.{IsNodeKey, IsCutByChildren, children_intervals}
use amt_bh_benchmark.Charm.Splitters.{find_splitters}
use amt_bh_benchmark.Charm.Splitters.Cuts.{IsSortedOn, InNode, IsCut, key_at, find_splitters-IsCut}

binary_search_ge-Found_example : Found (leb 5) 2 9 (binary_search_ge (leb 5) 2 9)
binary_search_ge-Found_example =
    binary_search_ge-Found (leb 5) 2 9 (omega arith) (λ i j a b c h. ground arith)

abbrev three_buckets : List Bucket
three_buckets =
    record { name = 1; num_particles = 6 }
    ∷ record { name = 2; num_particles = 0 }
    ∷ record { name = 3; num_particles = 3 }
    ∷ []

abbrev eight_particles : Parameters
eight_particles = record { walk_group_particles = 8; packet_walk = true; packet_max_lanes = 4 }

form_walk_groups_lem_example :
    (all_buckets_of (form_walk_groups eight_particles three_buckets) ≡ with_particles three_buckets)
    × All (IsWithin eight_particles) (form_walk_groups eight_particles three_buckets)
form_walk_groups_lem_example = form_walk_groups_lem eight_particles three_buckets

node_nine : IsNodeKey 3 9 1
node_nine = record { fits = omega arith; deep = omega arith }

children_intervals_example : IsCutByChildren 3 9 1
children_intervals_example = children_intervals 3 9 1 node_nine (omega arith)

abbrev three_keys : List ℕ
three_keys = (75 * 2 ^ 57) ∷ (75 * 2 ^ 57 + 4) ∷ (77 * 2 ^ 57) ∷ []

three_keys-IsSortedOn : IsSortedOn three_keys 0 3
three_keys-IsSortedOn = record { ordered = ordered }
  where
    ordered : (i j : ℕ) → 0 ≤ i → i ≤ j → j < 3 → key_at three_keys i ≤ key_at three_keys j
    ordered zero zero a b c = omega arith
    ordered zero (suc zero) a b c = omega arith
    ordered zero (suc (suc zero)) a b c = omega arith
    ordered (suc zero) (suc zero) a b c = omega arith
    ordered (suc zero) (suc (suc zero)) a b c = omega arith
    ordered (suc (suc zero)) (suc (suc zero)) a b c = omega arith
    ordered (suc i) zero a b c = absurd (omega arith)
    ordered (suc (suc i)) (suc zero) a b c = absurd (omega arith)
    ordered (suc (suc (suc i))) (suc (suc j)) a b c = absurd (omega arith)
    ordered i (suc (suc (suc j))) a b c = absurd (omega arith)

three_keys-InNode : InNode three_keys 3 9 1 0 3
unfolding get_particle_level_key get_last_particle_level_key
three_keys-InNode zero a b = (omega arith, omega arith)
three_keys-InNode (suc zero) a b = (omega arith, omega arith)
three_keys-InNode (suc (suc zero)) a b = (omega arith, omega arith)
three_keys-InNode (suc (suc (suc i))) a b = absurd (omega arith)

find_splitters-IsCut_example :
    (splitters : List ℕ) × (find_splitters three_keys 3 0 3 72 2 ≡ some splitters)
    × IsCut 3 0 3 splitters
    × ((j : ℕ)
        → j < 2 ^ 3
        → InNode three_keys 3 (72 + j) 2 (key_at splitters j) (key_at splitters (suc j)))
find_splitters-IsCut_example =
    find_splitters-IsCut three_keys 3 9 1 0 3 node_nine (omega arith) (omega arith)
      three_keys-IsSortedOn three_keys-InNode

abbrev some_counts : List ℕ
some_counts = 4 ∷ 0 ∷ 0 ∷ 7 ∷ 0 ∷ []

serving_owner-Serves_example : Serves 1 4 some_counts (serving_owner 2 1 4 some_counts 75)
serving_owner-Serves_example = serving_owner-Serves 2 1 4 some_counts 75 (omega arith)

-- The second child has the sentinel of `OwnershipActiveBinInfo::refine`.
abbrev three_children : List Owned
three_children =
    record { node_type = remote; owner_start = pos 2; owner_end = pos 4 }
    ∷ record { node_type = remote_bucket; owner_start = negsuc 68; owner_end = negsuc 170 }
    ∷ record { node_type = boundary; owner_start = pos 4; owner_end = pos 5 }
    ∷ []

three_children_test :
    get_ownership_from_children three_children
    ≡ some (record { node_type = boundary; owner_start = pos 2; owner_end = pos 5 })
unfolding get_ownership_from_children walk_children walk_child leaves_gap is_external node_of ◌-ℤ◌
three_children_test = refl
