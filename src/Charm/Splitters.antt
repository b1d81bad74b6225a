-- ===== src/Charm/Splitters.antt =====
-- `findSplitters` of charm/util.cpp, and `refine` with `initChild` of charm/Node.h. The particles are
-- given by their keys; log_branch is LOG_BRANCH_FACTOR.
pub mod Cuts
use amt_bh_benchmark.Base.{
  ℕ, zero, suc, ◌+◌, ◌-◌, ◌*◌, ◌^◌, ◌<◌, ◌≤◌, ◌≡◌, Bool, Option, none, some, List, [], ◌∷◌, leb,
  get_or, length,
}
use amt_bh_benchmark.Charm.Search.{binary_search_ge}
use amt_bh_benchmark.Charm.KeyBits.{get_particle_level_key}

infixl 5 ◌>>=◌
abbrev pub ◌>>=◌ : {A B : Type 0} → Option A → (A → Option B) → Option B
none >>= f = none
some a >>= f = f a

-- `CompareParticleToKey` at an index.
abbrev pub compare_particle_to_key : List ℕ → ℕ → ℕ → Bool
compare_particle_to_key particles k i = leb k (get_or particles i 0)

-- The loop, with `rounds` children left: the splitters that it sets, and the last one.
pub splitter_loop : List ℕ → ℕ → ℕ → ℕ → ℕ → ℕ → ℕ → Option (List ℕ)
splitter_loop particles log_branch child_depth end zero child_key start = some (end ∷ [])
splitter_loop particles log_branch child_depth end (suc rounds) child_key start = do
  let next = (child_key + 1)
  let test_key = get_particle_level_key log_branch next child_depth
  first ← binary_search_ge (compare_particle_to_key particles test_key) start end
  rest ← splitter_loop particles log_branch child_depth end rounds next first
  some (first ∷ rest)

pub find_splitters : List ℕ → ℕ → ℕ → ℕ → ℕ → ℕ → Option (List ℕ)
find_splitters particles log_branch start end child_key child_depth = do
  rest ← splitter_loop particles log_branch child_depth end (2 ^ log_branch - 1) child_key start
  some (start ∷ rest)
