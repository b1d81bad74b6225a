-- ===== src/Hpx/Examples.antt =====
-- The theorems on hpx/ at concrete inputs, and tests of the definitions.
use amt_bh_benchmark.Base.{ℕ, ◌+◌, ◌^◌, ◌≡◌, refl, [], ◌∷◌, arith}
use amt_bh_benchmark.Base.Real.{Real}
use amt_bh_benchmark.Base.Whole.{whole}
use amt_bh_benchmark.Hpx.Morton.{morton63, decode_prefix, spread21, spread_round}
use amt_bh_benchmark.Hpx.Morton.Spread.{spread_digits, spread21-eq-spread_digits}
use amt_bh_benchmark.Hpx.Morton.Compact.{compact_digits, compact21-eq-compact_digits}
use amt_bh_benchmark.Hpx.Morton.{compact21}
use amt_bh_benchmark.Hpx.Octree.{build_subtree_serial}
use amt_bh_benchmark.Hpx.Octree.Async.{build_subtree_async}
use amt_bh_benchmark.Hpx.Octree.Async.Agreement.{Agrees, build_subtree_async-Agrees}
use amt_bh_benchmark.Hpx.Morton.Decode.{decode_prefix-morton63}
use amt_bh_benchmark.Hpx.Octree.{Inputs, Position}
use amt_bh_benchmark.Hpx.Octree.Partition.{listed}
use amt_bh_benchmark.Hpx.Octree.Root.{build_nodes, listed-build_nodes}

morton63_test : morton63 1 2 5 ≡ 0o425
unfolding morton63 spread21 spread_round
morton63_test = refl

decode_prefix-morton63_example :
    decode_prefix (morton63 0x155555 7 0x1FFFFF) 4 ≡ record { ix = 10; iy = 0; iz = 15 }
decode_prefix-morton63_example =
    decode_prefix-morton63 4 0x155555 7 0x1FFFFF (omega arith) (omega arith) (omega arith)
      (omega arith) (omega arith)

-- Whole numbers in place of floating-point ones.
instance abbrev numbers : Real ℕ
numbers = whole

abbrev at_origin : Position ℕ
at_origin = record { x = 0; y = 0; z = 0 }

-- Four bodies; the last two share a code.
abbrev four_bodies : Inputs ℕ
four_bodies = record {
  codes = 5 ∷ 2 ^ 60 ∷ (2 ^ 60 + 9) ∷ (2 ^ 60 + 9) ∷ [];
  pos = at_origin ∷ at_origin ∷ at_origin ∷ at_origin ∷ [];
  mass = 1 ∷ 2 ∷ 3 ∷ 4 ∷ [];
  leaf_capacity = 1;
}

listed-build_nodes_example : listed (build_nodes 2 four_bodies) ≡ 0 ∷ 1 ∷ 2 ∷ 3 ∷ []
listed-build_nodes_example = listed-build_nodes 2 four_bodies (omega arith) (omega arith)

spread21-eq-spread_digits_example : spread21 0x5 ≡ 0o101
unfolding spread_digits
spread21-eq-spread_digits_example = spread21-eq-spread_digits 0x5

compact21-eq-compact_digits_example : compact21 0o321 ≡ 5
unfolding compact_digits
compact21-eq-compact_digits_example = compact21-eq-compact_digits 0o321

build_subtree_async-Agrees_example :
    Agrees (build_subtree_serial four_bodies 21 0 0 4) (build_subtree_async 2 four_bodies 21 0 0 4)
build_subtree_async-Agrees_example = build_subtree_async-Agrees 2 four_bodies 21 0 0 4
