-- ===== src/Ttg/Tree/Examples.antt =====
-- The build of the tree over five particles on a line, over whole numbers.
use amt_bh_benchmark.Base.{ℕ, ◌%◌, ◌≡◌, refl, List, [], ◌∷◌, concat, copies, arith}
use amt_bh_benchmark.Base.Whole.{whole}
use amt_bh_benchmark.Ttg.Tree.{Vec3, make_tree, partition, count_octants, scatter, range_begins}
use amt_bh_benchmark.Ttg.Tree.CountingSort.{push_all, partition-concat}
use amt_bh_benchmark.Ttg.Tree.Leaves.{IsBuilt, make_tree-IsBuilt}

abbrev five : List ℕ
five = 9 ∷ 40 ∷ 2 ∷ 33 ∷ 0 ∷ []

abbrev on_line : ℕ → Vec3 ℕ
on_line x = record { x = x; y = 0; z = 0 }

five_sorted : partition (λ m. m % 8) five five ≡ 40 ∷ 0 ∷ 9 ∷ 33 ∷ 2 ∷ []
unfolding partition count_octants scatter range_begins
five_sorted = refl

partition-concat_example :
    partition (λ m. m % 8) five five ≡ concat (push_all (λ m. m % 8) five (copies 8 []))
partition-concat_example = partition-concat (λ m. m % 8) five five (λ m. omega arith) refl

make_tree-IsBuilt_example : IsBuilt 2 0 five (make_tree whole 1000 0 1 on_line five (copies 5 0) 2)
make_tree-IsBuilt_example =
    make_tree-IsBuilt whole 1000 0 1 on_line five (copies 5 0) 2 (omega arith) refl
