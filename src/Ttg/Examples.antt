-- ===== src/Ttg/Examples.antt =====
-- The theorems on ttg-parsec/ at concrete inputs.
use amt_bh_benchmark.Base.{◌≡◌, ◌↔◌, refl, true, arith}
use amt_bh_benchmark.Base.Int.{pos}
use amt_bh_benchmark.Ttg.Key.{Key, child_at, is_ancestor_of, is_valid, is_invalid, to_translation}
use amt_bh_benchmark.Ttg.Key.Children.{IsChildOf, child_at-parent_lem}
use amt_bh_benchmark.Ttg.Key.Ancestors.{IsProperParent, is_ancestor_of-iff-IsProperParent}
use amt_bh_benchmark.Ttg.Key.Validity.{IsInTree, is_valid-iff-IsInTree, child_at-IsValid}

abbrev level_two : Key
level_two = record { n = 2; l = record { x = pos 1; y = pos 3; z = pos 2 } }

abbrev level_four : Key
level_four = record { n = 4; l = record { x = pos 6; y = pos 13; z = pos 11 } }

abbrev level_six : Key
level_six = record { n = 6; l = record { x = pos 25; y = pos 54; z = pos 44 } }

child_at-parent_lem_example : (child_at level_two 5 ≡ level_four) ↔ IsChildOf level_four level_two 5
child_at-parent_lem_example =
    child_at-parent_lem level_two level_four 5 (omega arith) (omega arith)
      (record { x = omega arith; y = omega arith; z = omega arith }) (omega arith)

is_ancestor_of-iff-IsProperParent_example :
    (is_ancestor_of level_two level_four ≡ true) ↔ IsProperParent level_two level_four
is_ancestor_of-iff-IsProperParent_example = is_ancestor_of-iff-IsProperParent level_two level_four

two_above_four : is_ancestor_of level_two level_four ≡ true
unfolding is_ancestor_of
two_above_four = refl

four_above_six : is_ancestor_of level_four level_six ≡ true
unfolding is_ancestor_of
four_above_six = refl

level_four-IsValid : is_valid level_four ≡ true
unfolding is_valid is_invalid to_translation
level_four-IsValid = refl

is_valid-iff-IsInTree_example : (is_valid level_four ≡ true) ↔ IsInTree level_four
is_valid-iff-IsInTree_example = is_valid-iff-IsInTree level_four (omega arith)

child_at-IsValid_example : is_valid (child_at level_four 3) ≡ true
child_at-IsValid_example = child_at-IsValid level_four 3 (omega arith) level_four-IsValid
