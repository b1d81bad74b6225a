-- ===== src/Hpx/Traversal/Acceptance.antt =====
-- The walk of a body over a flat tree of at most 21 levels ends, and its stack never overflows.
use amt_bh_benchmark.Base.{
  ℕ, zero, suc, ◌+◌, ◌-◌, ◌≤◌, ◌<◌, Bool, true, false, List, [], ◌∷◌, some, length, ◌≡◌, refl,
  subst, ap, All, get_or, range_from, if◌then◌else◌, ◌==◌, arith,
}
use native.Mathlib.Nat.{pow-le-pow_right}
use amt_bh_benchmark.Base.Real.{Real}
use amt_bh_benchmark.Hpx.Octree.{bh_max_depth}
use amt_bh_benchmark.Hpx.Walk.{Visit, settled, opened, finished, push_all, push_or_throw, stack_max}
use amt_bh_benchmark.Hpx.Walk.Descent.{descend_all, Fits, weight, walk-descend_all}
use amt_bh_benchmark.Hpx.Scene.{FlatNode, Scene, Kernel, no_node, root_stack}
use amt_bh_benchmark.Hpx.Traversal.{
  near_leaf, myself, accepted, resolve_leaf, add_far, visit_node, visit, walk_body, walk_fuel,
}

IsSettled : {I A : Type 0} → Visit I A → Type 0
IsSettled (settled a) = Unit
IsSettled (opened cs) = ⊥

children_of : {I A : Type 0} → Visit I A → List I
children_of (settled a) = []
children_of (opened cs) = cs

pub not_opened : {I A : Type 0} (a : A) (cs : List I) → settled a ≡ opened cs → ⊥
unfolding IsSettled
not_opened a cs h = subst IsSettled h tt

pub opened_inj :
    {I A : Type 0} (cs ds : List I) → Path (Visit I A) (opened cs) (opened ds) → cs ≡ ds
unfolding children_of
opened_inj cs ds h = ap children_of h

-- The branches before the last are not taken where the node is opened.
opened_last :
    {I A : Type 0} (b1 b2 b3 b4 : Bool) (a1 a2 a3 a4 : A) (cs ds : List I)
    → (if b1
        then settled a1
        else if b2
        then settled a2
        else if b3
        then settled a3
        else if b4
        then settled a4
        else opened cs)
      ≡ opened ds
    → (b4 ≡ false) × (cs ≡ ds)
opened_last true b2 b3 b4 a1 a2 a3 a4 cs ds h = absurd (not_opened a1 ds h)
opened_last false true b3 b4 a1 a2 a3 a4 cs ds h = absurd (not_opened a2 ds h)
opened_last false false true b4 a1 a2 a3 a4 cs ds h = absurd (not_opened a3 ds h)
opened_last false false false true a1 a2 a3 a4 cs ds h = absurd (not_opened a4 ds h)
opened_last false false false false a1 a2 a3 a4 cs ds h = (refl, opened_inj cs ds h)

pub push_or_throw_room :
    {I : Type 0} (cs s : List I)
    → length s + length cs ≤ stack_max
    → push_or_throw cs s ≡ some (push_all cs s)
unfolding push_or_throw
push_or_throw_room cs s room = ground (arith, room)

length-range_from : (lo n : ℕ) → length (range_from lo n) ≡ n
length-range_from lo zero = refl
length-range_from lo (suc n) = ap suc (length-range_from (lo + 1) n)

All-range_from :
    (P : ℕ → Type 0) (lo n : ℕ) → ((c : ℕ) → c < n → P (lo + c)) → All P (range_from lo n)
All-range_from P lo zero h = tt
All-range_from P lo (suc n) h = (
  subst P (omega arith) (h 0 (omega arith)),
  All-range_from P (lo + 1) n (λ c lt. subst P (omega arith) (h (suc c) (omega (arith, lt)))),
)

module _ {R : Type 0} ⦃real : Real R⦄ where
  -- A flat tree: no node is below level 21, and the children of a node, at most eight, stand one level
  -- below it.
  unfoldable pub IsFlat : List (FlatNode R) → Type 0
  IsFlat nodes =
      (n : ℕ)
      → ((get_or nodes n no_node).depth ≤ bh_max_depth)
        × ((get_or nodes n no_node).child_count ≤ 8)
        × ((c : ℕ)
            → c < (get_or nodes n no_node).child_count
            → (get_or nodes ((get_or nodes n no_node).children_offset + c) no_node).depth
              ≡ (get_or nodes n no_node).depth + 1)

  module _ (scene : Scene R) (i : ℕ) {A : Type 0} (kernel : Kernel R A) where
    visit_node-opened :
        (node : FlatNode R) (a : A) (cs : List ℕ)
        → visit_node scene i kernel node a ≡ opened cs
        → ((node.depth == bh_max_depth) ≡ false)
          × (range_from node.children_offset node.child_count ≡ cs)
    unfolding visit_node
    visit_node-opened node a cs h =
        let (refused, same_children) =
          opened_last (real.same node.mass real.nought) (near_leaf scene i node)
            (myself scene i node) (accepted scene i node) a (resolve_leaf scene i kernel node a) a
            (add_far scene i kernel node a) (range_from node.children_offset node.child_count) cs
            h in
        (ground (arith, refused), same_children)

    -- The levels below a node.
    abbrev left : ℕ → ℕ
    left n = bh_max_depth - (get_or scene.nodes n no_node).depth

    visit-opens :
        IsFlat scene.nodes
        → (n : ℕ) (a : A) (cs : List ℕ) → visit scene i kernel n a ≡ opened cs
        → (l : ℕ) × (left n ≡ suc l) × (length cs ≤ 8) × All (λ c. left c ≡ l) cs
    unfolding visit IsFlat
    visit-opens flat n a cs h =
        let node : FlatNode R = get_or scene.nodes n no_node in
        let (inner, same_children) = visit_node-opened node a cs h in
        let (shallow, few, below) = flat n in
        let level : left n ≡ suc (left n - 1) = ground (arith, inner, shallow) in
        (
          left n - 1,
          level,
          subst (λ ds. length ds ≤ 8) same_children
              (rw (length-range_from node.children_offset node.child_count) few),
          subst (All (λ c. left c ≡ left n - 1)) same_children (
              All-range_from (λ c. left c ≡ left n - 1) node.children_offset node.child_count
                (λ c lt. omega (arith, below c lt, level))),
        )

    -- The descent from the root, by recursion on the levels below it.
    pub descend_root : A → A
    descend_root a = descend_all left (visit scene i kernel) (root_stack scene.nodes) a

    root_stack-Fits : (nodes : List (FlatNode R)) → Fits left 147 (root_stack nodes)
    unfolding root_stack Fits
    root_stack-Fits [] = tt
    root_stack-Fits (n ∷ ns) = (omega arith, tt)

    weight-root_stack : (nodes : List (FlatNode R)) → weight left (root_stack nodes) ≤ walk_fuel
    unfolding root_stack weight
    weight-root_stack [] = omega arith
    weight-root_stack (n ∷ ns) =
        omega (arith, pow-le-pow_right {n = 9} (omega arith) {i = left 0} {j = 21} (omega arith))

    pub walk_body-descend_root :
        IsFlat scene.nodes → (a : A) → walk_body scene i kernel a ≡ finished (descend_root a)
    unfolding walk_body descend_root
    walk_body-descend_root flat a =
        walk-descend_all left (visit scene i kernel) push_or_throw 147
          (λ cs s room. push_or_throw_room cs s (omega (arith, room))) (visit-opens flat)
          (root_stack scene.nodes) walk_fuel a (root_stack-Fits scene.nodes)
          (weight-root_stack scene.nodes)
