-- ===== src/Charm/GravityWalk/Descent.antt =====
-- The recursive descent that gravityWalk is meant to be, and that it is one.
use amt_bh_benchmark.Base.{
  ℕ, zero, suc, ◌+◌, ◌*◌, ◌≤◌, ◌≡◌, refl, ◌∙◌, false, ltb, Option, none, some, List, [], ◌∷◌, ◌++◌,
  length, length-append, arith,
}
use amt_bh_benchmark.Base.Real.{Real}
use amt_bh_benchmark.Charm.Tree.{
  Node, Nodes, node, none_left, child, core, num_children, size, size_all, IsWithin, AllWithin,
}
use amt_bh_benchmark.Charm.GravityWalk.{
  Actions, TraversalWorker, visit, is_empty_mask, keep_opened, visit_children, push_kept, walk_loop,
  walk_opened, gravity_walk, gravity_leaf, and_go_on,
}

kept_of : {R : Type 0} → Nodes R → List (List ℕ) → List (Node R × List ℕ)
kept_of none_left ms = []
kept_of (child n ns) [] = []
kept_of (child n ns) (m ∷ ms) = keep_opened n m (kept_of ns ms)

and_go_on-cong :
    {S : Type 0} (o : Option S) (g k : S → Option S)
    → ((s : S) → g s ≡ k s)
    → and_go_on o g ≡ and_go_on o k
unfolding and_go_on
and_go_on-cong none g k h = refl
and_go_on-cong (some s) g k h = h s

and_go_on_assoc :
    {S : Type 0} (o : Option S) (g k : S → Option S)
    → and_go_on o (λ s. and_go_on (g s) k) ≡ and_go_on (and_go_on o g) k
unfolding and_go_on
and_go_on_assoc none g k = refl
and_go_on_assoc (some s) g k = refl

and_go_on-some : {S : Type 0} (o : Option S) → and_go_on o some ≡ o
unfolding and_go_on
and_go_on-some none = refl
and_go_on-some (some s) = refl

length-kept_of-le :
    {R : Type 0} (ns : Nodes R) (ms : List (List ℕ)) → length (kept_of ns ms) ≤ num_children ns
unfolding kept_of num_children keep_opened is_empty_mask
length-kept_of-le none_left ms = omega arith
length-kept_of-le (child n ns) [] = omega arith
length-kept_of-le (child n ns) ([] ∷ ms) = omega (arith, length-kept_of-le ns ms)
length-kept_of-le (child n ns) ((b ∷ bs) ∷ ms) = omega (arith, length-kept_of-le ns ms)

width_of_children : (width h : ℕ) → (width * suc h ≡ width + width * h) × (width ≤ width * suc h)
width_of_children width h = (grind arith, grind arith)

module _ {R S : Type 0} (real : Real R) (act : Actions R S) (tolsq : R)
    (w : TraversalWorker R) where
  -- The masks with which the buckets go on, child by child.
  unfoldable pub visit_masks : Nodes R → List ℕ → S → List (List ℕ) × S
  visit_masks none_left mask s = ([], s)
  visit_masks (child n ns) mask s =
      let (m, s') = visit real act tolsq w (core n) mask s in
      let (ms, s'') = visit_masks ns mask s' in (m ∷ ms, s'')

  unfoldable mutual
    -- The walk below a node that the buckets of the mask have opened.
    pub descend : Node R → List ℕ → S → Option S
    descend (node c none_left) mask s = gravity_leaf act c mask s
    descend (node c (child n ns)) mask s =
        descend_all (child n ns) (visit_masks (child n ns) mask s).0
          (visit_masks (child n ns) mask s).1

    pub descend_all : Nodes R → List (List ℕ) → S → Option S
    descend_all none_left ms s = some s
    descend_all (child n ns) [] s = some s
    descend_all (child n ns) ([] ∷ ms) s = descend_all ns ms s
    descend_all (child n ns) ((b ∷ bs) ∷ ms) s =
        and_go_on (descend n (b ∷ bs) s) (λ s'. descend_all ns ms s')

  unfoldable pub descend_opened : Node R → List ℕ × S → Option S
  descend_opened root ([], s) = some s
  descend_opened root (b ∷ bs, s) = descend root (b ∷ bs) s

  unfoldable pub gravity_descent : Node R → List ℕ → S → Option S
  gravity_descent root mask s = descend_opened root (visit real act tolsq w (core root) mask s)

  visit_children-kept_of :
      (ns : Nodes R) (mask : List ℕ) (s : S)
      → visit_children real act tolsq w ns mask s
        ≡ (kept_of ns (visit_masks ns mask s).0, (visit_masks ns mask s).1)
  unfolding visit_masks visit_children kept_of
  visit_children-kept_of none_left mask s = refl
  visit_children-kept_of (child n ns) mask s =
      rw (visit_children-kept_of ns mask (visit real act tolsq w (core n) mask s).1) refl

  -- With at least so much fuel the walk of this stack ends in this way.
  abbrev Resumes : ℕ → ℕ → List (Node R × List ℕ) → (S → Option S) → Type 0
  Resumes mx fuel stack k =
      (f : ℕ) → fuel ≤ f → (s : S) → walk_loop real act tolsq w mx f stack s ≡ k s

  mutual
    unfolding size IsWithin descend walk_loop kept_of push_kept and_go_on keep_opened is_empty_mask

    walk-descend :
        (n : Node R) (width h mx : ℕ)
        → IsWithin width h n
        → (stack : List (Node R × List ℕ)) → length stack + width * h ≤ mx
        → (k : S → Option S) (fuel : ℕ) → Resumes mx fuel stack k
        → (mask : List ℕ) (s : S) (f : ℕ) → size n + fuel ≤ f
        → walk_loop real act tolsq w mx f ((n, mask) ∷ stack) s ≡ and_go_on (descend n mask s) k
    walk-descend (node c none_left) width h mx within stack room k fuel rest mask s zero enough =
        absurd (omega arith)
    walk-descend (node c (child n ns)) width h mx within stack room k fuel rest mask s zero enough =
        absurd (omega arith)
    walk-descend (node c none_left) width h mx within stack room k fuel rest mask s (suc f) enough =
        and_go_on-cong (gravity_leaf act c mask s) _ k (λ s'. rest f (omega arith) s')
    walk-descend (node c (child n ns)) width zero mx within stack room k fuel rest mask s (suc f)
          enough =
        absurd within
    walk-descend (node c (child n ns)) width (suc h) mx within stack room k fuel rest mask s (suc f)
          enough =
        let kept : List (Node R × List ℕ) =
          kept_of (child n ns) (visit_masks (child n ns) mask s).0 in
        let few : length kept ≤ width =
          omega
            (arith, within.0, length-kept_of-le (child n ns) (visit_masks (child n ns) mask s).0) in
        let fits : ltb mx (length stack + length kept) ≡ false =
          ground (arith, few, room, width_of_children width h) in
        rw (visit_children-kept_of (child n ns) mask s, fits)
          (walk-descend_all (child n ns) width h mx within.1 (visit_masks (child n ns) mask s).0
            stack (omega (arith, few, width_of_children width h)) k fuel rest
            (visit_masks (child n ns) mask s).1 f (omega arith))

    walk-descend_all :
        (ns : Nodes R) (width h mx : ℕ)
        → AllWithin width h ns
        → (ms : List (List ℕ)) (stack : List (Node R × List ℕ))
        → length (kept_of ns ms) + length stack + width * h ≤ mx
        → (k : S → Option S) (fuel : ℕ) → Resumes mx fuel stack k
        → (s : S) (f : ℕ) → size_all ns + fuel ≤ f
        → walk_loop real act tolsq w mx f (kept_of ns ms ++ stack) s
          ≡ and_go_on (descend_all ns ms s) k
    walk-descend_all none_left width h mx within ms stack room k fuel rest s f enough =
        rest f (omega arith) s
    walk-descend_all (child n ns) width h mx within [] stack room k fuel rest s f enough =
        rest f (omega arith) s
    walk-descend_all (child n ns) width h mx within ([] ∷ ms) stack room k fuel rest s f enough =
        walk-descend_all ns width h mx within.1 ms stack room k fuel rest s f (omega arith)
    walk-descend_all (child n ns) width h mx within ((b ∷ bs) ∷ ms) stack room k fuel rest s f
          enough =
        walk-descend n width h mx within.0 (kept_of ns ms ++ stack)
          (omega (arith, length-append (kept_of ns ms) stack))
          (λ s'. and_go_on (descend_all ns ms s') k) (size_all ns + fuel)
          (λ f' more s'.
            walk-descend_all ns width h mx within.1 ms stack (omega arith) k fuel rest s' f' more)
          (b ∷ bs) s f (omega arith)
        ∙ and_go_on_assoc (descend n (b ∷ bs) s) (descend_all ns ms) k

  walk_opened-descend_opened :
      (branch_factor fuel : ℕ) (root : Node R)
      → IsWithin branch_factor 64 root
      → size root ≤ fuel
      → (opening : List ℕ × S)
      → walk_opened real act tolsq w (64 * branch_factor + 1) fuel root opening
        ≡ descend_opened root opening
  unfolding walk_opened descend_opened is_empty_mask walk_loop
  walk_opened-descend_opened branch_factor fuel root within enough ([], s) = refl
  walk_opened-descend_opened branch_factor fuel root within enough (b ∷ bs, s) =
      walk-descend root branch_factor 64 (64 * branch_factor + 1) within [] (omega arith) some 0
        (λ f more s'. refl) (b ∷ bs) s fuel (omega arith)
      ∙ and_go_on-some (descend root (b ∷ bs) s)

  -- Over a tree of at most 64 levels below the root, each node with at most BRANCH_FACTOR children,
  -- and on at least as many rounds as it has nodes, gravityWalk is the recursive descent, with the same
  -- effects in the same order, and the assertion on the stack does not fail.
  pub gravity_walk-gravity_descent :
      (branch_factor fuel : ℕ) (root : Node R) (mask : List ℕ) (s : S)
      → IsWithin branch_factor 64 root
      → size root ≤ fuel
      → gravity_walk real act tolsq w branch_factor fuel root mask s ≡ gravity_descent root mask s
  unfolding gravity_walk gravity_descent
  gravity_walk-gravity_descent branch_factor fuel root mask s within enough =
      walk_opened-descend_opened branch_factor fuel root within enough
        (visit real act tolsq w (core root) mask s)
