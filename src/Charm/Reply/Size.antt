-- ===== src/Charm/Reply/Size.antt =====
-- The reply has as many nodes as were counted for it.
use amt_bh_benchmark.Base.{
  ℕ, zero, suc, ◌+◌, ◌≤◌, ◌≡◌, refl, ap, ◌∙◌, Bool, true, false, leb, ◌==◌, if◌then◌else◌, Option,
  none, some, List, [], ◌∷◌, ◌++◌, length, length-append, length-change_at, arith,
}
use amt_bh_benchmark.Charm.Tree.{
  Node, Nodes, node, none_left, child, core, children, num_children, size, size_all,
}
use amt_bh_benchmark.Charm.GravityWalk.{and_go_on}
use amt_bh_benchmark.Charm.GravityWalk.Returns.{ReturnsWith, and_go_on-ReturnsWith}
use amt_bh_benchmark.Charm.Reply.{
  Entry, has_children, size_work, work_children, top_down_loop, top_down_traversal_local,
  place_children, copied, serialize, serialize_all, filled, serve_node,
}

module _ {R : Type 0} where
  -- The nodes below a node, down to so many levels.
  unfoldable mutual
    pub below : ℕ → Node R → ℕ
    below zero (node c cs) = 0
    below (suc levels) (node c cs) = num_children cs + below_all levels cs

    pub below_all : ℕ → Nodes R → ℕ
    below_all levels none_left = 0
    below_all levels (child n ns) = below levels n + below_all levels ns

  -- Each node has the depth that it is at.
  unfoldable mutual
    pub HasDepth : ℕ → Node R → Type 0
    HasDepth d (node c cs) = (c.depth ≡ d) × AllHaveDepth (d + 1) cs

    pub AllHaveDepth : ℕ → Nodes R → Type 0
    AllHaveDepth d none_left = Unit
    AllHaveDepth d (child n ns) = HasDepth d n × AllHaveDepth d ns

  pub length-place_children :
      (place : Option ℕ) (m : ℕ) (buf : List (Entry R))
      → length (place_children place m buf) ≡ length buf
  unfolding place_children
  length-place_children none m buf = refl
  length-place_children (some place) m buf = length-change_at buf place _

  pub length-copied :
      (place : Option ℕ) (here : ℕ) (ns : Nodes R) → length (copied place here ns) ≡ num_children ns
  unfolding copied num_children
  length-copied place here none_left = refl
  length-copied place here (child n ns) = ap suc (length-copied place (here + 1) ns) ∙ omega arith

  abbrev pub Grows : ℕ → List (Entry R) → List (Entry R) → Type 0
  Grows m buf buf' = length buf' ≡ length buf + m

  mutual
    unfolding serialize below

    serialize-below :
        (levels : ℕ) (n : Node R) (place : ℕ) (buf : List (Entry R))
        → ReturnsWith (Grows (below levels n) buf) (serialize levels n (some place) buf)
    serialize-below zero (node c cs) place buf =
        (_, refl, length-place_children (some place) 0 buf ∙ omega arith)
    serialize-below (suc levels) (node c cs) place buf =
        let buf' =
          place_children (some place) (num_children cs) buf
          ++ copied (some place) (length buf) cs in
        let (r, e, g) = serialize_all-below levels cs (length buf) buf' in
        (
          r,
          e,
          omega (
            arith,
            g,
            length-append (place_children (some place) (num_children cs) buf)
                (copied (some place) (length buf) cs),
            length-place_children (some place) (num_children cs) buf,
            length-copied (some place) (length buf) cs,
          ),
        )

    serialize_all-below :
        (levels : ℕ) (ns : Nodes R) (place : ℕ) (buf : List (Entry R))
        → ReturnsWith (Grows (below_all levels ns) buf) (serialize_all levels ns place buf)
    serialize_all-below levels none_left place buf = (buf, refl, omega arith)
    serialize_all-below levels (child n ns) place buf =
        and_go_on-ReturnsWith {P = Grows (below levels n) buf}
          {Q = Grows (below levels n + below_all levels ns) buf} _ _
          (serialize-below levels n place buf)
          (λ buf' g.
            let (r, e, g') = serialize_all-below levels ns (place + 1) buf' in
            (r, e, omega (arith, g, g')))

  pub serialize_root-below :
      (levels : ℕ) (n : Node R)
      → ReturnsWith (Grows (below (suc levels) n) []) (serialize (suc levels) n none [])
  unfolding serialize below place_children
  serialize_root-below levels (node c cs) =
      let (r, e, g) = serialize_all-below levels cs 0 (copied none 0 cs) in
      (r, e, omega (arith, g, length-copied none 0 cs))

  -- What the children of a node at the end of `levels` more levels add, and which are pushed.
  added : ℕ → Nodes R → ℕ
  added zero ns = 0
  added (suc r) none_left = 0
  added (suc r) (child n ns) = num_children (children n) + added (suc r) ns

  kept_of : ℕ → Nodes R → List (Node R)
  kept_of zero ns = []
  kept_of (suc r) none_left = []
  kept_of (suc r) (child n ns) =
      if has_children (children n) then n ∷ kept_of (suc r) ns else kept_of (suc r) ns

  -- What those that are pushed add later.
  inner : ℕ → Nodes R → ℕ
  inner zero ns = 0
  inner (suc r) none_left = 0
  inner (suc r) (child n ns) = below_all r (children n) + inner (suc r) ns

  below_all_nothing : (ns : Nodes R) → below_all zero ns ≡ 0
  unfolding below
  below_all_nothing none_left = refl
  below_all_nothing (child (node c cs) ns) = omega (arith, below_all_nothing ns)

  added-inner : (r : ℕ) (ns : Nodes R) → added r ns + inner r ns ≡ below_all r ns
  unfolding added inner below children
  added-inner zero ns = omega (arith, below_all_nothing ns)
  added-inner (suc r) none_left = omega arith
  added-inner (suc r) (child (node c cs) ns) = omega (arith, added-inner (suc r) ns)

  depth_of : (d : ℕ) (n : Node R) → HasDepth d n → (core n).depth ≡ d
  unfolding HasDepth core
  depth_of d (node c cs) h = h.0

  module _ (cutoff : ℕ) where
    abbrev count : Node R → ℕ → Bool × ℕ
    count = size_work cutoff

    work-deep : (e : ℕ) (n : Node R) (w : ℕ) → HasDepth e n → cutoff ≡ e → count n w ≡ (false, w)
    unfolding size_work
    work-deep e n w h last =
        let deep : leb ((core n).depth + 1) cutoff ≡ false = ground (arith, depth_of e n h, last) in
        rw deep refl

    work-above :
        (e r : ℕ) (n : Node R) (w : ℕ)
        → HasDepth e n
        → cutoff ≡ e + suc r
        → count n w ≡ (true, w + num_children (children n))
    unfolding size_work
    work-above e r n w h above =
        let high : leb ((core n).depth + 1) cutoff ≡ true = ground (arith, depth_of e n h, above) in
        rw high refl

    work_children-eq :
        (e r : ℕ) (ns : Nodes R) (w : ℕ)
        → AllHaveDepth e ns
        → cutoff ≡ e + r
        → work_children count ns w ≡ (kept_of r ns, w + added r ns)
    unfolding work_children kept_of added HasDepth
    work_children-eq e zero none_left w h end = ap (λ j. ([], j)) (omega arith)
    work_children-eq e (suc r) none_left w h end = ap (λ j. ([], j)) (omega arith)
    work_children-eq e zero (child n ns) w h end =
        rw (work-deep e n w h.0 (omega (arith, end)), work_children-eq e zero ns w h.1 end) refl
    work_children-eq e (suc r) (child n ns) w h end =
        rw
          (
            work-above e r n w h.0 end,
            work_children-eq e (suc r) ns (w + num_children (children n)) h.1 end,
          )
          (ap (λ j. (kept_of (suc r) (child n ns), j)) (omega arith))

    abbrev Resumes : ℕ → List (Node R) → (ℕ → Option ℕ) → Type 0
    Resumes fuel stack k = (f : ℕ) → fuel ≤ f → (w : ℕ) → top_down_loop count f stack w ≡ k w

    mutual
      unfolding top_down_loop size HasDepth kept_of inner children has_children below

      count_below :
          (n : Node R) (d r : ℕ)
          → HasDepth d n
          → cutoff ≡ d + suc r
          → (stack : List (Node R)) (k : ℕ → Option ℕ) (fuel : ℕ) → Resumes fuel stack k
          → (f w : ℕ) → size n + fuel ≤ f
          → top_down_loop count f (n ∷ stack) w ≡ k (w + below_all r (children n))
      count_below (node c cs) d r h end stack k fuel rest zero w enough = absurd (omega arith)
      count_below (node c cs) d r h end stack k fuel rest (suc f) w enough =
          ap (λ (q : List (Node R) × ℕ). top_down_loop count f (q.0 ++ stack) q.1)
            (work_children-eq (d + 1) r cs w h.1 (omega (arith, end)))
          ∙ count_below_all cs (d + 1) r h.1 (omega (arith, end)) stack k fuel rest f
              (w + added r cs) (omega arith)
          ∙ ap k (omega (arith, added-inner r cs))

      count_below_all :
          (ns : Nodes R) (e r : ℕ)
          → AllHaveDepth e ns
          → cutoff ≡ e + r
          → (stack : List (Node R)) (k : ℕ → Option ℕ) (fuel : ℕ) → Resumes fuel stack k
          → (f w : ℕ) → size_all ns + fuel ≤ f
          → top_down_loop count f (kept_of r ns ++ stack) w ≡ k (w + inner r ns)
      count_below_all none_left e zero h end stack k fuel rest f w enough =
          rest f (omega arith) w ∙ ap k (omega arith)
      count_below_all none_left e (suc r) h end stack k fuel rest f w enough =
          rest f (omega arith) w ∙ ap k (omega arith)
      count_below_all (child n ns) e zero h end stack k fuel rest f w enough =
          rest f (omega arith) w ∙ ap k (omega arith)
      count_below_all (child (node c none_left) ns) e (suc r) h end stack k fuel rest f w enough =
          count_below_all ns e (suc r) h.1 end stack k fuel rest f w (omega arith)
          ∙ ap k (omega arith)
      count_below_all (child (node c (child m ms)) ns) e (suc r) h end stack k fuel rest f w
            enough =
          count_below (node c (child m ms)) e r h.0 end (kept_of (suc r) ns ++ stack)
            (λ w'. k (w' + inner (suc r) ns)) (size_all ns + fuel)
            (λ f' more w'. count_below_all ns e (suc r) h.1 end stack k fuel rest f' w' more) f w
            (omega arith)
          ∙ ap k (omega arith)

  count_root :
      (d levels : ℕ) (n : Node R)
      → HasDepth d n
      → top_down_traversal_local (size_work ((core n).depth + suc levels)) (size n) n 0
        ≡ some (below (suc levels) n)
  unfolding top_down_traversal_local top_down_loop below core children
  count_root d levels (node c cs) h =
      let end : c.depth + suc levels ≡ d + suc levels = omega (arith, depth_of d (node c cs) h) in
      let first = work-above (c.depth + suc levels) d levels (node c cs) 0 h end in
      rw first (
        count_below (c.depth + suc levels) (node c cs) d levels h end [] some 0 (λ f more w. refl)
          (size (node c cs)) (0 + num_children cs) (omega arith)
        ∙ ap some (omega arith))

  -- The counted size is that of the buffer, so the reply is what serialize writes.
  pub serve_node-made :
      (d levels : ℕ) (n : Node R)
      → HasDepth d n
      → has_children (children n) ≡ true
      → (buf : List (Entry R)) → serialize (suc levels) n none [] ≡ some buf
      → Grows (below (suc levels) n) [] buf
      → serve_node (suc levels) n ≡ some buf
  unfolding serve_node and_go_on filled
  serve_node-made d levels n h some_children buf made g =
      let exact : (length buf == below (suc levels) n) ≡ true = ground (arith, g) in
      rw (some_children, count_root d levels n h, made, exact) refl

  -- For a node with children, in a tree whose nodes have their depths, and a cacheLineSize of at least
  -- 1, the reply is made, its assertions hold, and it has the nodes below the node down to
  -- cacheLineSize levels.
  pub serve_node-below :
      (d levels : ℕ) (n : Node R)
      → HasDepth d n
      → has_children (children n) ≡ true
      → ReturnsWith (λ buf. length buf ≡ below (suc levels) n) (serve_node (suc levels) n)
  serve_node-below d levels n h some_children =
      let (buf, made, g) = serialize_root-below levels n in
      (buf, serve_node-made d levels n h some_children buf made g, omega (arith, g))
