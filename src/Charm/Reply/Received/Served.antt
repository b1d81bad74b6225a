-- ===== src/Charm/Reply/Received/Served.antt =====
-- The subtree of a served node, and the reply as the PE that asked reads it.
use amt_bh_benchmark.Base.{
  ℕ, zero, suc, ◌+◌, ◌<◌, ◌≡◌, ◌≢◌, refl, ap, sym, subst, ◌∙◌, true, Option, none, some, List, [],
  ◌∷◌, length, get_elem?, All, arith,
}
use amt_bh_benchmark.Charm.Ownership.{NodeType}
use amt_bh_benchmark.Charm.Tree.{
  NodeCore, Node, Nodes, node, none_left, child, children, num_children,
}
use amt_bh_benchmark.Charm.GravityWalk.{and_go_on}
use amt_bh_benchmark.Charm.GravityWalk.Returns.{ReturnsWith}
use amt_bh_benchmark.Charm.Requests.Fetched.{
  make_remote, received_core, deserialize, deserialize_all,
}
use amt_bh_benchmark.Charm.Reply.{
  Entry, has_children, copied, place_children, serialize, serialize_all, serve_node,
}
use amt_bh_benchmark.Charm.Reply.Size.{
  HasDepth, length-copied, serialize_root-below, serve_node-made,
}
use amt_bh_benchmark.Charm.Reply.Layout.{
  AllTyped, AllTypedBelow, Holds, AllHold, AllHold-weaken, copied-AllCopied,
}
use amt_bh_benchmark.Charm.Reply.Layout.Writing.{EntryTyped, copied-All, serialize_all-WroteAll}
use amt_bh_benchmark.Charm.Reply.Received.{Loaded, loaded, load, read_run, read_node, received}

value_or : {A : Type 0} → A → Option A → A
value_or d none = d
value_or d (some x) = x

-- The type after makeRemote, where this does not abort.
remote_type : NodeType → NodeType
remote_type t = value_or t (make_remote t)

make_remote-typed : (t : NodeType) → t ≢ NodeType.invalid → make_remote t ≡ some (remote_type t)
unfolding make_remote remote_type value_or
make_remote-typed NodeType.invalid h = absurd (h refl)
make_remote-typed NodeType.internal h = refl
make_remote-typed NodeType.bucket h = refl
make_remote-typed NodeType.empty_bucket h = refl
make_remote-typed NodeType.boundary h = refl
make_remote-typed NodeType.remote h = refl
make_remote-typed NodeType.remote_bucket h = refl
make_remote-typed NodeType.remote_empty_bucket h = refl

module _ {R : Type 0} where
  -- The subtree down to so many levels below the node.
  unfoldable mutual
    pub cut : ℕ → Node R → Node R
    cut zero (node c cs) = node c none_left
    cut (suc levels) (node c cs) = node c (cut_all levels cs)

    pub cut_all : ℕ → Nodes R → Nodes R
    cut_all levels none_left = none_left
    cut_all levels (child n ns) = child (cut levels n) (cut_all levels ns)

  remote_core : NodeCore R → NodeCore R
  remote_core c = received_core c (remote_type c.node_type)

  mutual
    remote : Node R → Node R
    remote (node c cs) = node (remote_core c) (remote_all cs)

    remote_all : Nodes R → Nodes R
    remote_all none_left = none_left
    remote_all (child n ns) = child (remote n) (remote_all ns)

  mutual
    unfolding cut AllTyped

    cut-AllTyped : (levels : ℕ) (n : Node R) → AllTyped n → AllTyped (cut levels n)
    cut-AllTyped zero (node c cs) h = (h.0, tt)
    cut-AllTyped (suc levels) (node c cs) h = (h.0, cut_all-AllTyped levels cs h.1)

    cut_all-AllTyped :
        (levels : ℕ) (ns : Nodes R) → AllTypedBelow ns → AllTypedBelow (cut_all levels ns)
    cut_all-AllTyped levels none_left h = tt
    cut_all-AllTyped levels (child n ns) h =
        (cut-AllTyped levels n h.0, cut_all-AllTyped levels ns h.1)

  mutual
    unfolding deserialize remote AllTyped and_go_on remote_core

    deserialize-remote : (n : Node R) → AllTyped n → deserialize n ≡ some (remote n)
    deserialize-remote (node c cs) h =
        rw (make_remote-typed c.node_type h.0, deserialize_all-remote_all cs h.1) refl

    deserialize_all-remote_all :
        (ns : Nodes R) → AllTypedBelow ns → deserialize_all ns ≡ some (remote_all ns)
    deserialize_all-remote_all none_left h = refl
    deserialize_all-remote_all (child n ns) h =
        rw (deserialize-remote n h.0, deserialize_all-remote_all ns h.1) refl

  module _ (branch_factor : ℕ) where
    load_one : ℕ → Entry R → Loaded R
    load_one i e = loaded branch_factor i e (remote_type e.core.node_type)

    load_all : ℕ → List (Entry R) → List (Loaded R)
    load_all i [] = []
    load_all i (e ∷ es) = load_one i e ∷ load_all (i + 1) es

    load-load_all :
        (i : ℕ) (es : List (Entry R))
        → All EntryTyped es
        → load branch_factor i es ≡ some (load_all i es)
    unfolding load load_all load_one and_go_on
    load-load_all i [] h = refl
    load-load_all i (e ∷ es) h =
        rw (make_remote-typed e.core.node_type h.0, load-load_all (i + 1) es h.1) refl

    load_all-at :
        (j : ℕ) (es : List (Entry R)) (i : ℕ) (e : Entry R)
        → get_elem? es i ≡ some e
        → get_elem? (load_all j es) i ≡ some (load_one (j + i) e)
    unfolding load_all
    load_all-at j [] i e h = absurd (cc)
    load_all-at j (d ∷ es) zero e h =
        let same : d ≡ e = cc in
        ap (λ q. some (load_one j q)) same ∙ ap (λ k. some (load_one k e)) (omega arith)
    load_all-at j (d ∷ es) (suc i) e h =
        load_all-at (j + 1) es i e h ∙ ap (λ k. some (load_one k e)) (omega arith)

    read_run-child :
        (read : ℕ → Option (Node R)) (k i : ℕ) (n : Node R) (ns : Nodes R)
        → read i ≡ some n
        → read_run read k (i + 1) ≡ some ns
        → read_run read (k + 1) i ≡ some (child n ns)
    unfolding read_run and_go_on
    read_run-child read k i n ns first rest =
        ap (λ j. read_run read j i) {x = k + 1} {y = suc k} (omega arith) ∙ rw (first, rest) refl

    -- A node whose entry is known, and whose children are read.
    read_node-entry :
        (fuel : ℕ) (buf : List (Entry R)) (place : ℕ) (e : Entry R) (c : NodeCore R) (k : ℕ)
        (cs : Nodes R)
        → get_elem? buf place ≡ some e
        → e.core ≡ c
        → e.num_children ≡ k
        → read_run (read_node fuel (load_all 0 buf)) k (place + e.child_offset) ≡ some cs
        → read_node (suc fuel) (load_all 0 buf) place ≡ some (node (remote_core c) cs)
    unfolding read_node and_go_on loaded load_one remote_core
    read_node-entry fuel buf place e c k cs at same count below =
        let message : List (Loaded R) = load_all 0 buf in
        let run : ℕ → ℕ → Option (Nodes R) = read_run (read_node fuel message) in
        let with_children : Nodes R → Option (Node R) = λ ms. some (node (remote_core e.core) ms) in
        ap
          (λ o. and_go_on o (λ (l : Loaded R).
            and_go_on (run l.num_children l.children) (λ ms. some (Node.node l.core ms))))
          (load_all-at 0 buf place e at)
        ∙ ap (λ i. and_go_on (run e.num_children i) with_children) {x = 0 + place + e.child_offset}
            {y = place + e.child_offset} (omega arith)
        ∙ ap (λ j. and_go_on (run j (place + e.child_offset)) with_children) count
        ∙ ap (λ o. and_go_on o with_children) below
        ∙ ap (λ q. some (Node.node (remote_core q) cs)) same

    mutual
      unfolding Holds cut remote read_run num_children

      read_node-Holds :
          (fuel : ℕ) (buf : List (Entry R)) (m levels place : ℕ) (n : Node R)
          → levels < fuel
          → Holds buf m levels place n
          → read_node fuel (load_all 0 buf) place ≡ some (remote (cut levels n))
      read_node-Holds zero buf m levels place (node c cs) enough h = absurd (omega arith)
      read_node-Holds (suc fuel) buf m zero place (node c cs) enough (e, at, same, count) =
          read_node-entry fuel buf place e c 0 none_left at same count refl
      read_node-Holds (suc fuel) buf m (suc levels) place (node c cs) enough
            (e, at, same, count, far, rest) =
          read_node-entry fuel buf place e c (num_children cs) (remote_all (cut_all levels cs)) at
            same count
            (read_run-AllHold fuel buf m levels (place + e.child_offset) cs (omega arith) rest)

      read_run-AllHold :
          (fuel : ℕ) (buf : List (Entry R)) (m levels place : ℕ) (ns : Nodes R)
          → levels < fuel
          → AllHold buf m levels place ns
          → read_run (read_node fuel (load_all 0 buf)) (num_children ns) place
            ≡ some (remote_all (cut_all levels ns))
      read_run-AllHold fuel buf m levels place none_left enough h = refl
      read_run-AllHold fuel buf m levels place (child n ns) enough h =
          read_run-child (read_node fuel (load_all 0 buf)) (num_children ns) place
            (remote (cut levels n)) (remote_all (cut_all levels ns))
            (read_node-Holds fuel buf m levels place n enough h.0)
            (read_run-AllHold fuel buf m levels (place + 1) ns enough h.1)

  -- What serialize writes for the children of the node that is served.
  serialize-WroteAll :
      (levels : ℕ) (n : Node R) (buf : List (Entry R))
      → AllTyped n
      → serialize (suc levels) n none [] ≡ some buf
      → AllHold buf 0 levels 0 (children n) × All EntryTyped buf
  unfolding serialize AllTyped children place_children
  serialize-WroteAll levels (node c cs) buf typed made =
      let (r, eq, (longer, stays, held, keeps)) =
        serialize_all-WroteAll levels cs 0 (copied none 0 cs) typed.1
          (copied-AllCopied [] none 0 cs) (omega (arith, length-copied none 0 cs)) in
      let made' : serialize_all levels cs 0 (copied none 0 cs) ≡ some buf = made in
      let same : r ≡ buf = cc in
      (
        subst (λ q. AllHold q 0 levels 0 cs) same
            (AllHold-weaken r 0 (length (copied none 0 cs)) levels 0 cs (omega arith) held),
        subst (λ q. All EntryTyped q) same (keeps (copied-All none 0 cs typed.1)),
      )

  children-AllTypedBelow : (n : Node R) → AllTyped n → AllTypedBelow (children n)
  unfolding AllTyped children
  children-AllTypedBelow (node c cs) h = h.1

  -- Of a node with BRANCH_FACTOR children, in a tree whose nodes have their depths and no node of which
  -- is Invalid, the reply is made, with a cacheLineSize of at least 1; and the PE that reads it finds
  -- the children of the node, down to cacheLineSize levels, as deserialize makes them.
  pub received-serve_node :
      (branch_factor d levels : ℕ) (n : Node R)
      → HasDepth d n
      → has_children (children n) ≡ true
      → num_children (children n) ≡ branch_factor
      → AllTyped n
      → ReturnsWith
          (λ cs. deserialize_all (cut_all levels (children n)) ≡ some cs)
          (and_go_on (serve_node (suc levels) n) (received branch_factor (suc levels)))
  unfolding received and_go_on
  received-serve_node branch_factor d levels n h some_children full typed =
      let (buf, made, g) = serialize_root-below levels n in
      let (held, typed_all) = serialize-WroteAll levels n buf typed made in
      let message = load_all branch_factor 0 buf in
      (
        remote_all (cut_all levels (children n)),
        ap (λ o. and_go_on o (received branch_factor (suc levels)))
              (serve_node-made d levels n h some_children buf made g)
            ∙ ap
                (λ o.
                  and_go_on o (λ nodes. read_run (read_node (suc levels) nodes) branch_factor 0))
                (load-load_all branch_factor 0 buf typed_all)
            ∙ ap (λ k. read_run (read_node (suc levels) message) k 0) (sym full)
            ∙ read_run-AllHold branch_factor (suc levels) buf 0 levels 0 (children n) (omega arith)
                held,
        deserialize_all-remote_all _
            (cut_all-AllTyped levels (children n) (children-AllTypedBelow n typed)),
      )
