-- ===== src/Charm/Reply/Layout.antt =====
-- Where `serialize` of charm/Node.h puts the nodes below a node in the message.
pub mod Writing
use amt_bh_benchmark.Base.{
  ℕ, zero, suc, ◌+◌, ◌-◌, ◌≤◌, ◌<◌, ◌≡◌, ◌≢◌, refl, ap, sym, subst, ◌∙◌, Option, none, some, List,
  [], ◌∷◌, ◌++◌, append_assoc, length, get_elem?, change_at, All, All-append, length-append,
  length-change_at, get_elem?-append, get_elem?-length, get_elem?-change_at_self,
  get_elem?-change_at_other, arith, ◌⊎◌, inl, inr,
}
use amt_bh_benchmark.Charm.Ownership.{NodeType}
use amt_bh_benchmark.Charm.Tree.{NodeCore, Node, Nodes, node, none_left, child, core, num_children}
use amt_bh_benchmark.Charm.GravityWalk.{and_go_on}
use amt_bh_benchmark.Charm.GravityWalk.Returns.{ReturnsWith, and_go_on-ReturnsWith}
use amt_bh_benchmark.Charm.Reply.{
  Entry, parent_of, set_children, place_children, copied, serialize, serialize_all,
}
use amt_bh_benchmark.Charm.Reply.Size.{length-place_children, length-copied}

-- A node that makeRemote accepts.
abbrev pub IsTyped : {R : Type 0} → NodeCore R → Type 0
IsTyped c = c.node_type ≢ NodeType.invalid

module _ {R : Type 0} where
  unfoldable mutual
    pub AllTyped : Node R → Type 0
    AllTyped (node c cs) = IsTyped c × AllTypedBelow cs

    pub AllTypedBelow : Nodes R → Type 0
    AllTypedBelow none_left = Unit
    AllTypedBelow (child n ns) = AllTyped n × AllTypedBelow ns

  -- The message holds a node at a place, with so many levels below it, these at the entry m or later.
  unfoldable mutual
    pub Holds : List (Entry R) → ℕ → ℕ → ℕ → Node R → Type 0
    Holds buf m zero place (node c cs) =
        (e : Entry R) × (get_elem? buf place ≡ some e) × (e.core ≡ c) × (e.num_children ≡ 0)
    Holds buf m (suc levels) place (node c cs) =
        (e : Entry R) × (get_elem? buf place ≡ some e)
        × (e.core ≡ c)
        × (e.num_children ≡ num_children cs)
        × (m ≤ place + e.child_offset)
        × AllHold buf m levels (place + e.child_offset) cs

    pub AllHold : List (Entry R) → ℕ → ℕ → ℕ → Nodes R → Type 0
    AllHold buf m levels place none_left = Unit
    AllHold buf m levels place (child n ns) =
        Holds buf m levels place n × AllHold buf m levels (place + 1) ns

  mutual
    unfolding Holds

    Holds-weaken :
        (buf : List (Entry R)) (m m' levels place : ℕ) (n : Node R)
        → m ≤ m'
        → Holds buf m' levels place n
        → Holds buf m levels place n
    Holds-weaken buf m m' zero place (node c cs) le h = h
    Holds-weaken buf m m' (suc levels) place (node c cs) le (e, at, same, count, far, rest) =
        (e, at, same, count, omega arith, AllHold-weaken buf m m' levels _ cs le rest)

    pub AllHold-weaken :
        (buf : List (Entry R)) (m m' levels place : ℕ) (ns : Nodes R)
        → m ≤ m'
        → AllHold buf m' levels place ns
        → AllHold buf m levels place ns
    AllHold-weaken buf m m' levels place none_left le h = h
    AllHold-weaken buf m m' levels place (child n ns) le h = (
      Holds-weaken buf m m' levels place n le h.0,
      AllHold-weaken buf m m' levels (place + 1) ns le h.1,
    )

  -- What stands at an entry in one buffer stands there in another.
  abbrev pub Stays : List (Entry R) → List (Entry R) → ℕ → Type 0
  Stays buf buf' i = (e : Entry R) → get_elem? buf i ≡ some e → get_elem? buf' i ≡ some e

  module _ (buf buf' : List (Entry R)) (m : ℕ) (later : (i : ℕ) → m ≤ i → Stays buf buf' i) where
    mutual
      unfolding Holds

      pub Holds-Stays :
          (levels place : ℕ) (n : Node R)
          → Stays buf buf' place
          → Holds buf m levels place n
          → Holds buf' m levels place n
      Holds-Stays zero place (node c cs) here (e, at, same, count) = (e, here e at, same, count)
      Holds-Stays (suc levels) place (node c cs) here (e, at, same, count, far, rest) =
          (e, here e at, same, count, far, AllHold-Stays levels _ cs far rest)

      AllHold-Stays :
          (levels place : ℕ) (ns : Nodes R)
          → m ≤ place
          → AllHold buf m levels place ns
          → AllHold buf' m levels place ns
      AllHold-Stays levels place none_left far h = h
      AllHold-Stays levels place (child n ns) far h = (
        Holds-Stays levels place n (later place far) h.0,
        AllHold-Stays levels (place + 1) ns (omega arith) h.1,
      )

  -- The nodes stand side by side from a place on, their children not yet.
  unfoldable pub AllCopied : List (Entry R) → ℕ → Nodes R → Type 0
  AllCopied buf place none_left = Unit
  AllCopied buf place (child n ns) =
      ((e : Entry R) × (get_elem? buf place ≡ some e) × (e.core ≡ core n))
      × AllCopied buf (place + 1) ns

  pub AllCopied-Stays :
      (buf buf' : List (Entry R)) (place : ℕ) (ns : Nodes R)
      → ((i : ℕ) → place ≤ i → Stays buf buf' i)
      → AllCopied buf place ns
      → AllCopied buf' place ns
  unfolding AllCopied
  AllCopied-Stays buf buf' place none_left stays h = h
  AllCopied-Stays buf buf' place (child n ns) stays ((e, at, same), rest) = (
    (e, stays place (omega arith) e at, same),
    AllCopied-Stays buf buf' (place + 1) ns (λ i le. stays i (omega arith)) rest,
  )

  pub copied-AllCopied :
      (buf : List (Entry R)) (parent : Option ℕ) (here : ℕ) (ns : Nodes R)
      → AllCopied (buf ++ copied parent here ns) (length buf) ns
  unfolding copied AllCopied
  copied-AllCopied buf parent here none_left = tt
  copied-AllCopied buf parent here (child n ns) =
      let e : Entry R = record {
        core = core n;
        child_offset = 0;
        num_children = _;
        parent_distance = parent_of parent here;
      } in
      (
        (_, get_elem?-length buf (copied parent (here + 1) ns) _, refl),
        subst (λ j. AllCopied (buf ++ copied parent here (child n ns)) j ns)
            {x = length (buf ++ e ∷ [])} {y = length buf + 1}
            (omega (arith, length-append buf (e ∷ [])))
            (subst (λ xs. AllCopied xs (length (buf ++ e ∷ [])) ns)
              (append_assoc buf (e ∷ []) (copied parent (here + 1) ns))
              (copied-AllCopied (buf ++ e ∷ []) parent (here + 1) ns)),
      )
