-- ===== src/Charm/Reply/Layout/Writing.antt =====
-- What `serialize` of charm/Node.h writes for a node of the message, and what it leaves alone.
use amt_bh_benchmark.Base.{
  ℕ, zero, suc, ◌+◌, ◌-◌, ◌≤◌, ◌<◌, ◌≡◌, ◌≢◌, refl, subst, ◌∙◌, Option, some, List, [], ◌∷◌, ◌++◌,
  length, get_elem?, change_at, All, All-append, length-append, get_elem?-append,
  get_elem?-change_at_self, get_elem?-change_at_other, arith, ◌⊎◌, inl, inr,
}
use amt_bh_benchmark.Charm.Tree.{NodeCore, Node, Nodes, node, none_left, child, core, num_children}
use amt_bh_benchmark.Charm.GravityWalk.Returns.{ReturnsWith, and_go_on-ReturnsWith}
use amt_bh_benchmark.Charm.Reply.{
  Entry, set_children, place_children, copied, serialize, serialize_all,
}
use amt_bh_benchmark.Charm.Reply.Size.{length-place_children, length-copied}
use amt_bh_benchmark.Charm.Reply.Layout.{
  IsTyped, AllTyped, AllTypedBelow, Holds, AllHold, AllHold-weaken, Stays, Holds-Stays, AllCopied,
  AllCopied-Stays, copied-AllCopied,
}

get_elem?-lt : {A : Type 0} (xs : List A) (i : ℕ) (x : A) → get_elem? xs i ≡ some x → i < length xs
get_elem?-lt [] i x h = absurd (cc)
get_elem?-lt (y ∷ xs) zero x h = omega arith
get_elem?-lt (y ∷ xs) (suc i) x h = omega (arith, get_elem?-lt xs i x h)

change_at-All :
    {A : Type 0} (P : A → Type 0) (xs : List A) (i : ℕ) (f : A → A)
    → ((x : A) → P x → P (f x))
    → All P xs
    → All P (change_at xs i f)
change_at-All P [] i f keeps h = h
change_at-All P (x ∷ xs) zero f keeps h = (keeps x h.0, h.1)
change_at-All P (x ∷ xs) (suc i) f keeps h = (h.0, change_at-All P xs i f keeps h.1)

module _ {R : Type 0} where
  abbrev pub EntryTyped : Entry R → Type 0
  EntryTyped e = IsTyped e.core

  abbrev pub Wrote : ℕ → Node R → ℕ → List (Entry R) → List (Entry R) → Type 0
  Wrote levels n place buf buf' =
      (length buf ≤ length buf')
      × ((i : ℕ) → i ≢ place → Stays buf buf' i)
      × Holds buf' (length buf) levels place n
      × (All EntryTyped buf → All EntryTyped buf')

  abbrev pub WroteAll : ℕ → Nodes R → ℕ → List (Entry R) → List (Entry R) → Type 0
  WroteAll levels ns place buf buf' =
      (length buf ≤ length buf')
      × ((i : ℕ) → (i < place) ⊎ (place + num_children ns ≤ i) → Stays buf buf' i)
      × AllHold buf' (length buf) levels place ns
      × (All EntryTyped buf → All EntryTyped buf')

  core-IsTyped : (n : Node R) → AllTyped n → IsTyped (core n)
  unfolding AllTyped core
  core-IsTyped (node c cs) h = h.0

  pub copied-All :
      (place : Option ℕ) (here : ℕ) (ns : Nodes R)
      → AllTypedBelow ns
      → All EntryTyped (copied place here ns)
  unfolding copied AllTyped
  copied-All place here none_left h = tt
  copied-All place here (child n ns) h = (core-IsTyped n h.0, copied-All place (here + 1) ns h.1)

  place_children-All :
      (place k : ℕ) (buf : List (Entry R))
      → All EntryTyped buf
      → All EntryTyped (place_children (some place) k buf)
  unfolding place_children set_children
  place_children-All place k buf h = change_at-All EntryTyped buf place _ (λ e t. t) h

  place_children-Stays :
      (place k : ℕ) (buf : List (Entry R)) (i : ℕ)
      → i ≢ place
      → Stays buf (place_children (some place) k buf) i
  unfolding place_children
  place_children-Stays place k buf i apart e at = get_elem?-change_at_other buf place i _ apart ∙ at

  place_children-at :
      (place k : ℕ) (buf : List (Entry R)) (e : Entry R)
      → get_elem? buf place ≡ some e
      → get_elem? (place_children (some place) k buf) place
        ≡ some (set_children (length buf - place) k e)
  unfolding place_children
  place_children-at place k buf e at = get_elem?-change_at_self buf place _ e at

  -- What the children are written to: their parent's entry is set, and they are copied to the end.
  abbrev opened : ℕ → Nodes R → List (Entry R) → List (Entry R)
  opened place cs buf =
      place_children (some place) (num_children cs) buf ++ copied (some place) (length buf) cs

  length-opened :
      (place : ℕ) (cs : Nodes R) (buf : List (Entry R))
      → length (opened place cs buf) ≡ length buf + num_children cs
  length-opened place cs buf = omega (
    arith,
    length-append (place_children (some place) (num_children cs) buf)
        (copied (some place) (length buf) cs),
    length-place_children (some place) (num_children cs) buf,
    length-copied (some place) (length buf) cs,
  )

  opened-AllCopied :
      (place : ℕ) (cs : Nodes R) (buf : List (Entry R))
      → AllCopied (opened place cs buf) (length buf) cs
  opened-AllCopied place cs buf =
      subst (λ j. AllCopied (opened place cs buf) j cs)
        {x = length (place_children (some place) (num_children cs) buf)} {y = length buf}
        (length-place_children (some place) (num_children cs) buf)
        (copied-AllCopied (place_children (some place) (num_children cs) buf) (some place)
          (length buf) cs)

  opened-Stays :
      (place : ℕ) (cs : Nodes R) (buf : List (Entry R)) (i : ℕ)
      → i ≢ place
      → Stays buf (opened place cs buf) i
  opened-Stays place cs buf i apart e at =
      get_elem?-append (place_children (some place) (num_children cs) buf)
        (copied (some place) (length buf) cs) i e
        (place_children-Stays place (num_children cs) buf i apart e at)

  -- The node's own entry, once its children are written from the end of the buffer on.
  Wrote-opened :
      (levels place : ℕ) (c : NodeCore R) (cs : Nodes R) (buf buf' : List (Entry R)) (e : Entry R)
      → AllTypedBelow cs
      → get_elem? buf place ≡ some e
      → e.core ≡ c
      → WroteAll levels cs (length buf) (opened place cs buf) buf'
      → Wrote (suc levels) (node c cs) place buf buf'
  unfolding Holds set_children
  Wrote-opened levels place c cs buf buf' e below at same (longer, stays, held, typed) =
      let inside = get_elem?-lt buf place e at in
      let children_at : length buf ≡ place + (length buf - place) = omega arith in
      let grown = length-opened place cs buf in
      (
        omega (arith, grown),
        (λ i apart e' at'.
            stays i (inl (get_elem?-lt buf i e' at')) e'
              (opened-Stays place cs buf i apart e' at')),
        (
          set_children (length buf - place) (num_children cs) e,
          stays place (inl inside) _ (
              get_elem?-append (place_children (some place) (num_children cs) buf)
                (copied (some place) (length buf) cs) place _
                (place_children-at place (num_children cs) buf e at)),
          same,
          refl,
          omega arith,
          subst (λ j. AllHold buf' (length buf) levels j cs) {x = length buf}
              {y = place + (length buf - place)} children_at
              (AllHold-weaken buf' (length buf) (length (opened place cs buf)) levels (length buf)
                cs (omega (arith, grown)) held),
        ),
        (λ h. typed (
            All-append EntryTyped (place_children (some place) (num_children cs) buf)
              (copied (some place) (length buf) cs)
              (place_children-All place (num_children cs) buf h)
              (copied-All (some place) (length buf) cs below))),
      )

  Wrote-closed :
      (place : ℕ) (c : NodeCore R) (cs : Nodes R) (buf : List (Entry R)) (e : Entry R)
      → get_elem? buf place ≡ some e
      → e.core ≡ c
      → Wrote zero (node c cs) place buf (place_children (some place) 0 buf)
  unfolding Holds set_children
  Wrote-closed place c cs buf e at same = (
    omega (arith, length-place_children (some place) 0 buf),
    place_children-Stays place 0 buf,
    (set_children (length buf - place) 0 e, place_children-at place 0 buf e at, same, refl),
    place_children-All place 0 buf,
  )

  -- A node and then those beside it.
  WroteAll-child :
      (levels place : ℕ) (n : Node R) (ns : Nodes R) (buf mid buf' : List (Entry R))
      → place + num_children (child n ns) ≤ length buf
      → Wrote levels n place buf mid
      → WroteAll levels ns (place + 1) mid buf'
      → WroteAll levels (child n ns) place buf buf'
  unfolding Holds num_children
  WroteAll-child levels place n ns buf mid buf' fits (longer, stays, held, typed)
        (longer', stays', held', typed') =
      (
        omega (arith, longer, longer'),
        (λ i apart e at.
            stays' i (elim apart [ inl l ↦ inl (omega arith) | inr r ↦ inr (omega arith) ]) e
              (stays i (λ same. elim apart [ inl l ↦ omega arith | inr r ↦ omega arith ]) e at)),
        (
          Holds-Stays mid buf' (length buf) (λ i le. stays' i (inr (omega arith))) levels place n
              (stays' place (inl (omega arith))) held,
          AllHold-weaken buf' (length buf) (length mid) levels (place + 1) ns longer held',
        ),
        (λ h. typed' (typed h)),
      )

  mutual
    unfolding serialize AllTyped AllCopied core num_children Holds

    pub serialize-Wrote :
        (levels : ℕ) (n : Node R) (place : ℕ) (buf : List (Entry R)) (e : Entry R)
        → AllTyped n
        → get_elem? buf place ≡ some e
        → e.core ≡ core n
        → ReturnsWith (Wrote levels n place buf) (serialize levels n (some place) buf)
    serialize-Wrote zero (node c cs) place buf e typed at same =
        (_, refl, Wrote-closed place c cs buf e at same)
    serialize-Wrote (suc levels) (node c cs) place buf e typed at same =
        let (r, eq, wrote) =
          serialize_all-WroteAll levels cs (length buf) (opened place cs buf) typed.1
            (opened-AllCopied place cs buf) (omega (arith, length-opened place cs buf)) in
        (r, eq, Wrote-opened levels place c cs buf r e typed.1 at same wrote)

    pub serialize_all-WroteAll :
        (levels : ℕ) (ns : Nodes R) (place : ℕ) (buf : List (Entry R))
        → AllTypedBelow ns
        → AllCopied buf place ns
        → place + num_children ns ≤ length buf
        → ReturnsWith (WroteAll levels ns place buf) (serialize_all levels ns place buf)
    serialize_all-WroteAll levels none_left place buf typed there fits =
        (buf, refl, (omega arith, (λ i apart e at. at), tt, λ h. h))
    serialize_all-WroteAll levels (child n ns) place buf typed there fits =
        let ((e, at, same), rest) = there in
        and_go_on-ReturnsWith {P = Wrote levels n place buf}
          {Q = WroteAll levels (child n ns) place buf} _ _
          (serialize-Wrote levels n place buf e typed.0 at same)
          (λ mid wrote.
            let (r, eq, wrote') =
              serialize_all-WroteAll levels ns (place + 1) mid typed.1
                (AllCopied-Stays buf mid (place + 1) ns (λ i le. wrote.1 i (λ same'. omega arith))
                  rest)
                (omega (arith, wrote.0)) in
            (r, eq, WroteAll-child levels place n ns buf mid r fits wrote wrote'))
