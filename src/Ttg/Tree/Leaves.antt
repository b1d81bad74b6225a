-- ===== src/Ttg/Tree/Leaves.antt =====
-- The leaves of the tree that build_recursive makes.
use amt_bh_benchmark.Base.{
  ℕ, zero, suc, ◌+◌, ◌%◌, ◌^◌, append-nil, ◌≤◌, ◌<◌, ◌≡◌, refl, sym, ap, ap₂, subst, ◌∙◌, Bool,
  true, false, leb, ◌==◌, if◌then◌else◌, List, [], ◌∷◌, ◌++◌, length, take, drop, change_at, copies,
  concat, select, select-append, All, All-append, length-append, length-change_at, arith,
  Bool-cases, ◌⊎◌, inl, inr,
}
use amt_bh_benchmark.Base.Real.{Real}
use amt_bh_benchmark.Ttg.Key.{Key, child_at}
use amt_bh_benchmark.Ttg.Tree.{
  Vec3, Domain, TreeNode, partition, Built, leaf_node, interior_node, octant_index, octant_of,
  build_children, build_recursive, make_tree,
}
use amt_bh_benchmark.Ttg.Tree.CountingSort.{
  push_all, total, total-copies, total-count_octants, length-take_le, length-drop_add,
  take-append-drop, partition-concat,
}

-- The ranges of the leaves follow each other from the first index to the second.
unfoldable pub Tiles : ℕ → List TreeNode → ℕ → Type 0
Tiles b [] e = b ≡ e
Tiles b (nd ∷ nds) e =
    if nd.leaf then (nd.particle_begin ≡ b) × Tiles (b + nd.particle_count) nds e else Tiles b nds e

-- A leaf is small, or at the last level.
abbrev pub IsSmall : ℕ → TreeNode → Type 0
IsSmall most nd = (nd.leaf ≡ false) ⊎ ((nd.particle_count ≤ most) ⊎ (nd.key.n ≡ 31))

-- How many particles pass a test.
unfoldable pub count_where : {P : Type 0} → (P → Bool) → List P → ℕ
count_where test xs = length (select test xs)

-- The result for a range of particles that starts at `begin`.
pub record IsBuilt {P : Type 0} (most begin : ℕ) (ps : List P) (b : Built P) : Type 0 where
  pub same_particles : (test : P → Bool) → count_where test b.particles ≡ count_where test ps
  pub tiled : Tiles begin b.nodes (begin + length ps)
  pub small : All (IsSmall most) b.nodes

Tiles-append :
    (b m e : ℕ) (xs ys : List TreeNode) → Tiles b xs m → Tiles m ys e → Tiles b (xs ++ ys) e
unfolding Tiles
Tiles-append b m e [] ys h k = subst (λ c. Tiles c ys e) (sym h) k
Tiles-append b m e (nd ∷ nds) ys h k = elim (Bool-cases nd.leaf) [
  | inl leaf ↦
      let h' : (nd.particle_begin ≡ b) × Tiles (b + nd.particle_count) nds m = rw leaf at h in
      rw leaf (h'.0, Tiles-append (b + nd.particle_count) m e nds ys h'.1 k)
  | inr interior ↦
      let h' : Tiles b nds m = rw interior at h in rw interior (Tiles-append b m e nds ys h' k)
]

module _ {P : Type 0} (test : P → Bool) where
  count_where-append :
      (xs ys : List P) → count_where test (xs ++ ys) ≡ count_where test xs + count_where test ys
  unfolding count_where
  count_where-append xs ys =
      ap length (select-append test xs ys) ∙ length-append (select test xs) (select test ys)

  count_where-push :
      (p : P) (fs : List (List P)) (o : ℕ)
      → o < length fs
      → count_where test (concat (change_at fs o (λ b. b ++ p ∷ [])))
        ≡ count_where test (concat fs) + count_where test (p ∷ [])
  count_where-push p [] o low = absurd (omega arith)
  count_where-push p (f ∷ fs) zero low = omega (
    arith,
    count_where-append (f ++ p ∷ []) (concat fs),
    count_where-append f (p ∷ []),
    count_where-append f (concat fs),
  )
  count_where-push p (f ∷ fs) (suc o) low = omega (
    arith,
    count_where-append f (concat (change_at fs o (λ b. b ++ p ∷ []))),
    count_where-push p fs o (omega arith),
    count_where-append f (concat fs),
  )

  count_where-none : count_where test [] ≡ 0
  unfolding count_where
  count_where-none = refl

  count_where-push_all :
      (octant : P → ℕ) (ps : List P) (fs : List (List P))
      → ((p : P) → octant p < length fs)
      → count_where test (concat (push_all octant ps fs))
        ≡ count_where test (concat fs) + count_where test ps
  unfolding push_all
  count_where-push_all octant [] fs low = omega (arith, count_where-none)
  count_where-push_all octant (p ∷ ps) fs low =
      let fs' = change_at fs (octant p) (λ b. b ++ p ∷ []) in
      let same : length fs' ≡ length fs = length-change_at fs (octant p) (λ b. b ++ p ∷ []) in
      omega (
        arith,
        count_where-push_all octant ps fs' (λ q. omega (arith, low q, same)),
        count_where-push p fs (octant p) (low p),
        count_where-append (p ∷ []) ps,
      )

count_where_all : {P : Type 0} (xs : List P) → count_where (λ x. true) xs ≡ length xs
unfolding count_where
count_where_all [] = refl
count_where_all (x ∷ xs) = ap suc (count_where_all xs)

-- An octant without particles.
IsBuilt-nothing :
    {P : Type 0} (most begin c : ℕ) (ps : List P) (b : Built P)
    → c ≡ 0
    → IsBuilt most (begin + c) (drop c ps) b
    → IsBuilt most begin ps b
IsBuilt-nothing most begin zero ps b e h =
    subst (λ j. IsBuilt most j ps b) {x = begin + 0} {y = begin} (omega arith) h
IsBuilt-nothing most begin (suc c) ps b e h = absurd (omega arith)

-- An octant, and those behind it.
IsBuilt-append :
    {P : Type 0} (most begin c : ℕ) (ps : List P) (first rest : Built P)
    → c ≤ length ps
    → IsBuilt most begin (take c ps) first
    → IsBuilt most (begin + c) (drop c ps) rest
    → IsBuilt most begin ps (record {
      particles = first.particles ++ rest.particles;
      nodes = first.nodes ++ rest.nodes;
    })
IsBuilt-append most begin c ps first rest fits f r = record {
  same_particles = λ test.
      count_where-append test first.particles rest.particles
      ∙ ap₂ (λ i j. i + j) (f.same_particles test) (r.same_particles test)
      ∙ sym (count_where-append test (take c ps) (drop c ps))
      ∙ ap (count_where test) (take-append-drop c ps);
  tiled =
      Tiles-append begin (begin + c) (begin + length ps) first.nodes rest.nodes
        (subst (Tiles begin first.nodes) {x = begin + length (take c ps)} {y = begin + c}
          (omega (arith, length-take_le c ps fits)) f.tiled)
        (subst (Tiles (begin + c) rest.nodes) {x = begin + c + length (drop c ps)}
          {y = begin + length ps} (omega (arith, length-drop_add c ps fits)) r.tiled);
  small = All-append (IsSmall most) first.nodes rest.nodes f.small r.small;
}

-- The interior node above its children.
IsBuilt-interior :
    {P : Type 0} (most begin : ℕ) (key : Key) (counts : List ℕ) (ps sorted : List P) (b : Built P)
    → ((test : P → Bool) → count_where test sorted ≡ count_where test ps)
    → length sorted ≡ length ps
    → IsBuilt most begin sorted b
    → IsBuilt most begin ps
        (record { particles = b.particles; nodes = b.nodes ++ interior_node key counts ∷ [] })
unfolding Tiles
IsBuilt-interior most begin key counts ps sorted b same len h = record {
  same_particles = λ test. h.same_particles test ∙ same test;
  tiled =
      Tiles-append begin (begin + length ps) (begin + length ps) b.nodes
        (interior_node key counts ∷ [])
        (subst (Tiles begin b.nodes) {x = begin + length sorted} {y = begin + length ps}
          (omega (arith, len)) h.tiled)
        refl;
  small = All-append (IsSmall most) b.nodes (interior_node key counts ∷ []) h.small (inl refl, tt);
}

octant_index-lt : {R : Type 0} (real : Real R) (a b : Vec3 R) → octant_index real a b < 8
unfolding octant_index
octant_index-lt real a b = ground arith

module _ {P R : Type 0} (real : Real R) (position : P → Vec3 R) (domain : Domain R) (most : ℕ) where
  partition-same :
      (key : Key) (ps scratch : List P)
      → length scratch ≡ length ps
      → (test : P → Bool)
      → count_where test (partition (octant_of real position domain key) ps scratch)
        ≡ count_where test ps
  unfolding octant_of count_where
  partition-same key ps scratch same test =
      ap (count_where test) (
        partition-concat (octant_of real position domain key) ps scratch
          (λ p. octant_index-lt real _ _) same)
      ∙ count_where-push_all test (octant_of real position domain key) ps (copies 8 [])
          (λ p. octant_index-lt real _ _)
      ∙ omega (arith, count_where-none test)

  partition-length :
      (key : Key) (ps scratch : List P)
      → length scratch ≡ length ps
      → length (partition (octant_of real position domain key) ps scratch) ≡ length ps
  partition-length key ps scratch same =
      sym (count_where_all (partition (octant_of real position domain key) ps scratch))
      ∙ partition-same key ps scratch same (λ x. true)
      ∙ count_where_all ps

  leaf-IsBuilt :
      (key : Key) (begin : ℕ) (ps : List P)
      → (length ps ≤ most) ⊎ (key.n ≡ 31)
      → IsBuilt most begin ps
          (record { particles = ps; nodes = leaf_node key begin (length ps) ∷ [] })
  unfolding Tiles
  leaf-IsBuilt key begin ps why = record {
    same_particles = λ test. refl;
    tiled = (refl, refl);
    small = (inr why, tt);
  }

  module _ (build : ℕ → Key → List P → List P → Built P) (n : ℕ)
      (builds : (begin : ℕ) (key : Key) (ps scratch : List P)
        → key.n ≡ n
        → length scratch ≡ length ps
        → IsBuilt most begin ps (build begin key ps scratch)) where
    build_children-IsBuilt :
        (key : Key) (cs : List ℕ) (oct begin : ℕ) (ps scratch : List P)
        → key.n + 1 ≡ n
        → total cs ≡ length ps
        → length scratch ≡ length ps
        → IsBuilt most begin ps
            (build_children real position domain most build key cs oct begin ps scratch)
    unfolding build_children total Tiles count_where child_at
    build_children-IsBuilt key [] oct begin [] scratch level sum same = record {
      same_particles = λ test. refl;
      tiled = omega arith;
      small = tt;
    }
    build_children-IsBuilt key [] oct begin (p ∷ ps) scratch level sum same = absurd (omega arith)
    build_children-IsBuilt key (c ∷ cs) oct begin ps scratch level sum same =
        let fits : c ≤ length ps = omega (arith, sum) in
        let fits' : c ≤ length scratch = omega (arith, sum, same) in
        let rest : IsBuilt most (begin + c) (drop c ps) (
            build_children real position domain most build key cs (oct + 1) (begin + c) (drop c ps)
              (drop c scratch)) =
          build_children-IsBuilt key cs (oct + 1) (begin + c) (drop c ps) (drop c scratch) level
            (omega (arith, sum, length-drop_add c ps fits))
            (omega (arith, same, length-drop_add c ps fits, length-drop_add c scratch fits')) in
        elim (Bool-cases (c == 0)) [
          | inl none_here ↦
              rw none_here (IsBuilt-nothing most begin c ps _ (ground (arith, none_here)) rest)
          | inr some_here ↦ rw some_here (
              IsBuilt-append most begin c ps
                (build begin (child_at key oct) (take c ps) (take c scratch)) _ fits
                (builds begin (child_at key oct) (take c ps) (take c scratch) level
                  (length-take_le c scratch fits' ∙ sym (length-take_le c ps fits)))
                rest)
        ]

  -- The build of a range of particles at a depth of 31 - levels keeps the particles, as often as each
  -- is there; the ranges of its leaves, in the order of nodes_, follow each other from the first
  -- particle of the range to its last; and a leaf has at most max_particles_per_leaf particles, or is
  -- at level 31.
  pub build_recursive-IsBuilt :
      (levels begin : ℕ) (key : Key) (ps scratch : List P)
      → key.n + levels ≡ 31
      → length scratch ≡ length ps
      → IsBuilt most begin ps
          (build_recursive real position domain most levels begin key ps scratch)
  unfolding build_recursive octant_of
  build_recursive-IsBuilt zero begin key ps scratch level same =
      leaf-IsBuilt key begin ps (inr (omega (arith, level)))
  build_recursive-IsBuilt (suc levels) begin key ps scratch level same =
      elim (Bool-cases (leb (length ps) most)) [
        | inl few ↦ rw few (leaf-IsBuilt key begin ps (inl (ground (arith, few))))
        | inr many ↦ rw many (
            IsBuilt-interior most begin key _ ps
              (partition (octant_of real position domain key) ps scratch) _
              (partition-same key ps scratch same) (partition-length key ps scratch same)
              (build_children-IsBuilt (build_recursive real position domain most levels) (key.n + 1)
                (λ begin' key' ps' scratch' level' same'.
                  build_recursive-IsBuilt levels begin' key' ps' scratch'
                    (omega (arith, level, level')) same')
                key _ 0 begin (partition (octant_of real position domain key) ps scratch)
                (partition (octant_of real position domain key) ps scratch) refl
                (total-count_octants (octant_of real position domain key) ps (copies 8 0)
                    (λ p. octant_index-lt real _ _)
                  ∙ omega (arith, partition-length key ps scratch same, total-copies 8))
                refl))
      ]

take_whole : {A : Type 0} (xs : List A) (n : ℕ) → length xs ≡ n → take n xs ≡ xs
take_whole [] zero h = refl
take_whole [] (suc n) h = refl
take_whole (x ∷ xs) zero h = absurd (omega arith)
take_whole (x ∷ xs) (suc n) h = ap (λ ys. x ∷ ys) (take_whole xs n (omega arith))

drop_whole : {A : Type 0} (xs : List A) (n : ℕ) → length xs ≡ n → drop n xs ≡ []
drop_whole [] zero h = refl
drop_whole [] (suc n) h = refl
drop_whole (x ∷ xs) zero h = absurd (omega arith)
drop_whole (x ∷ xs) (suc n) h = drop_whole xs n (omega arith)

-- The tree over N particles, N below 2^32, keeps these, each as often as it is there; the ranges of its
-- leaves, in the order of nodes_, follow each other from the first of the N particles to the last; and
-- a leaf has at most max_particles_per_leaf particles, or is at level 31. The arithmetic of
-- floating-point numbers is any, as is what scratch_ holds.
pub make_tree-IsBuilt :
    {P R : Type 0} (real : Real R) (highest lowest widen : R) (position : P → Vec3 R)
    (particles scratch : List P) (max_particles_per_leaf : ℕ)
    → length particles < 2 ^ 32
    → length scratch ≡ length particles
    → IsBuilt max_particles_per_leaf 0 particles
        (make_tree real highest lowest widen position particles scratch max_particles_per_leaf)
unfolding make_tree
make_tree-IsBuilt real highest lowest widen position particles scratch most few same =
    let end : length particles % 2 ^ 32 ≡ length particles = omega arith in
    rw
      (
        end,
        take_whole particles (length particles) refl,
        take_whole scratch (length particles) same,
        drop_whole particles (length particles) refl,
        append-nil {A = _},
      )
      (build_recursive-IsBuilt real position _ most 31 0 _ particles scratch (omega arith) same)
