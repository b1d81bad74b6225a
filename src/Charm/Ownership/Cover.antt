-- ===== src/Charm/Ownership/Cover.antt =====
-- The owners of a node are those of its children, and CkAbort is met only where two of them leave a gap
-- or overlap.
use amt_bh_benchmark.Base.{
  Bool, ℕ, ◌+◌, ◌≤◌, ◌<◌, ◌≡◌, true, false, ◌&&◌, Option, none, some, List, [], ◌∷◌, if◌then◌else◌,
  ◌⊎◌, ◌↔◌, All,
}
use amt_bh_benchmark.Base.Int.{ℤ, pos, negsuc}
use amt_bh_benchmark.Charm.Ownership.{Owned, Walk, remote, boundary, is_negative, is_external}

-- A range of owners is not empty, and a negative start stands for none.
unfoldable pub IsOwnerRange : ℤ → ℤ → Type 0
IsOwnerRange (negsuc m) e = Unit
IsOwnerRange (pos a) (pos b) = a ≤ b
IsOwnerRange (pos a) (negsuc m) = ⊥

pub Owns : ℤ → ℤ → ℕ → Type 0
Owns (negsuc m) e tp = ⊥
Owns (pos a) (pos b) tp = (a ≤ tp) × (tp ≤ b)
Owns (pos a) (negsuc m) tp = ⊥

pub SomeOwns : List Owned → ℕ → Type 0
SomeOwns [] tp = ⊥
SomeOwns (c ∷ cs) tp = Owns c.owner_start c.owner_end tp ⊎ SomeOwns cs tp

-- a neither shares the owner e nor comes right after it.
pub Apart : ℤ → ℤ → Type 0
Apart (pos e) (pos a) = (a < e) ⊎ (e + 1 < a)
Apart (pos e) (negsuc a) = ⊥
Apart (negsuc e) s = ⊥

-- Some owned child starts apart from the end of the owned one before it, or from prev_end.
pub HasGap : ℤ → List Owned → Type 0
HasGap prev_end [] = ⊥
HasGap prev_end (c ∷ cs) = elim (is_negative c.owner_start) [
  | true ↦ HasGap prev_end cs
  | false ↦ Apart prev_end c.owner_start ⊎ HasGap c.owner_end cs
]

-- The variables of the loop: both -1, or a range.
IsSpan : ℤ → ℤ → Type 0
IsSpan (negsuc m) (negsuc n) = Unit
IsSpan (negsuc m) (pos n) = ⊥
IsSpan (pos a) (pos b) = a ≤ b
IsSpan (pos a) (negsuc m) = ⊥

Joins : ℤ → ℤ → ℤ → ℤ → ℤ → Type 0
Joins f f2 l s e = IsSpan f2 e × ((tp : ℕ) → Owns f2 e tp ↔ (Owns f l tp ⊎ Owns s e tp))

-- Every child is Remote, a RemoteBucket or a RemoteEmptyBucket.
pub are_external : List Owned → Bool
are_external [] = true
are_external (c ∷ cs) = is_external c.node_type && are_external cs

Walked : List Owned → Walk → Option Walk → Type 0
Walked cs w o =
    ((r : Walk) × (o ≡ some r)
      × (r.all_external ≡ (w.all_external && are_external cs))
      × IsSpan r.first_start r.last_end
      × ((tp : ℕ)
          → Owns r.first_start r.last_end tp ↔ (Owns w.first_start w.last_end tp ⊎ SomeOwns cs tp)))
    ⊎ ((o ≡ none) × HasGap w.last_end cs)

OwnerRanges : List Owned → Type 0
OwnerRanges = All (λ c. IsOwnerRange c.owner_start c.owner_end)

-- The node owns what its children own, or the function aborts where they leave a gap or overlap.
pub Covers : List Owned → Option Owned → Type 0
Covers children o =
    ((r : Owned) × (o ≡ some r)
      × (r.node_type ≡ (if are_external children then remote else boundary))
      × ((tp : ℕ) → Owns r.owner_start r.owner_end tp ↔ SomeOwns children tp))
    ⊎ ((o ≡ none) × HasGap (negsuc 0) children)
