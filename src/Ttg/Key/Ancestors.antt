-- ===== src/Ttg/Key/Ancestors.antt =====
-- Parents of any generation, and `is_ancestor_of`.
use native.Mathlib.Nat.{div-div-eq-div-mul}
use amt_bh_benchmark.Base.{
  ℕ, ◌+◌, ◌-◌, ◌/◌, ◌^◌, ◌<◌, ◌≤◌, ◌≡◌, refl, sym, ap, ◌∙◌, subst, true, false, ltb, leb,
  if◌then◌else◌, arith, Bool-cases, inl, inr, ◌↔◌,
}
use amt_bh_benchmark.Base.Bits.{two_pow_add}
use amt_bh_benchmark.Base.Int.{ℤ, pos, negsuc, shr_ℤ, eqb_ℤ}
use amt_bh_benchmark.Ttg.Key.{Key, each, parent, is_ancestor_of}
use amt_bh_benchmark.Ttg.Key.Children.{Key-ext}

twice_div : (a b n : ℕ) → n / 2 ^ a / 2 ^ b ≡ n / 2 ^ (a + b)
twice_div a b n =
    div-div-eq-div-mul n (2 ^ a) (2 ^ b) ∙ ap (λ (t : ℕ). n / t) (sym (two_pow_add a b))

shr_shr : (t : ℤ) (a b : ℕ) → shr_ℤ (shr_ℤ t a) b ≡ shr_ℤ t (a + b)
shr_shr (pos n) a b = ap pos (twice_div a b n)
shr_shr (negsuc n) a b = ap negsuc (twice_div a b n)

-- A generation that exists is not clamped.
parent_at :
    (key : Key) (g : ℕ)
    → g ≤ key.n
    → parent key g ≡ record { n = key.n - g; l = each (λ d t. shr_ℤ t g) key.l }
unfolding parent
parent_at key g h = let same : (if ltb key.n g then key.n else g) ≡ g = ground arith in rw same refl

-- The parent of a parent is the parent of the sum of the generations, also beyond the root.
pub parent-parent : (key : Key) (g h : ℕ) → parent (parent key g) h ≡ parent key (g + h)
unfolding parent
parent-parent key g h =
    let first = if ltb key.n g then key.n else g in
    let second = if ltb (key.n - first) h then key.n - first else h in
    let both : first + second ≡ (if ltb key.n (g + h) then key.n else g + h) = ground arith in
    let shifted = λ (t : ℤ). shr_shr t first second ∙ ap (shr_ℤ t) both in
    Key-ext _ _ (omega (arith, both)) (shifted key.l.x) (shifted key.l.y) (shifted key.l.z)

eqb_path : (a b : ℤ) → eqb_ℤ a b ≡ true → a ≡ b
eqb_path (pos m) (pos n) e = ap pos (ground arith)
eqb_path (pos m) (negsuc n) e = absurd (ground arith)
eqb_path (negsuc m) (pos n) e = absurd (ground arith)
eqb_path (negsuc m) (negsuc n) e = ap negsuc (ground arith)

eqb_refl : (a : ℤ) → eqb_ℤ a a ≡ true
eqb_refl a = ground arith

-- `a` is a parent of b of some generation, other than b itself.
pub IsProperParent : Key → Key → Type 0
IsProperParent a b = (g : ℕ) × (0 < g) × (g ≤ b.n) × (parent b g ≡ a)

ancestor-parent : (a b : Key) → is_ancestor_of a b ≡ true → IsProperParent a b
unfolding is_ancestor_of IsProperParent
ancestor-parent a b h = elim (Bool-cases (leb b.n a.n)) [
  | inl above ↦ absurd (ground arith)
  | inr below ↦
      let g = b.n - a.n in
      let at = λ (t s : ℤ) (e : eqb_ℤ t s ≡ true). sym (eqb_path t s e) in
      (
        g,
        ground arith,
        omega arith,
        parent_at b g (omega arith)
            ∙ Key-ext _ _ (ground arith) (at a.l.x _ (ground arith)) (at a.l.y _ (ground arith))
                (at a.l.z _ (ground arith)),
      )
]

parent-ancestor : (b : Key) (g : ℕ) → 0 < g → g ≤ b.n → is_ancestor_of (parent b g) b ≡ true
unfolding is_ancestor_of
parent-ancestor b g positive h =
    let above : leb b.n (b.n - g) ≡ false = ground arith in
    let shift : b.n - (b.n - g) ≡ g = omega arith in
    rw (parent_at b g h, above, shift)
      (rw (eqb_refl (shr_ℤ b.l.x g), eqb_refl (shr_ℤ b.l.y g), eqb_refl (shr_ℤ b.l.z g)) refl)

-- `is_ancestor_of` accepts a key just if it is a parent of the other of some generation from 1 up to the
-- level of the other.
pub is_ancestor_of-iff-IsProperParent :
    (a b : Key) → (is_ancestor_of a b ≡ true) ↔ IsProperParent a b
unfolding IsProperParent
is_ancestor_of-iff-IsProperParent a b = (
  ancestor-parent a b,
  λ p.
      let (g, positive, h, e) = p in
      subst (λ k. is_ancestor_of k b ≡ true) e (parent-ancestor b g positive h),
)

-- An ancestor of an ancestor of a key is an ancestor of the key.
pub is_ancestor_of_trans :
    (a b c : Key)
    → is_ancestor_of a b ≡ true
    → is_ancestor_of b c ≡ true
    → is_ancestor_of a c ≡ true
unfolding IsProperParent
is_ancestor_of_trans a b c h k =
    let (g, positive, low, e) = ancestor-parent a b h in
    let (g2, positive2, low2, e2) = ancestor-parent b c k in
    let level : c.n - g2 ≡ b.n = ap (λ q. q.n) (sym (parent_at c g2 low2)) ∙ ap (λ q. q.n) e2 in
    (is_ancestor_of-iff-IsProperParent a c).1 (
      g2 + g,
      omega arith,
      omega (arith, level),
      sym (parent-parent c g2 g) ∙ ap (λ q. parent q g) e2 ∙ e,
    )
