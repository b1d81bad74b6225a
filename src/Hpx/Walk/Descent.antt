-- ===== src/Hpx/Walk/Descent.antt =====
-- The walks over an explicit stack against the recursive descent into the tree.
use amt_bh_benchmark.Base.{
  ℕ, zero, suc, ◌+◌, ◌*◌, ◌^◌, ◌≤◌, List, [], ◌∷◌, ◌++◌, Option, some, map, length, ◌≡◌, refl, ap,
  ◌∙◌, subst, inl, inr, ◌⊎◌, All, arith,
}
use native.Mathlib.Nat.{mul-le-mul_right}
use amt_bh_benchmark.Hpx.Walk.{
  Visit, settled, opened, finished, push_all, after_push, proceed, walk, Outcome, with_result,
  each_body,
}

pub Visit-cases :
    {I A : Type 0} (v : Visit I A) → ((b : A) × (v ≡ settled b)) ⊎ ((cs : List I) × (v ≡ opened cs))
Visit-cases (settled b) = inl (b, refl)
Visit-cases (opened cs) = inr (cs, refl)

-- The children in the order in which the stack gives them back.
pub last_first : {I A : Type 0} → (I → A → A) → List I → A → A
last_first f [] a = a
last_first f (c ∷ cs) a = f c (last_first f cs a)

pub settle : {I A : Type 0} → (List I → A → A) → A → Visit I A → A
settle rest a (settled b) = b
settle rest a (opened cs) = rest cs a

-- The descent from a node with that many levels below it, by recursion on them.
pub descend : {I A : Type 0} → (I → A → Visit I A) → ℕ → I → A → A
descend visit zero i a = settle (λ cs b. b) a (visit i a)
descend visit (suc l) i a = settle (λ cs b. last_first (descend visit l) cs b) a (visit i a)

descend-settled :
    {I A : Type 0} (visit : I → A → Visit I A) (l : ℕ) (i : I) (a b : A)
    → visit i a ≡ settled b
    → descend visit l i a ≡ b
unfolding descend settle
descend-settled visit zero i a b h = rw h refl
descend-settled visit (suc l) i a b h = rw h refl

descend-opened :
    {I A : Type 0} (visit : I → A → Visit I A) (l : ℕ) (i : I) (a : A) (cs : List I)
    → visit i a ≡ opened cs
    → descend visit (suc l) i a ≡ last_first (descend visit l) cs a
unfolding descend settle
descend-opened visit l i a cs h = rw h refl

pub nine_pow_pos : (k : ℕ) → 1 ≤ 9 ^ k
nine_pow_pos zero = omega arith
nine_pow_pos (suc k) = omega (arith, nine_pow_pos k)

-- The levels below each node, as `left` counts them.
module _ {I : Type 0} (left : I → ℕ) where
  -- A bound on the rounds that a stack takes.
  unfoldable pub weight : List I → ℕ
  weight [] = 0
  weight (i ∷ s) = 9 ^ left i + weight s

  -- Each node stands at most as high in the stack as 7 times its depth, when `bound` is 7 times the
  -- number of levels.
  unfoldable pub Fits : ℕ → List I → Type 0
  Fits bound [] = Unit
  Fits bound (i ∷ s) = (length s + 7 * left i ≤ bound) × Fits bound s

  pub weight-append : (s t : List I) → weight (s ++ t) ≡ weight s + weight t
  unfolding weight
  weight-append [] t = omega arith
  weight-append (i ∷ s) t = omega (arith, weight-append s t)

  pub weight_level : (l : ℕ) (s : List I) → All (λ i. left i ≡ l) s → weight s ≡ length s * 9 ^ l
  unfolding weight
  weight_level l [] h = omega arith
  weight_level l (i ∷ s) h =
      let here : 9 ^ left i ≡ 9 ^ l = ap (λ n. 9 ^ n) h.0 in
      omega (arith, weight_level l s h.1, here)

  weight-push_all :
      (l : ℕ) (cs s : List I)
      → All (λ c. left c ≡ l) cs
      → weight (push_all cs s) ≡ length cs * 9 ^ l + weight s
  unfolding weight push_all
  weight-push_all l [] s h = omega arith
  weight-push_all l (c ∷ cs) s h =
      let here : 9 ^ left c ≡ 9 ^ l = ap (λ n. 9 ^ n) h.0 in
      omega (arith, weight-push_all l cs (c ∷ s) h.1, here)

  Fits-push_all :
      (bound l : ℕ) (cs s : List I)
      → All (λ c. left c ≡ l) cs
      → Fits bound s
      → length s + length cs + 7 * l ≤ bound + 1
      → Fits bound (push_all cs s)
  unfolding Fits push_all
  Fits-push_all bound l [] s h fits room = fits
  Fits-push_all bound l (c ∷ cs) s h fits room =
      Fits-push_all bound l cs (c ∷ s) h.1 (omega (arith, room, h.0), fits) (omega (arith, room))

  module _ {A : Type 0} (visit : I → A → Visit I A) where
    -- The descents from the nodes of a stack, from its top on.
    unfoldable pub descend_all : List I → A → A
    descend_all [] a = a
    descend_all (i ∷ s) a = descend_all s (descend visit (left i) i a)

    descend_all-push_all :
        (l : ℕ) (cs s : List I) (a : A)
        → All (λ c. left c ≡ l) cs
        → descend_all (push_all cs s) a ≡ descend_all s (last_first (descend visit l) cs a)
    unfolding descend_all push_all last_first
    descend_all-push_all l [] s a h = refl
    descend_all-push_all l (c ∷ cs) s a h =
        descend_all-push_all l cs (c ∷ s) a h.1
        ∙ ap (λ n. descend_all s (descend visit n c (last_first (descend visit l) cs a))) h.0

    module _ (push : List I → List I → Option (List I)) (bound : ℕ)
        (pushes : (cs s : List I)
          → length s + length cs ≤ bound + 1
          → push cs s ≡ some (push_all cs s))
        (opens : (i : I) (a : A) (cs : List I)
          → visit i a ≡ opened cs
          → (l : ℕ) × (left i ≡ suc l) × (length cs ≤ 8) × All (λ c. left c ≡ l) cs) where
      -- The walk ends, without overflow, with the result of the descents.
      pub walk-descend_all :
          (s : List I) (fuel : ℕ) (a : A)
          → Fits bound s
          → weight s ≤ fuel
          → walk push visit s fuel a ≡ finished (descend_all s a)
      unfolding walk proceed after_push descend_all weight Fits
      walk-descend_all [] fuel a fits enough = refl
      walk-descend_all (i ∷ s) zero a fits enough =
          absurd (omega (arith, nine_pow_pos (left i), enough))
      walk-descend_all (i ∷ s) (suc fuel) a fits enough = elim (Visit-cases (visit i a)) [
        | inl (b, e) ↦
            rw (e, descend-settled visit (left i) i a b e)
              (walk-descend_all s fuel b fits.1 (omega (arith, nine_pow_pos (left i), enough)))
        | inr (cs, e) ↦
            let (l, suc_l, few, below) = opens i a cs e in
            let room : length s + 7 * suc l ≤ bound =
              subst (λ n. length s + 7 * n ≤ bound) suc_l fits.0 in
            let light : 9 ^ suc l + weight s ≤ suc fuel =
              subst (λ n. 9 ^ n + weight s ≤ suc fuel) suc_l enough in
            rw (e, suc_l, descend-opened visit l i a cs e, pushes cs s (omega (arith, room, few)))
              (walk-descend_all (push_all cs s) fuel a
                  (Fits-push_all bound l cs s below fits.1 (omega (arith, room, few)))
                  (omega (
                    arith,
                    light,
                    weight-push_all l cs s below,
                    mul-le-mul_right (9 ^ l) few,
                    nine_pow_pos l,
                  ))
                ∙ ap finished (descend_all-push_all l cs s a below))
      ]

-- What every settled node keeps of the result, the descents keep.
module _ {I A : Type 0} (visit : I → A → Visit I A) (Q : A → Type 0)
    (keeps : (i : I) (a b : A) → visit i a ≡ settled b → Q a → Q b) where
  last_first-keeps :
      (f : I → A → A)
      → ((i : I) (a : A) → Q a → Q (f i a))
      → (cs : List I) (a : A) → Q a
      → Q (last_first f cs a)
  unfolding last_first
  last_first-keeps f h [] a q = q
  last_first-keeps f h (c ∷ cs) a q = h c (last_first f cs a) (last_first-keeps f h cs a q)

  descend-keeps : (l : ℕ) (i : I) (a : A) → Q a → Q (descend visit l i a)
  unfolding descend settle
  descend-keeps zero i a q = elim (Visit-cases (visit i a)) [
    | inl (b, e) ↦ rw e (keeps i a b e q)
    | inr (cs, e) ↦ rw e q
  ]
  descend-keeps (suc l) i a q = elim (Visit-cases (visit i a)) [
    | inl (b, e) ↦ rw e (keeps i a b e q)
    | inr (cs, e) ↦ rw e (last_first-keeps (descend visit l) (descend-keeps l) cs a q)
  ]

  pub descend_all-keeps : (left : I → ℕ) (s : List I) (a : A) → Q a → Q (descend_all left visit s a)
  unfolding descend_all
  descend_all-keeps left [] a q = q
  descend_all-keeps left (i ∷ s) a q =
      descend_all-keeps left s (descend visit (left i) i a) (descend-keeps (left i) i a q)

pub each_body-finished :
    {A : Type 0} (run : ℕ → Outcome A) (f : ℕ → A)
    → ((i : ℕ) → run i ≡ finished (f i))
    → (is : List ℕ) → each_body run is ≡ finished (map f is)
unfolding each_body with_result
each_body-finished run f h [] = refl
each_body-finished run f h (i ∷ is) = rw (h i, each_body-finished run f h is) refl
