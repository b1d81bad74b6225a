-- ===== src/Base/Lists.antt =====
-- Lists measured and indexed by native numbers, under the library's names.
use Prim.Native.Nat.{ℕ, zero, suc, ◌+◌, ◌<◌}
use mathlib.Core.Path.{◌≡◌, refl, ap}
use mathlib.Core.Logic.{◌≢◌, ◌⊎◌}
use mathlib.Core.Bool.{Bool}
use amt_bh_benchmark.Base.Tests.{if◌then◌else◌}
use mathlib.Core.List.{List, [], ◌∷◌, ◌++◌, map}
use mathlib.Core.Option
use mathlib.Core.Option.{Option, none, some}
use native.Mathlib.Omega.{arith}

module _ {ℓ} {A : Type ℓ} where
  abbrev pub length : List A → ℕ
  length [] = 0
  length (x ∷ xs) = suc (length xs)

  abbrev pub get_elem? : List A → ℕ → Option A
  get_elem? [] i = none
  get_elem? (x ∷ xs) zero = some x
  get_elem? (x ∷ xs) (suc i) = get_elem? xs i

  abbrev pub get_or : List A → ℕ → A → A
  get_or [] i d = d
  get_or (x ∷ xs) zero d = x
  get_or (x ∷ xs) (suc i) d = get_or xs i d

  abbrev pub take : ℕ → List A → List A
  take zero xs = []
  take (suc n) [] = []
  take (suc n) (x ∷ xs) = x ∷ take n xs

  abbrev pub drop : ℕ → List A → List A
  drop zero xs = xs
  drop (suc n) [] = []
  drop (suc n) (x ∷ xs) = drop n xs

  abbrev pub All {κ} : (A → Type κ) → List A → Type κ
  All P [] = Unit
  All P (x ∷ xs) = P x × All P xs

  pub length-append : (xs ys : List A) → length (xs ++ ys) ≡ length xs + length ys
  length-append [] ys = omega arith
  length-append (x ∷ xs) ys = omega (arith, length-append xs ys)

  pub All-append {κ} : (P : A → Type κ) (xs ys : List A) → All P xs → All P ys → All P (xs ++ ys)
  All-append P [] ys h k = k
  All-append P (x ∷ xs) ys h k = (h.0, All-append P xs ys h.1 k)

module _ {ℓ κ} {A : Type ℓ} {B : Type κ} where
  pub length-map : (xs : List A) (f : A → B) → length (map f xs) ≡ length xs
  length-map [] f = refl
  length-map (x ∷ xs) f = ap suc (length-map xs f)

-- A contiguous run of indices, lo, lo + 1, ... of n entries.
abbrev pub range_from : ℕ → ℕ → List ℕ
range_from lo zero = []
range_from lo (suc n) = lo ∷ range_from (lo + 1) n

module _ {ℓ} {A : Type ℓ} where
  -- The elements that pass a test, in their order.
  abbrev pub select : (A → Bool) → List A → List A
  select p [] = []
  select p (x ∷ xs) = if p x then x ∷ select p xs else select p xs

  abbrev pub concat : List (List A) → List A
  concat [] = []
  concat (xs ∷ xss) = xs ++ concat xss

  -- xs[i] = f(xs[i]); out of range nothing changes.
  abbrev pub change_at : List A → ℕ → (A → A) → List A
  change_at [] i f = []
  change_at (x ∷ xs) zero f = f x ∷ xs
  change_at (x ∷ xs) (suc i) f = x ∷ change_at xs i f

  -- n copies.
  abbrev pub copies : ℕ → A → List A
  copies zero x = []
  copies (suc n) x = x ∷ copies n x

  pub select-append :
      (p : A → Bool) (xs ys : List A) → select p (xs ++ ys) ≡ select p xs ++ select p ys
  select-append p [] ys = refl
  select-append p (x ∷ xs) ys = ground (arith, select-append p xs ys)

  pub length-change_at : (xs : List A) (i : ℕ) (f : A → A) → length (change_at xs i f) ≡ length xs
  length-change_at [] i f = refl
  length-change_at (x ∷ xs) zero f = refl
  length-change_at (x ∷ xs) (suc i) f = ap suc (length-change_at xs i f)

  pub length-copies : (n : ℕ) (x : A) → length (copies n x) ≡ n
  length-copies zero x = refl
  length-copies (suc n) x = ap suc (length-copies n x)

  pub change_at_self :
      (xs : List A) (i : ℕ) (f : A → A) (d : A)
      → i < length xs
      → get_or (change_at xs i f) i d ≡ f (get_or xs i d)
  change_at_self [] i f d h = absurd (omega arith)
  change_at_self (x ∷ xs) zero f d h = refl
  change_at_self (x ∷ xs) (suc i) f d h = change_at_self xs i f d (omega arith)

  pub change_at_other :
      (xs : List A) (i j : ℕ) (f : A → A) (d : A)
      → j ≢ i
      → get_or (change_at xs i f) j d ≡ get_or xs j d
  change_at_other [] i j f d h = refl
  change_at_other (x ∷ xs) zero zero f d h = absurd (h refl)
  change_at_other (x ∷ xs) zero (suc j) f d h = refl
  change_at_other (x ∷ xs) (suc i) zero f d h = refl
  change_at_other (x ∷ xs) (suc i) (suc j) f d h = change_at_other xs i j f d (λ e. h (ap suc e))

  pub get_or-copies : (n : ℕ) (x : A) (i : ℕ) → get_or (copies n x) i x ≡ x
  get_or-copies zero x i = refl
  get_or-copies (suc n) x zero = refl
  get_or-copies (suc n) x (suc i) = get_or-copies n x i

-- Looking up in a list that has grown or was changed at one place.
module _ {ℓ} {A : Type ℓ} where
  pub get_elem?-append :
      (xs ys : List A) (i : ℕ) (x : A) → get_elem? xs i ≡ some x → get_elem? (xs ++ ys) i ≡ some x
  get_elem?-append [] ys i x h = absurd (cc)
  get_elem?-append (y ∷ xs) ys zero x h = h
  get_elem?-append (y ∷ xs) ys (suc i) x h = get_elem?-append xs ys i x h

  pub get_elem?-length : (xs ys : List A) (x : A) → get_elem? (xs ++ x ∷ ys) (length xs) ≡ some x
  get_elem?-length [] ys x = refl
  get_elem?-length (y ∷ xs) ys x = get_elem?-length xs ys x

  pub get_elem?-change_at_self :
      (xs : List A) (i : ℕ) (f : A → A) (x : A)
      → get_elem? xs i ≡ some x
      → get_elem? (change_at xs i f) i ≡ some (f x)
  get_elem?-change_at_self [] i f x h = absurd (cc)
  get_elem?-change_at_self (y ∷ xs) zero f x h = ap (λ o. Option.map f o) h
  get_elem?-change_at_self (y ∷ xs) (suc i) f x h = get_elem?-change_at_self xs i f x h

  pub get_elem?-change_at_other :
      (xs : List A) (i j : ℕ) (f : A → A) → j ≢ i → get_elem? (change_at xs i f) j ≡ get_elem? xs j
  get_elem?-change_at_other [] i j f h = refl
  get_elem?-change_at_other (x ∷ xs) zero zero f h = absurd (h refl)
  get_elem?-change_at_other (x ∷ xs) zero (suc j) f h = refl
  get_elem?-change_at_other (x ∷ xs) (suc i) zero f h = refl
  get_elem?-change_at_other (x ∷ xs) (suc i) (suc j) f h =
      get_elem?-change_at_other xs i j f (λ e. h (ap suc e))

-- The element is in the list.
abbrev pub Has : {A : Type 0} → A → List A → Type 0
Has x [] = ⊥
Has x (y ∷ ys) = (y ≡ x) ⊎ Has x ys
