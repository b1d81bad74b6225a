-- ===== src/Hpx/Walk.antt =====
-- The loop over an explicit stack that the tree walks of hpx/ share (hpx/src/traversal.cpp,
-- hpx/src/energy.cpp, hpx/src/exchange.cpp). The head of the list is the top of the stack.
pub mod Descent
pub mod Results
use amt_bh_benchmark.Base.{
  ℕ, zero, suc, ◌+◌, List, [], ◌∷◌, Option, none, some, length, ltb, if◌then◌else◌,
}

abbrev pub stack_max : ℕ
stack_max = 256

-- What the body of the loop does with the node on top: it adds to the result, or it opens the node,
-- whose children it pushes in the order of the list.
pub data Visit (I A : Type 0) : Type 0 where
  settled : A → Visit I A
  opened : List I → Visit I A

-- `overflow` is the exception of the walks.
pub data Outcome (A : Type 0) : Type 0 where
  finished : A → Outcome A
  overflow : Outcome A
  out_of_fuel : Outcome A

unfoldable pub push_all : {I : Type 0} → List I → List I → List I
push_all [] stack = stack
push_all (c ∷ cs) stack = push_all cs (c ∷ stack)

-- The push of the force and energy walks, which throw where the children do not fit.
unfoldable pub push_or_throw : {I : Type 0} → List I → List I → Option (List I)
push_or_throw cs stack =
    if ltb stack_max (length stack + length cs) then none else some (push_all cs stack)

-- The push of createInteractionListForRank, which leaves out what does not fit.
unfoldable pub push_what_fits : {I : Type 0} → List I → List I → List I
push_what_fits [] stack = stack
push_what_fits (c ∷ cs) stack =
    push_what_fits cs (if ltb (length stack) stack_max then c ∷ stack else stack)

module _ {I A : Type 0} where
  pub after_push : (List I → Outcome A) → Option (List I) → Outcome A
  after_push rest none = overflow
  after_push rest (some stack) = rest stack

  pub proceed :
      (List I → List I → Option (List I))
      → (List I → A → Outcome A)
      → List I
      → A
      → Visit I A
      → Outcome A
  proceed push rest stack a (settled b) = rest stack b
  proceed push rest stack a (opened cs) = after_push (λ s. rest s a) (push cs stack)

  -- while (top)
  pub walk : (List I → List I → Option (List I)) → (I → A → Visit I A) → List I → ℕ → A → Outcome A
  walk push visit [] fuel a = finished a
  walk push visit (i ∷ stack) zero a = out_of_fuel
  walk push visit (i ∷ stack) (suc fuel) a =
      proceed push (λ s b. walk push visit s fuel b) stack a (visit i a)

-- The results of the bodies; an exception of one is the exception of all.
unfoldable pub with_result : {A : Type 0} → Outcome A → Outcome (List A) → Outcome (List A)
with_result (finished a) (finished rest) = finished (a ∷ rest)
with_result overflow rest = overflow
with_result out_of_fuel rest = out_of_fuel
with_result (finished a) overflow = overflow
with_result (finished a) out_of_fuel = out_of_fuel

unfoldable pub each_body : {A : Type 0} → (ℕ → Outcome A) → List ℕ → Outcome (List A)
each_body run [] = finished []
each_body run (i ∷ is) = with_result (run i) (each_body run is)

unfoldable pub map_outcome : {A B : Type 0} → (A → B) → Outcome A → Outcome B
map_outcome f (finished a) = finished (f a)
map_outcome f overflow = overflow
map_outcome f out_of_fuel = out_of_fuel

unfoldable pub and_then : {A B : Type 0} → Outcome A → (A → Outcome B) → Outcome B
and_then (finished a) f = f a
and_then overflow f = overflow
and_then out_of_fuel f = out_of_fuel
