-- ===== src/Hpx/Walk/Results.antt =====
-- Outcomes that are results come from results.
use amt_bh_benchmark.Base.{List, ◌∷◌, ◌≡◌, refl, ap, sym, subst}
use amt_bh_benchmark.Hpx.Walk.{
  Outcome, finished, overflow, out_of_fuel, with_result, map_outcome, and_then,
}

IsFinished : {A : Type 0} → Outcome A → Type 0
IsFinished (finished a) = Unit
IsFinished overflow = ⊥
IsFinished out_of_fuel = ⊥

value_or : {A : Type 0} → A → Outcome A → A
value_or d (finished a) = a
value_or d overflow = d
value_or d out_of_fuel = d

pub finished_inj : {A : Type 0} (a b : A) → Path (Outcome A) (finished a) (finished b) → a ≡ b
unfolding value_or
finished_inj a b h = ap (value_or a) h

pub overflow_absurd : {A : Type 0} (a : A) → overflow ≡ finished a → ⊥
unfolding IsFinished
overflow_absurd a h = subst IsFinished (sym h) tt

pub out_of_fuel_absurd : {A : Type 0} (a : A) → out_of_fuel ≡ finished a → ⊥
unfolding IsFinished
out_of_fuel_absurd a h = subst IsFinished (sym h) tt

pub map_outcome-finished :
    {A B : Type 0} (f : A → B) (o : Outcome A) (b : B)
    → map_outcome f o ≡ finished b
    → (a : A) × (o ≡ finished a) × (f a ≡ b)
unfolding map_outcome
map_outcome-finished f (finished a) b h = (a, refl, finished_inj (f a) b h)
map_outcome-finished f overflow b h = absurd (overflow_absurd b h)
map_outcome-finished f out_of_fuel b h = absurd (out_of_fuel_absurd b h)

pub and_then-finished :
    {A B : Type 0} (o : Outcome A) (f : A → Outcome B) (b : B)
    → and_then o f ≡ finished b
    → (a : A) × (o ≡ finished a) × (f a ≡ finished b)
unfolding and_then
and_then-finished (finished a) f b h = (a, refl, h)
and_then-finished overflow f b h = absurd (overflow_absurd b h)
and_then-finished out_of_fuel f b h = absurd (out_of_fuel_absurd b h)

pub with_result-finished :
    {A : Type 0} (o : Outcome A) (rest : Outcome (List A)) (bs : List A)
    → with_result o rest ≡ finished bs
    → (a : A) × (rs : List A) × (o ≡ finished a) × (rest ≡ finished rs) × ((a ∷ rs) ≡ bs)
unfolding with_result
with_result-finished (finished a) (finished rs) bs h =
    (a, rs, refl, refl, finished_inj (a ∷ rs) bs h)
with_result-finished (finished a) overflow bs h = absurd (overflow_absurd bs h)
with_result-finished (finished a) out_of_fuel bs h = absurd (out_of_fuel_absurd bs h)
with_result-finished overflow rest bs h = absurd (overflow_absurd bs h)
with_result-finished out_of_fuel rest bs h = absurd (out_of_fuel_absurd bs h)
