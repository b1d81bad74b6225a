-- ===== src/Base/Table.antt =====
-- A table that behaves as HashMap asks, for running definitions that take one: an association list.
use Prim.Native.Nat.{suc, ◌+◌}
use mathlib.Core.Path.{◌≡◌, refl, ap, sym, ◌∙◌}
use mathlib.Core.Logic.{inl, inr}
use mathlib.Core.Bool.{true, false}
use mathlib.Core.Option.{Option, none, some}
use mathlib.Core.List.{List, [], ◌∷◌}
use native.Mathlib.Omega.{arith}
use amt_bh_benchmark.Base.Tests.{if◌then◌else◌, Bool-cases, Option-cases}
use amt_bh_benchmark.Base.Lists.{length}
use amt_bh_benchmark.Base.Eq.{Eq, HashMap}

-- Keys that one key equals.
same_key : {K : Type 0} (e : Eq K) (q k p : K) → e.eqb k p ≡ true → e.eqb q p ≡ e.eqb q k
same_key e q k p h = ap (e.eqb q) (sym ((e.eqb_iff k p).0 h))

-- A key that equals p does not equal k, which does not equal p.
other_key :
    {K : Type 0} (e : Eq K) (q k p : K) → e.eqb k p ≡ false → e.eqb q p ≡ true → e.eqb q k ≡ false
other_key e q k p h yes_eq = elim (Bool-cases (e.eqb q k)) [
  | inr no_eq ↦ no_eq
  | inl equal ↦
      let back : e.eqb k p ≡ true = rw (sym ((e.eqb_iff q k).0 equal)) yes_eq in
      absurd (ground (arith, back, h))
]

module _ {K V : Type 0} (e : Eq K) where
  abbrev pub find : List (K × V) → K → Option V
  find [] q = none
  find (p ∷ ps) q = if e.eqb q p.0 then some p.1 else find ps q

  abbrev pub assign : List (K × V) → K → V → List (K × V)
  assign [] k v = (k, v) ∷ []
  assign (p ∷ ps) k v = if e.eqb k p.0 then (k, v) ∷ ps else p ∷ assign ps k v

  abbrev pub insert : List (K × V) → K → V → List (K × V)
  insert ps k v = elim (find ps k) [ none ↦ assign ps k v | some w ↦ ps ]

  pub find-assign :
      (ps : List (K × V)) (k q : K) (v : V)
      → find (assign ps k v) q ≡ (if e.eqb q k then some v else find ps q)
  find-assign [] k q v = refl
  find-assign (p ∷ ps) k q v = elim (Bool-cases (e.eqb k p.0)) [
    | inl here ↦
        rw (here, same_key e q k p.0 here)
          (elim (Bool-cases (e.eqb q k)) [
            | inl yes_eq ↦ rw yes_eq refl
            | inr no_eq ↦ rw no_eq refl
          ])
    | inr elsewhere ↦
        rw (elsewhere, find-assign ps k q v)
          (elim (Bool-cases (e.eqb q p.0)) [
            | inl yes_eq ↦ rw (yes_eq, other_key e q k p.0 elsewhere yes_eq) refl
            | inr no_eq ↦ rw no_eq refl
          ])
  ]

  pub length-assign :
      (ps : List (K × V)) (k : K) (v : V)
      → length (assign ps k v) ≡ elim (find ps k) [ none ↦ length ps + 1 | some w ↦ length ps ]
  length-assign [] k v = omega arith
  length-assign (p ∷ ps) k v = elim (Bool-cases (e.eqb k p.0)) [
    | inl here ↦ rw here refl
    | inr elsewhere ↦ rw elsewhere (
        ap suc (length-assign ps k v) ∙ elim (Option-cases (find ps k)) [
          | inl missing ↦ rw missing (omega arith)
          | inr (w, found) ↦ rw found refl
        ])
  ]

  pub insert_old_lem :
      (ps : List (K × V)) (k : K) (v w : V) → find ps k ≡ some w → insert ps k v ≡ ps
  insert_old_lem ps k v w h = rw (insert, h) refl

  pub insert_new_lem :
      (ps : List (K × V)) (k : K) (v : V) → find ps k ≡ none → insert ps k v ≡ assign ps k v
  insert_new_lem ps k v h = rw (insert, h) refl

  abbrev pub assoc_table : HashMap K V e
  assoc_table = record {
    Map = List (K × V);
    empty = [];
    find = find;
    insert_or_assign = assign;
    insert = insert;
    size = length;
    insert_old = insert_old_lem;
    insert_new = insert_new_lem;
    find-empty = λ k. refl;
    find-insert_or_assign = find-assign;
    size-empty = refl;
    size-insert_or_assign = length-assign;
  }
