-- ===== src/Base/Eq.antt =====
-- Types with a Boolean test of equality.
use mathlib.Core.Path.{◌≡◌}
use mathlib.Core.Logic.{◌↔◌}
use mathlib.Core.Bool.{Bool, true}
use mathlib.Core.Option.{Option, none, some}
use Prim.Native.Nat.{ℕ, ◌+◌}
use amt_bh_benchmark.Base.Tests.{if◌then◌else◌}

pub record Eq (A : Type 0) : Type 0 where
  pub eqb : A → A → Bool
  pub eqb_iff : (a b : A) → (eqb a b ≡ true) ↔ (a ≡ b)

-- A hash table, with its behaviour: a finite map from keys, and its number of keys. The type of the
-- tables and their operations are another project's.
pub record HashMap (K V : Type 0) (e : Eq K) : Type 1 where
  pub Map : Type 0
  pub empty : Map
  pub find : Map → K → Option V
  pub insert_or_assign : Map → K → V → Map
  -- Leaves the table alone where the key is in it.
  pub insert : Map → K → V → Map
  pub size : Map → ℕ
  pub find-empty : (k : K) → find empty k ≡ none
  pub find-insert_or_assign :
      (m : Map) (k q : K) (v : V)
      → find (insert_or_assign m k v) q ≡ (if e.eqb q k then some v else find m q)
  pub insert_old : (m : Map) (k : K) (v w : V) → find m k ≡ some w → insert m k v ≡ m
  pub insert_new :
      (m : Map) (k : K) (v : V) → find m k ≡ none → insert m k v ≡ insert_or_assign m k v
  pub size-empty : size empty ≡ 0
  pub size-insert_or_assign :
      (m : Map) (k : K) (v : V)
      → size (insert_or_assign m k v) ≡ elim (find m k) [ none ↦ size m + 1 | some _ ↦ size m ]

-- What a table of tables is made of: the tables, the hash of a key, and how many tables there are.
pub record Sharding (K V : Type 0) (e : Eq K) : Type 1 where
  pub table : HashMap K V e
  pub hash : K → ℕ
  pub log_shards : ℕ
