-- ===== src/Hpx/LoadBalance/Migration.antt =====
-- `rebalance_bodies` moves each body to the rank of its bucket.
use native.Mathlib.Nat.{one-le-pow}
use amt_bh_benchmark.Base.{
  ℕ, ◌+◌, ◌-◌, ◌*◌, ◌/◌, ◌%◌, ◌^◌, ◌≤◌, true, ltb, All, ◌<◌, ◌≡◌, refl, sym, ap, ◌∙◌, ◌==◌,
  if◌then◌else◌, List, [], ◌∷◌, ◌++◌, length, concat, map, get_or, change_at, copies, length-copies,
  length-change_at, change_at_self, change_at_other, get_or-copies, append_assoc, append-nil, arith,
  Bool-cases, inl, inr,
}
use amt_bh_benchmark.Hpx.LoadBalance.{
  bucket_of, dest_of, upper_bound, send_loop, send_lists, rebalance_bodies,
}
use amt_bh_benchmark.Base.Bits.{two_pow_add}
use amt_bh_benchmark.Hpx.LoadBalance.Domains.{top_bits-lt}

two_pow-le : (n m : ℕ) → n ≤ m → 2 ^ n ≤ 2 ^ m
two_pow-le n m h =
    let split : 2 ^ m ≡ 2 ^ n * 2 ^ (m - n) =
      ap (λ (t : ℕ). 2 ^ t) {x = m} {y = n + (m - n)} (omega arith) ∙ two_pow_add n (m - n) in
    grind (arith, split, one-le-pow (m - n) 2 (omega arith))

-- The bucket of a 63-bit code neither wraps nor turns negative.
dest_of-bucket_of :
    (bucket_bits : ℕ) (splitters : List ℕ) (key : ℕ)
    → bucket_bits ≤ 30
    → key < 2 ^ 63
    → dest_of splitters (bucket_of bucket_bits key)
      ≡ upper_bound splitters (key / 2 ^ (63 - bucket_bits))
unfolding dest_of
dest_of-bucket_of bucket_bits splitters key few fits =
    let low = top_bits-lt bucket_bits key (omega arith) fits in
    let small : key / 2 ^ (63 - bucket_bits) < 2 ^ 30 =
      omega (arith, low, two_pow-le bucket_bits 30 few) in
    let whole : key / 2 ^ (63 - bucket_bits) % 2 ^ 32 ≡ key / 2 ^ (63 - bucket_bits) =
      omega (arith, small) in
    let int : ltb (key / 2 ^ (63 - bucket_bits)) (2 ^ 31) ≡ true = ground (arith, small) in
    rw (whole, int) refl

module _ {B : Type 0} where
  -- The codes have 63 bits.
  abbrev pub AllFit : List (ℕ × B) → Type 0
  AllFit = All (λ (b : ℕ × B). b.0 < 2 ^ 63)

  -- The bodies that the splitters give to rank r by the highest bucket_bits of the 63 bits of their code.
  pub bound_for : ℕ → List ℕ → ℕ → List (ℕ × B) → List B
  bound_for bucket_bits splitters r [] = []
  bound_for bucket_bits splitters r (b ∷ bodies) =
      if upper_bound splitters (b.0 / 2 ^ (63 - bucket_bits)) == r
      then b.1 ∷ bound_for bucket_bits splitters r bodies
      else bound_for bucket_bits splitters r bodies

  send_loop-bound_for :
      (bucket_bits : ℕ) (splitters : List ℕ) (r : ℕ) (bodies : List (ℕ × B)) (sends : List (List B))
      → bucket_bits ≤ 30
      → AllFit bodies
      → r < length sends
      → get_or (send_loop bucket_bits splitters bodies sends) r []
        ≡ get_or sends r [] ++ bound_for bucket_bits splitters r bodies
  unfolding send_loop bound_for
  send_loop-bound_for bucket_bits splitters r [] sends few fit h = sym (append-nil _)
  send_loop-bound_for bucket_bits splitters r (b ∷ bodies) sends few fit h =
      let dest = dest_of splitters (bucket_of bucket_bits b.0) in
      let goes : upper_bound splitters (b.0 / 2 ^ (63 - bucket_bits)) ≡ dest =
        sym (dest_of-bucket_of bucket_bits splitters b.0 few fit.0) in
      let add = λ (bs : List B). bs ++ b.1 ∷ [] in
      send_loop-bound_for bucket_bits splitters r bodies (change_at sends dest add) few fit.1
        (omega (arith, length-change_at sends dest add))
      ∙ elim (Bool-cases (dest == r)) [
        | inl here ↦
            let same : dest ≡ r = ground arith in
            rw (goes, here)
              (ap (λ (bs : List B). bs ++ bound_for bucket_bits splitters r bodies)
                  (ap (λ (t : ℕ). get_or (change_at sends t add) r []) same
                    ∙ change_at_self sends r add [] h)
                ∙ append_assoc (get_or sends r []) (b.1 ∷ [])
                    (bound_for bucket_bits splitters r bodies))
        | inr elsewhere ↦
            rw (goes, elsewhere, change_at_other sends dest r add [] (λ e. ground arith)) refl
      ]

  -- The send list for rank r holds the bodies bound for it, in their order.
  send_lists-bound_for :
      (bucket_bits size : ℕ) (splitters : List ℕ) (r : ℕ) (bodies : List (ℕ × B))
      → bucket_bits ≤ 30
      → AllFit bodies
      → r < size
      → get_or (send_lists bucket_bits size splitters bodies) r []
        ≡ bound_for bucket_bits splitters r bodies
  unfolding send_lists
  send_lists-bound_for bucket_bits size splitters r bodies few fit h =
      send_loop-bound_for bucket_bits splitters r bodies (copies size []) few fit
        (omega (arith, length-copies {A = List B} size []))
      ∙ rw (get_or-copies {A = List B} size [] r) refl

  -- A rank receives what every rank sends to it, in the order of the ranks.
  unfoldable pub IsExchange : (List (List (List B)) → ℕ → List (List B)) → Type 0
  IsExchange all_to_all =
      (sends : List (List (List B))) (r : ℕ) → all_to_all sends r ≡ map (λ s. get_or s r []) sends

  -- With bucket_bits up to 30 and codes below 2^63, and when all_to_all is an exchange, a rank below
  -- size holds after `rebalance_bodies` the bodies of all ranks that are bound for it, in the order of
  -- the ranks and of their bodies.
  pub rebalance_bodies-bound_for :
      (all_to_all : List (List (List B)) → ℕ → List (List B)) (bucket_bits size : ℕ)
      (splitters : List ℕ) (ranks : List (List (ℕ × B))) (r : ℕ)
      → IsExchange all_to_all
      → bucket_bits ≤ 30
      → All AllFit ranks
      → r < size
      → rebalance_bodies all_to_all bucket_bits size splitters ranks r
        ≡ concat (map (bound_for bucket_bits splitters r) ranks)
  unfolding rebalance_bodies IsExchange
  rebalance_bodies-bound_for all_to_all bucket_bits size splitters ranks r exchange few fit h =
      ap concat (exchange _ r ∙ joined ranks fit)
    where
      joined :
          (ranks : List (List (ℕ × B)))
          → All AllFit ranks
          → map (λ s. get_or s r []) (map (send_lists bucket_bits size splitters) ranks)
            ≡ map (bound_for bucket_bits splitters r) ranks
      joined [] fit = refl
      joined (bodies ∷ ranks) fit =
          rw
            (
              send_lists-bound_for bucket_bits size splitters r bodies few fit.0 h,
              joined ranks fit.1,
            )
            refl
