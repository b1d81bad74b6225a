-- ===== src/Hpx/LoadBalance/Domains.antt =====
-- The keys of a rank's domain are its occupied buckets.
use native.Mathlib.Nat.{one-le-pow, div-lt_iff_lt-mul}
use amt_bh_benchmark.Base.Bits.{two_pow_add}
use amt_bh_benchmark.Base.{
  ℕ, zero, suc, ◌+◌, ◌-◌, ◌*◌, ◌/◌, ◌^◌, ◌<◌, ◌≤◌, ◌≡◌, refl, sym, ap, subst, ◌∙◌, ◌&&◌, true,
  false, ltb, leb, ◌==◌, if◌then◌else◌, List, [], ◌∷◌, ◌++◌, length, get_or, Has, change_at, copies,
  length-copies, length-change_at, change_at_self, change_at_other, get_or-copies, append_assoc,
  append-nil, arith, Bool-cases, inl, inr,
}
use amt_bh_benchmark.Hpx.LoadBalance.{
  choose_splitters, upper_bound, sum, assign_buckets, RankDomains, local_histogram, bucket_of,
  update_rank_domains,
}
use amt_bh_benchmark.Hpx.LoadBalance.Splitters.{dest_rank-lt}

-- The prefixes of the occupied buckets, from bucket i on, that go to rank r.
pub domain_keys : ℕ → List ℕ → ℕ → List ℕ → ℕ → List ℕ
domain_keys bucket_bits splitters r [] i = []
domain_keys bucket_bits splitters r (h ∷ hist) i =
    if ltb 0 h && upper_bound splitters i == r
    then i * 2 ^ (63 - bucket_bits) ∷ domain_keys bucket_bits splitters r hist (i + 1)
    else domain_keys bucket_bits splitters r hist (i + 1)

assign_buckets-domain_keys :
    (bucket_bits : ℕ) (splitters hist : List ℕ) (i r : ℕ) (out : RankDomains)
    → r < length out.rank_domain_keys
    → get_or (assign_buckets bucket_bits splitters hist i out).rank_domain_keys r []
      ≡ get_or out.rank_domain_keys r [] ++ domain_keys bucket_bits splitters r hist i
unfolding assign_buckets domain_keys
assign_buckets-domain_keys bucket_bits splitters [] i r out h = sym (append-nil _)
assign_buckets-domain_keys bucket_bits splitters (b ∷ hist) i r out h =
    let dest = upper_bound splitters i in
    let add = λ (ks : List ℕ). ks ++ i * 2 ^ (63 - bucket_bits) ∷ [] in
    let longer = length-change_at out.rank_domain_keys dest add in
    let keys = if ltb 0 b then change_at out.rank_domain_keys dest add else out.rank_domain_keys in
    let in_keys : r < length keys = elim (Bool-cases (ltb 0 b)) [
      | inl occupied ↦ rw occupied (omega (arith, longer))
      | inr empty ↦ rw empty h
    ] in
    assign_buckets-domain_keys bucket_bits splitters hist (i + 1) r _ in_keys
    ∙ elim (Bool-cases (ltb 0 b)) [
      | inr empty ↦ rw empty refl
      | inl occupied ↦ elim (Bool-cases (dest == r)) [
        | inl here ↦
            let same : dest ≡ r = ground arith in
            rw (occupied, here)
              (ap (λ (ks : List ℕ). ks ++ domain_keys bucket_bits splitters r hist (i + 1))
                  (ap (λ (t : ℕ). get_or (change_at out.rank_domain_keys t add) r []) same
                    ∙ change_at_self out.rank_domain_keys r add [] h)
                ∙ append_assoc (get_or out.rank_domain_keys r []) (i * 2 ^ (63 - bucket_bits) ∷ [])
                    (domain_keys bucket_bits splitters r hist (i + 1)))
        | inr elsewhere ↦
            rw
              (
                occupied,
                elsewhere,
                change_at_other out.rank_domain_keys dest r add [] (λ e. ground arith),
              )
              refl
      ]
    ]

-- The histogram counts the keys of each bucket.
pub in_bucket : ℕ → ℕ → List ℕ → ℕ
in_bucket bucket_bits i [] = 0
in_bucket bucket_bits i (key ∷ codes) =
    (if bucket_of bucket_bits key == i then 1 else 0) + in_bucket bucket_bits i codes

pub local_histogram-in_bucket :
    (bucket_bits : ℕ) (codes hist : List ℕ) (i : ℕ)
    → i < length hist
    → get_or (local_histogram bucket_bits codes hist) i 0
      ≡ get_or hist i 0 + in_bucket bucket_bits i codes
unfolding local_histogram in_bucket
local_histogram-in_bucket bucket_bits [] hist i h = omega arith
local_histogram-in_bucket bucket_bits (key ∷ codes) hist i h =
    let b = bucket_of bucket_bits key in
    let one_more = λ (c : ℕ). c + 1 in
    let rest =
      local_histogram-in_bucket bucket_bits codes (change_at hist b one_more) i
        (omega (arith, length-change_at hist b one_more)) in
    elim (Bool-cases (b == i)) [
      | inl here ↦
          let same : b ≡ i = ground arith in
          rw here (
            omega (
              arith,
              rest,
              ap (λ (t : ℕ). get_or (change_at hist t one_more) i 0) same
                  ∙ change_at_self hist i one_more 0 h,
            ))
      | inr elsewhere ↦
          rw elsewhere
            (omega (arith, rest, change_at_other hist b i one_more 0 (λ e. ground arith)))
    ]

Has-domain_keys :
    (bucket_bits : ℕ) (splitters hist : List ℕ) (i j : ℕ)
    → j < length hist
    → 0 < get_or hist j 0
    → Has
        ((i + j) * 2 ^ (63 - bucket_bits))
        (domain_keys bucket_bits splitters (upper_bound splitters (i + j)) hist i)
unfolding domain_keys
Has-domain_keys bucket_bits splitters [] i j h k = absurd (omega arith)
Has-domain_keys bucket_bits splitters (b ∷ hist) i zero h k =
    let here : i + 0 ≡ i = omega arith in
    let occupied : ltb 0 b ≡ true = ground arith in
    let same : (upper_bound splitters i == upper_bound splitters i) ≡ true = ground arith in
    rw (here, occupied, same) (inl refl)
Has-domain_keys bucket_bits splitters (b ∷ hist) i (suc j) h k =
    let next : i + 1 + j ≡ i + suc j = omega arith in
    let r = upper_bound splitters (i + suc j) in
    let rest : Has ((i + suc j) * 2 ^ (63 - bucket_bits))
        (domain_keys bucket_bits splitters r hist (i + 1)) =
      subst
        (λ (n : ℕ).
          Has (n * 2 ^ (63 - bucket_bits))
            (domain_keys bucket_bits splitters (upper_bound splitters n) hist (i + 1)))
        next (Has-domain_keys bucket_bits splitters hist (i + 1) j (omega arith) k) in
    elim (Bool-cases (ltb 0 b && upper_bound splitters i == r)) [
      | inl taken ↦ rw taken (inr rest)
      | inr left ↦ rw left rest
    ]

in_bucket-Has :
    (bucket_bits key : ℕ) (codes : List ℕ)
    → Has key codes
    → 0 < in_bucket bucket_bits (bucket_of bucket_bits key) codes
unfolding in_bucket
in_bucket-Has bucket_bits key [] h = absurd h
in_bucket-Has bucket_bits key (c ∷ codes) (inl e) =
    let same : (bucket_of bucket_bits c == bucket_of bucket_bits key) ≡ true =
      rw e (ground arith) in
    rw same (omega arith)
in_bucket-Has bucket_bits key (c ∷ codes) (inr h) =
    omega (arith, in_bucket-Has bucket_bits key codes h)

-- all_reduce adds up histograms, so it returns as many counts, none below this rank's.
pub record IsReduction (all_reduce : List ℕ → List ℕ) (hist : List ℕ) : Type 0 where
  pub length : length (all_reduce hist) ≡ length hist
  pub grows : (i : ℕ) → get_or hist i 0 ≤ get_or (all_reduce hist) i 0

local_histogram_length :
    (bucket_bits : ℕ) (codes hist : List ℕ)
    → length (local_histogram bucket_bits codes hist) ≡ length hist
unfolding local_histogram
local_histogram_length bucket_bits [] hist = refl
local_histogram_length bucket_bits (key ∷ codes) hist =
    local_histogram_length bucket_bits codes _
    ∙ length-change_at hist (bucket_of bucket_bits key) (λ (c : ℕ). c + 1)

assign_buckets_splitters :
    (bucket_bits : ℕ) (splitters hist : List ℕ) (i : ℕ) (out : RankDomains)
    → (assign_buckets bucket_bits splitters hist i out).splitters ≡ out.splitters
unfolding assign_buckets
assign_buckets_splitters bucket_bits splitters [] i out = refl
assign_buckets_splitters bucket_bits splitters (h ∷ hist) i out =
    assign_buckets_splitters bucket_bits splitters hist (i + 1) _

-- The bucket of a 63-bit key is in range.
pub top_bits-lt :
    (bucket_bits key : ℕ)
    → bucket_bits ≤ 63
    → key < 2 ^ 63
    → key / 2 ^ (63 - bucket_bits) < 2 ^ bucket_bits
top_bits-lt bucket_bits key h fits =
    let split : 2 ^ 63 ≡ 2 ^ bucket_bits * 2 ^ (63 - bucket_bits) =
      ap (λ (t : ℕ). 2 ^ t) {x = 63} {y = bucket_bits + (63 - bucket_bits)} (omega arith)
      ∙ two_pow_add bucket_bits (63 - bucket_bits) in
    (div-lt_iff_lt-mul {k = 2 ^ (63 - bucket_bits)}
        (one-le-pow (63 - bucket_bits) 2 (omega arith))).1
      (omega (arith, split))

bucket_of-lt :
    (bucket_bits key : ℕ)
    → bucket_bits ≤ 63
    → key < 2 ^ 63
    → bucket_of bucket_bits key < 2 ^ bucket_bits
bucket_of-lt bucket_bits key h fits = omega (arith, top_bits-lt bucket_bits key h fits)

-- On more than one rank and with bucket_bits up to 30, when all_reduce returns as many counts and none
-- below this rank's, the bucket of each of the rank's 63-bit keys is among the domain keys of a rank,
-- the one that the splitters give the bucket to.
pub Has-rank_domain_keys :
    (all_reduce : List ℕ → List ℕ) (size bucket_bits : ℕ) (codes : List ℕ) (key : ℕ)
    → 1 < size
    → bucket_bits ≤ 30
    → IsReduction all_reduce (local_histogram bucket_bits codes (copies (2 ^ bucket_bits) 0))
    → Has key codes
    → key < 2 ^ 63
    → let d = update_rank_domains all_reduce size codes bucket_bits in
      let b = bucket_of bucket_bits key in
      let r = upper_bound d.splitters b in
      (r < size) × Has (b * 2 ^ (63 - bucket_bits)) (get_or d.rank_domain_keys r [])
unfolding update_rank_domains
Has-rank_domain_keys all_reduce size bucket_bits codes key h bits red has fits =
    let hist = all_reduce (local_histogram bucket_bits codes (copies (2 ^ bucket_bits) 0)) in
    let ideal = (sum hist + size - 1) / size in
    let splitters = choose_splitters size ideal hist 0 0 [] in
    let b = bucket_of bucket_bits key in
    let in_hist = local_histogram_length bucket_bits codes (copies (2 ^ bucket_bits) 0) in
    let all_buckets = length-copies {A = ℕ} (2 ^ bucket_bits) 0 in
    let low = bucket_of-lt bucket_bits key (omega arith) fits in
    let counted : 0 < get_or hist b 0 = omega (
      arith,
      red.grows b,
      local_histogram-in_bucket bucket_bits codes (copies (2 ^ bucket_bits) 0) b
          (omega (arith, low, all_buckets)),
      in_bucket-Has bucket_bits key codes has,
    ) in
    let start : RankDomains = record {
      rank_domain_keys = copies size [];
      global_hist = [];
      splitters = splitters;
    } in
    let many : update_rank_domains all_reduce size codes bucket_bits
        ≡ assign_buckets bucket_bits splitters hist 0 start =
      let not_one : leb size 1 ≡ false = ground arith in rw (update_rank_domains, not_one) refl in
    let rank = dest_rank-lt size ideal hist b (omega arith) in
    rw (many, assign_buckets_splitters bucket_bits splitters hist 0 start)
      (
        rank,
        rw
            (
              assign_buckets-domain_keys bucket_bits splitters hist 0 (upper_bound splitters b)
                  start (omega (arith, rank, length-copies {A = List ℕ} size [])),
              get_or-copies {A = List ℕ} size [] (upper_bound splitters b),
            )
            (subst
              (λ (n : ℕ).
                Has (n * 2 ^ (63 - bucket_bits))
                  (domain_keys bucket_bits splitters (upper_bound splitters n) hist 0))
              {x = 0 + b} {y = b} (omega arith)
              (Has-domain_keys bucket_bits splitters hist 0 b
                (omega (arith, red.length, in_hist, all_buckets, low)) counted)),
      )
