-- ===== src/Charm/Requests/Table.antt =====
-- The table of requests, and the walks that wait in it.
use amt_bh_benchmark.Base.{
  ℕ, ◌+◌, ◌<◌, ◌≡◌, refl, sym, ap, ◌∙◌, none, true, false, ltb, ◌==◌, if◌then◌else◌, List, [], ◌∷◌,
  ◌++◌, All, arith, Bool-cases, ◌⊎◌, inl, inr,
}
use amt_bh_benchmark.Charm.Requests.{
  What, nodes, particles, same_what, Requestor, Request, is_for, find_request, put_request,
  is_local, fits_parent,
}

-- How many of the requestors are of the State.
unfoldable pub of_state : ℕ → List Requestor → ℕ
of_state t [] = 0
of_state t (r ∷ rs) = if r.state == t then of_state t rs + 1 else of_state t rs

unfoldable pub waiting : ℕ → List Request → ℕ
waiting t [] = 0
waiting t (q ∷ qs) = of_state t q.requestors + waiting t qs

-- No key has two entries.
abbrev pub Fresh : Request → List Request → Type 0
Fresh q qs = All (λ p. is_for q.what q.key p ≡ false) qs

unfoldable pub IsTable : List Request → Type 0
IsTable [] = Unit
IsTable (q ∷ qs) = Fresh q qs × IsTable qs

-- Only remote walks wait, and only for what was asked for, at a node that fits.
abbrev pub IsAsked : Request → Type 0
IsAsked q =
    All (λ r. is_local r.state ≡ false) q.requestors
    × ((q.sent ≡ true) ⊎ (q.requestors ≡ []))
    × (q.sent ≡ true → fits_parent q.what q.parent ≡ true)

pub of_state-append :
    (t : ℕ) (rs rs' : List Requestor) → of_state t (rs ++ rs') ≡ of_state t rs + of_state t rs'
unfolding of_state
of_state-append t [] rs' = omega arith
of_state-append t (r ∷ rs) rs' = ground (arith, of_state-append t rs rs')

same_what_refl : (w : What) → same_what w w ≡ true
unfolding same_what
same_what_refl nodes = refl
same_what_refl particles = refl

same_what_sym : (w w' : What) → same_what w w' ≡ same_what w' w
unfolding same_what
same_what_sym nodes nodes = refl
same_what_sym nodes particles = refl
same_what_sym particles nodes = refl
same_what_sym particles particles = refl

what_of_same : (w w' : What) → same_what w w' ≡ true → w ≡ w'
unfolding same_what
what_of_same nodes nodes h = refl
what_of_same nodes particles h = absurd (ground (arith, h))
what_of_same particles nodes h = absurd (ground (arith, h))
what_of_same particles particles h = refl

-- The entry is for its own key alone.
pub is_for_self : (q : Request) → is_for q.what q.key q ≡ true
unfolding is_for
is_for_self q = rw (same_what_refl q.what) (ground arith)

pub is_for-eq :
    (what : What) (key : ℕ) (q : Request)
    → is_for what key q ≡ true
    → (what ≡ q.what) × (key ≡ q.key)
unfolding is_for
is_for-eq what key q h = (what_of_same what q.what (ground (arith, h)), ground (arith, h))

pub is_for_same :
    (what what' : What) (key key' : ℕ) (q r : Request)
    → is_for what key q ≡ true
    → is_for what key r ≡ true
    → is_for what' key' q ≡ is_for what' key' r
unfolding is_for
is_for_same what what' key key' q r hq hr =
    let (wq, kq) = is_for-eq what key q hq in
    let (wr, kr) = is_for-eq what key r hr in rw (sym wq, sym kq, sym wr, sym kr) refl

is_for_sym : (q p : Request) → is_for q.what q.key p ≡ is_for p.what p.key q
unfolding is_for
is_for_sym q p = rw (same_what_sym q.what p.what) (ground arith)

pub find-is_for :
    (what : What) (key : ℕ) (qs : List Request) → is_for what key (find_request what key qs) ≡ true
unfolding find_request
find-is_for what key [] = is_for_self (find_request what key [])
find-is_for what key (q ∷ qs) = elim (Bool-cases (is_for what key q)) [
  | inl here ↦ rw (here, here) refl
  | inr elsewhere ↦ rw (elsewhere, find-is_for what key qs) refl
]

module _ (what : What) (key : ℕ) (r : Request) where
  pub find-put :
      (qs : List Request)
      → is_for what key r ≡ true
      → find_request what key (put_request what key r qs) ≡ r
  unfolding find_request put_request
  find-put [] h = rw (h) refl
  find-put (q ∷ qs) h = elim (Bool-cases (is_for what key q)) [
    | inl here ↦ rw (here, h) refl
    | inr elsewhere ↦ rw (elsewhere, elsewhere) (find-put qs h)
  ]

  pub find-put_other :
      (what' : What) (key' : ℕ) (qs : List Request)
      → is_for what key r ≡ true
      → is_for what' key' r ≡ false
      → find_request what' key' (put_request what key r qs) ≡ find_request what' key' qs
  unfolding find_request put_request
  find-put_other what' key' [] h k = rw k refl
  find-put_other what' key' (q ∷ qs) h k = elim (Bool-cases (is_for what key q)) [
    | inl here ↦ rw (here, k, is_for_same what what' key key' q r here h, k) refl
    | inr elsewhere ↦ rw (elsewhere, find-put_other what' key' qs h k) refl
  ]

  pub waiting-put :
      (t : ℕ) (qs : List Request)
      → waiting t (put_request what key r qs) + of_state t (find_request what key qs).requestors
        ≡ waiting t qs + of_state t r.requestors
  unfolding waiting put_request find_request of_state
  waiting-put t [] = omega arith
  waiting-put t (q ∷ qs) = elim (Bool-cases (is_for what key q)) [
    | inl here ↦ rw here (omega arith)
    | inr elsewhere ↦ rw elsewhere (omega (arith, waiting-put t qs))
  ]

  pub All-put :
      (P : Request → Type 0) (qs : List Request)
      → P r
      → All P qs
      → All P (put_request what key r qs)
  unfolding put_request
  All-put P [] p h = (p, tt)
  All-put P (q ∷ qs) p h = elim (Bool-cases (is_for what key q)) [
    | inl here ↦ rw here (p, h.1)
    | inr elsewhere ↦ rw elsewhere (h.0, All-put P qs p h.1)
  ]

  pub put-IsTable :
      (qs : List Request)
      → is_for what key r ≡ true
      → IsTable qs
      → IsTable (put_request what key r qs)
  unfolding IsTable put_request
  put-IsTable [] h t = (tt, tt)
  put-IsTable (q ∷ qs) h t = elim (Bool-cases (is_for what key q)) [
    | inl here ↦
        let (wq, kq) = is_for-eq what key q here in
        let (wr, kr) = is_for-eq what key r h in rw (here, sym wr, sym kr, wq, kq) t
    | inr elsewhere ↦
        let (wr, kr) = is_for-eq what key r h in
        rw elsewhere (
          All-put (λ p. is_for q.what q.key p ≡ false) qs
              (is_for_sym q r ∙ rw (sym wr, sym kr) elsewhere) t.0,
          put-IsTable qs h t.1,
        )
  ]

-- With the answer as before, every key is answered as before.
pub answered-put :
    (what : What) (key : ℕ) (r : Request) (qs : List Request)
    → is_for what key r ≡ true
    → r.answered ≡ (find_request what key qs).answered
    → (w : What) (k : ℕ)
    → (find_request w k (put_request what key r qs)).answered ≡ (find_request w k qs).answered
answered-put what key r qs h e w k = elim (Bool-cases (is_for w k r)) [
  | inr other ↦ ap (λ (q : Request). q.answered) (find-put_other what key r w k qs h other)
  | inl same ↦
      let (we, ke) = is_for-eq w k r same in
      let (we', ke') = is_for-eq what key r h in
      rw (we ∙ sym we', ke ∙ sym ke')
        (ap (λ (q : Request). q.answered) (find-put what key r qs h) ∙ e)
]

pub All-find :
    (P : Request → Type 0) (what : What) (key : ℕ) (qs : List Request)
    → P (record {
      what = what;
      key = key;
      sent = false;
      answered = false;
      parent = none;
      requestors = [];
    })
    → All P qs
    → P (find_request what key qs)
unfolding find_request
All-find P what key [] d h = d
All-find P what key (q ∷ qs) d h = elim (Bool-cases (is_for what key q)) [
  | inl here ↦ rw here h.0
  | inr elsewhere ↦ rw elsewhere (All-find P what key qs d h.1)
]

pub found_nobody : (t : ℕ) (rs : List Requestor) → rs ≡ [] → 0 < of_state t rs → ⊥
unfolding of_state
found_nobody t [] e h = absurd (omega arith)
found_nobody t (r ∷ rs) e h = cc

find-Fresh :
    (q : Request) (qs : List Request) → Fresh q qs → (find_request q.what q.key qs).requestors ≡ []
unfolding find_request
find-Fresh q [] h = refl
find-Fresh q (p ∷ ps) h = rw h.0 (find-Fresh q ps h.1)

-- A walk that waits is among the requestors that its key finds.
pub find_waiting :
    (t : ℕ) (qs : List Request)
    → IsTable qs
    → 0 < waiting t qs
    → (what : What) × (key : ℕ) × (0 < of_state t (find_request what key qs).requestors)
unfolding waiting IsTable find_request
find_waiting t [] h w = absurd (omega arith)
find_waiting t (q ∷ qs) h w = elim (Bool-cases (ltb 0 (of_state t q.requestors))) [
  | inl here ↦ (q.what, q.key, rw (is_for_self q) (ground (arith, here)))
  | inr none_here ↦
      let (what, key, found) = find_waiting t qs h.1 (ground (arith, none_here)) in
      (
        what,
        key,
        elim (Bool-cases (is_for what key q)) [
          | inr other ↦ rw other found
          | inl same ↦
              let (we, ke) = is_for-eq what key q same in
              let no_one : (find_request what key qs).requestors ≡ [] =
                rw (we, ke) (find-Fresh q qs h.0) in
              absurd (found_nobody t (find_request what key qs).requestors no_one found)
        ],
      )
]
