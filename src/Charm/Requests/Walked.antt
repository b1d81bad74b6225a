-- ===== src/Charm/Requests/Walked.antt =====
-- What a walk for one State changes on the PE: it raises `pending` by one for each requestor that it
-- files, asks for a key once, and leaves the requests that are answered as they are.
use amt_bh_benchmark.Base.{
  ℕ, ◌+◌, ◌≡◌, ◌≢◌, refl, sym, ap, subst, ◌∙◌, some, if◌then◌else◌, true, false, ◌==◌, [], ◌∷◌,
  ◌++◌, All, All-append, arith, Bool-cases, inl, inr,
}
use amt_bh_benchmark.Base.Int.{ℤ, pos, negsuc, ◌+ℤ◌}
use amt_bh_benchmark.Charm.Ownership.{NodeType}
use amt_bh_benchmark.Charm.Requests.{
  What, Requestor, Request, State, Source, Pe, is_for, find_request, put_request, is_local,
  set_state, incr_pending, file_request, fits_parent,
}
use amt_bh_benchmark.Charm.Requests.Asked.{AsksOnce, file-AsksOnce}
use amt_bh_benchmark.Charm.Requests.Table.{
  of_state, waiting, IsTable, IsAsked, of_state-append, is_for-eq, find-is_for, find-put,
  find-put_other, waiting-put, All-put, put-IsTable, All-find,
}

module _ {R : Type 0} (t : ℕ) where
  pub record Walked (base pe : Pe R) : Type 0 where
    pub more : ℕ
    pub same_root : pe.root ≡ base.root
    pub same_scheduled : pe.scheduled ≡ base.scheduled
    pub same_completed : pe.completed ≡ base.completed
    pub same_groups : pe.walk_groups ≡ base.walk_groups
    pub same_current : (u : ℕ) → (pe.states u).current ≡ (base.states u).current
    pub pending_own : (pe.states t).pending ≡ (base.states t).pending +ℤ pos more
    pub pending_others : (u : ℕ) → u ≢ t → (pe.states u).pending ≡ (base.states u).pending
    pub waiting_own : waiting t pe.requests ≡ waiting t base.requests + more
    pub waiting_others : (u : ℕ) → u ≢ t → waiting u pe.requests ≡ waiting u base.requests
    pub table : IsTable pe.requests
    pub remote : All IsAsked pe.requests
    pub same_answered :
        (what : What) (key : ℕ)
        → (find_request what key pe.requests).answered
          ≡ (find_request what key base.requests).answered
    pub asks_once : AsksOnce base.requests base.outbox → AsksOnce pe.requests pe.outbox
    pub answered_kept :
        (what : What) (key : ℕ)
        → (find_request what key base.requests).answered ≡ true
        → find_request what key pe.requests ≡ find_request what key base.requests

add_zero : (a : ℤ) → a +ℤ pos 0 ≡ a
unfolding ◌+ℤ◌
add_zero (pos n) = ground arith
add_zero (negsuc n) = ground arith

add_one : (a : ℤ) (m : ℕ) → (a +ℤ pos m) +ℤ pos 1 ≡ a +ℤ pos (m + 1)
unfolding ◌+ℤ◌
add_one (pos n) m = ground arith
add_one (negsuc n) m = ground arith

module _ {R : Type 0} (t : ℕ) (s : State) (pe : Pe R) where
  pub set_state_own : (set_state t s pe).states t ≡ s
  unfolding set_state
  set_state_own = elim (Bool-cases (t == t)) [
    | inl same ↦ rw same refl
    | inr other ↦ absurd (ground (arith, other))
  ]

  pub set_state_others : (u : ℕ) → u ≢ t → (set_state t s pe).states u ≡ pe.states u
  unfolding set_state
  set_state_others u other = elim (Bool-cases (u == t)) [
    | inl same ↦ absurd (other (ground (arith, same)))
    | inr differs ↦ rw differs refl
  ]

module _ {R : Type 0} (t : ℕ) (base : Pe R) where
  pub Walked-start : IsTable base.requests → All IsAsked base.requests → Walked t base base
  Walked-start table remote = record {
    more = 0;
    same_root = refl;
    same_scheduled = refl;
    same_completed = refl;
    same_groups = refl;
    same_current = λ u. refl;
    pending_own = sym (add_zero (base.states t).pending);
    pending_others = λ u h. refl;
    waiting_own = omega arith;
    waiting_others = λ u h. refl;
    table = table;
    remote = remote;
    same_answered = λ what key. refl;
    asks_once = λ h. h;
    answered_kept = λ what key h. refl;
  }

  pub Walked-add_source :
      (x : Source R) (pe : Pe R)
      → Walked t base pe
      → Walked t base (record pe { sources = x ∷ pe.sources })
  Walked-add_source x pe h = record {
    more = h.more;
    same_root = h.same_root;
    same_scheduled = h.same_scheduled;
    same_completed = h.same_completed;
    same_groups = h.same_groups;
    same_current = h.same_current;
    pending_own = h.pending_own;
    pending_others = h.pending_others;
    waiting_own = h.waiting_own;
    waiting_others = h.waiting_others;
    table = h.table;
    remote = h.remote;
    same_answered = h.same_answered;
    asks_once = h.asks_once;
    answered_kept = h.answered_kept;
  }

  -- The entry that file_request puts back.
  module _ (what : What) (key owner : ℕ) (ty : NodeType) (r : Requestor) (pe : Pe R)
      (h : Walked t base pe) (mine : r.state ≡ t) (odd : is_local t ≡ false)
      (fits : fits_parent what (some ty) ≡ true)
      (open_key : (find_request what key base.requests).answered ≡ false) where
    abbrev filed : Request
    filed =
        let q = find_request what key pe.requests in
        record q {
          sent = true;
          parent = if q.sent then q.parent else some ty;
          requestors = q.requestors ++ r ∷ [];
        }

    filed-is_for : is_for what key filed ≡ true
    unfolding is_for
    filed-is_for = find-is_for what key pe.requests

    found_asked : IsAsked (find_request what key pe.requests)
    found_asked = All-find IsAsked what key pe.requests (tt, inr refl, λ e. cc) h.remote

    filed_fits : fits_parent filed.what filed.parent ≡ true
    filed_fits = elim (Bool-cases (find_request what key pe.requests).sent) [
      | inl sent ↦ rw sent (found_asked.2 sent)
      | inr first ↦
          let (we, ke) = is_for-eq what key filed filed-is_for in
          rw first (subst (λ w. fits_parent w (some ty) ≡ true) we fits)
    ]

    waiting-filed :
        (u : ℕ)
        → waiting u (put_request what key filed pe.requests)
          ≡ waiting u pe.requests + of_state u (r ∷ [])
    waiting-filed u = omega (
      arith,
      waiting-put what key filed u pe.requests,
      of_state-append u (find_request what key pe.requests).requestors (r ∷ []),
    )

    -- Another key's entry stays, and this key's is as answered as before.
    filed_answered :
        (w : What) (k : ℕ)
        → (find_request w k (put_request what key filed pe.requests)).answered
          ≡ (find_request w k base.requests).answered
    filed_answered w k = elim (Bool-cases (is_for w k filed)) [
      | inr other ↦
          ap (λ (q : Request). q.answered)
            (find-put_other what key filed w k pe.requests filed-is_for other)
          ∙ h.same_answered w k
      | inl same ↦
          let (we, ke) = is_for-eq w k filed same in
          let (we', ke') = is_for-eq what key filed filed-is_for in
          rw (we ∙ sym we', ke ∙ sym ke')
            (ap (λ (q : Request). q.answered) (find-put what key filed pe.requests filed-is_for)
              ∙ h.same_answered what key)
    ]

    filed_kept :
        (w : What) (k : ℕ)
        → (find_request w k base.requests).answered ≡ true
        → find_request w k (put_request what key filed pe.requests) ≡ find_request w k base.requests
    filed_kept w k yes_answered = elim (Bool-cases (is_for w k filed)) [
      | inr other ↦
          find-put_other what key filed w k pe.requests filed-is_for other
          ∙ h.answered_kept w k yes_answered
      | inl same ↦
          let (we, ke) = is_for-eq w k filed same in
          let (we', ke') = is_for-eq what key filed filed-is_for in
          let clash : (find_request what key base.requests).answered ≡ true =
            rw (we' ∙ sym we, ke' ∙ sym ke) yes_answered in
          absurd (ground (arith, clash, open_key))
    ]

    set_current : (u : ℕ) → ((incr_pending t pe).states u).current ≡ (base.states u).current
    unfolding incr_pending set_state
    set_current u = elim (Bool-cases (u == t)) [
      | inl same ↦
          rw same (ap (λ v. (pe.states v).current) (ground (arith, same)) ∙ h.same_current u)
      | inr other ↦ rw other (h.same_current u)
    ]

    pub Walked-file : Walked t base (file_request what key owner ty r (incr_pending t pe))
    unfolding file_request incr_pending of_state set_state
    Walked-file = record {
      more = h.more + 1;
      same_root = h.same_root;
      same_scheduled = h.same_scheduled;
      same_completed = h.same_completed;
      same_groups = h.same_groups;
      same_current = λ u. set_current u;
      pending_own =
          ap (λ (x : State). x.pending) (set_state_own t _ pe)
          ∙ ap (λ z. z +ℤ pos 1) h.pending_own
          ∙ add_one (base.states t).pending h.more;
      pending_others = λ u other.
          ap (λ (x : State). x.pending) (set_state_others t _ pe u other)
          ∙ h.pending_others u other;
      waiting_own = waiting-filed t ∙ rw (h.waiting_own) (ground (arith, mine));
      waiting_others =
          λ u other. waiting-filed u ∙ rw (h.waiting_others u other) (ground (arith, mine));
      table = put-IsTable what key filed pe.requests filed-is_for h.table;
      remote =
          All-put what key filed IsAsked pe.requests
            (
              All-append (λ (x : Requestor). is_local x.state ≡ false)
                  (find_request what key pe.requests).requestors (r ∷ []) found_asked.0
                  (rw mine odd, tt),
              inl refl,
              λ e. filed_fits,
            )
            h.remote;
      same_answered = filed_answered;
      asks_once = λ o.
          file-AsksOnce what key filed pe.requests filed-is_for owner pe.outbox refl
            (h.asks_once o);
      answered_kept = filed_kept;
    }
