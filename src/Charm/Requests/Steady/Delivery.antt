-- ===== src/Charm/Requests/Steady/Delivery.antt =====
-- The loop over the requestors of an answer returns, and keeps the counters.
use amt_bh_benchmark.Base.{
  ℕ, suc, ◌+◌, ◌<◌, ◌≡◌, ◌≢◌, refl, sym, ap, subst, ◌∙◌, true, false, ◌==◌, List, [], ◌∷◌, All,
  arith, Bool-cases, ◌⊎◌, inl, inr,
}
use amt_bh_benchmark.Base.Int.{pos}
use amt_bh_benchmark.Charm.Requests.{
  What, Requestor, Request, Pe, is_for, find_request, put_request, is_local, complete, gravity_done,
  decr_pending, set_state,
}
use amt_bh_benchmark.Charm.Requests.Handlers.{worker_done, finish_if_complete, set_requestors}
use amt_bh_benchmark.Charm.Requests.Asked.{put-AsksOnce}
use amt_bh_benchmark.Charm.Requests.Table.{
  of_state, waiting, IsAsked, is_for-eq, find-is_for, find-put_other, waiting-put, All-put,
  put-IsTable, answered-put, All-find,
}
use amt_bh_benchmark.Charm.Requests.Sound.Same.{SameAnswers, IsSound-same}
use amt_bh_benchmark.Charm.Requests.Steady.{
  if_nothing, if_any, left, owed, IsSteadyBut, IsBusy, IsBusy-settle,
}
use amt_bh_benchmark.Charm.Requests.Steady.Gravity.{
  times-push, times-push_other, complete_when_zero, incomplete_when_any, if_nothing-of_zero,
  if_nothing-of_any,
}

of_state-own :
    (r : Requestor) (rs : List Requestor) → of_state r.state (r ∷ rs) ≡ of_state r.state rs + 1
unfolding of_state
of_state-own r rs = ground arith

of_state-other :
    (u : ℕ) (r : Requestor) (rs : List Requestor)
    → u ≢ r.state
    → of_state u (r ∷ rs) ≡ of_state u rs
unfolding of_state
of_state-other u r rs other = elim (Bool-cases (r.state == u)) [
  | inl same ↦ absurd (other (ground (arith, same)))
  | inr differs ↦ rw differs refl
]

-- The key whose answer is being delivered.
abbrev pub Delivering : What → ℕ → What → ℕ → Type 0
Delivering what key w k = (w ≡ what) × (k ≡ key)

module _ {R : Type 0} (log_branch branch_factor my_pe : ℕ) (tp_counts : List ℕ) (n : ℕ)
    (what : What) (key : ℕ) where
  abbrev pub Steady : Pe R → Type 0
  Steady = IsSteadyBut log_branch branch_factor my_pe tp_counts n (Delivering what key)

  abbrev pub Busy : ℕ → ℕ → ℕ → Pe R → Type 0
  Busy = IsBusy log_branch branch_factor my_pe tp_counts n (Delivering what key)

  module _ (r : Requestor) (rs : List Requestor) (pe : Pe R) (s : Steady pe)
      (first : (find_request what key pe.requests).requestors ≡ r ∷ rs) where
    abbrev pub popped : Request
    popped = let q = find_request what key pe.requests in record q { requestors = rs }

    pub popped-is_for : is_for what key popped ≡ true
    unfolding is_for
    popped-is_for = find-is_for what key pe.requests

    waiting-popped :
        (u : ℕ)
        → waiting u (put_request what key popped pe.requests) + of_state u (r ∷ rs)
          ≡ waiting u pe.requests + of_state u rs
    waiting-popped u =
        let eq : waiting u (put_request what key popped pe.requests)
              + of_state u (find_request what key pe.requests).requestors
            ≡ waiting u pe.requests + of_state u rs =
          waiting-put what key popped u pe.requests in
        rw first at eq

    pub popped_answers : SameAnswers pe.requests (put_request what key popped pe.requests)
    popped_answers = answered-put what key popped pe.requests popped-is_for refl

    all_remote : IsAsked (find_request what key pe.requests)
    all_remote = All-find IsAsked what key pe.requests (tt, inr refl, λ e. cc) s.remote

    pub parted : (is_local r.state ≡ false) × All (λ (x : Requestor). is_local x.state ≡ false) rs
    parted = subst (All (λ (x : Requestor). is_local x.state ≡ false)) first all_remote.0

    still_sent : ((find_request what key pe.requests).sent ≡ true) ⊎ (rs ≡ [])
    still_sent = elim all_remote.1 [ inl sent ↦ inl sent | inr nobody ↦ absurd (cc) ]

    first_waits : 0 < waiting r.state pe.requests
    first_waits = omega (arith, waiting-popped r.state, of_state-own r rs)

    pub pop-IsBusy : Busy r.state 1 (if_any (left r.state pe)) (set_requestors what key rs pe)
    unfolding set_requestors left
    pop-IsBusy = record {
      counted_own = λ low.
          s.counted r.state low (omega (arith, first_waits))
          ∙ ap pos (omega (arith, waiting-popped r.state, of_state-own r rs));
      counted = λ u low other any.
          s.counted u low (omega (arith, any, waiting-popped u, of_state-other u r rs other))
          ∙ ap pos (omega (arith, waiting-popped u, of_state-other u r rs other));
      unfinished = λ low.
          s.finished r.state low ∙ if_nothing-of_any (owed r.state pe) (omega (arith, first_waits));
      finished = λ u low other.
          s.finished u low
          ∙ ap if_nothing (omega (arith, waiting-popped u, of_state-other u r rs other));
      queued_own = λ low. s.queued r.state low;
      queued = λ u low other. s.queued u low;
      table = put-IsTable what key popped pe.requests popped-is_for s.table;
      remote =
          All-put what key popped IsAsked pe.requests (parted.1, still_sent, all_remote.2) s.remote;
      asks_once = put-AsksOnce what key popped pe.requests popped-is_for pe.outbox refl s.asks_once;
      idle = λ w k h. elim (Bool-cases (is_for w k popped)) [
        | inl same ↦
            let (we, ke) = is_for-eq w k popped same in
            let (we', ke') = is_for-eq what key popped popped-is_for in
            inr (we ∙ sym we', ke ∙ sym ke')
        | inr other ↦
            rw (find-put_other what key popped w k pe.requests popped-is_for other)
              (s.idle w k (sym (popped_answers w k) ∙ h))
      ];
      sound =
          IsSound-same log_branch branch_factor my_pe tp_counts pe.requests
            (put_request what key popped pe.requests) 0 pe.root popped_answers s.sound;
    }

  -- if(state->decrPending()) worker->done(), for a remote walk.
  pub finish_if_complete-IsSteady :
      (t : ℕ) (pe : Pe R)
      → is_local t ≡ false
      → Busy t 0 (if_any (left t pe)) pe
      → Steady (finish_if_complete t pe)
  unfolding finish_if_complete worker_done gravity_done
  finish_if_complete-IsSteady t pe odd b =
      let total : t < n → (pe.states t).pending ≡ pos (owed t pe) =
        λ low. b.counted_own low ∙ ap pos (omega arith) in
      elim (Bool-cases (complete (pe.states t))) [
        | inl done ↦
            rw (done, odd)
              (IsBusy-settle log_branch branch_factor my_pe tp_counts n (Delivering what key) t _ pe
                pe.scheduled (t ∷ pe.completed) b
                (λ low.
                  times-push t pe.completed
                  ∙ ap suc (b.unfinished low)
                  ∙ sym
                      (if_nothing-of_zero _ (complete_when_zero (pe.states t) _ (total low) done)))
                b.queued_own (λ u other. times-push_other t u pe.completed other) (λ u other. refl))
        | inr not_done ↦ rw not_done (
            IsBusy-settle log_branch branch_factor my_pe tp_counts n (Delivering what key) t _ pe
              pe.scheduled pe.completed b
              (λ low.
                b.unfinished low
                ∙ sym (
                    if_nothing-of_any _ (incomplete_when_any (pe.states t) _ (total low) not_done)))
              b.queued_own (λ u other. refl) (λ u other. refl))
      ]

  pub same_requests :
      (t extra : ℕ) (pe : Pe R)
      → (finish_if_complete t (decr_pending t extra pe)).requests ≡ pe.requests
  unfolding finish_if_complete worker_done gravity_done decr_pending set_state
  same_requests t extra pe = elim (Bool-cases (complete ((decr_pending t extra pe).states t))) [
    | inr not_done ↦ rw not_done refl
    | inl done ↦ elim (Bool-cases (is_local t)) [
      | inl even ↦ rw (done, even) refl
      | inr odd ↦ rw (done, odd) refl
    ]
  ]
