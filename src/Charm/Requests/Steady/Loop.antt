-- ===== src/Charm/Requests/Steady/Loop.antt =====
-- Every requestor of an answer is resumed.
use amt_bh_benchmark.Base.{
  ℕ, ◌≡◌, refl, sym, ap, subst, ◌∙◌, true, Option, List, [], ◌∷◌, length, All,
}
use amt_bh_benchmark.Charm.GravityWalk.Returns.{ReturnsWith, and_go_on-ReturnsWith}
use amt_bh_benchmark.Charm.Requests.{
  set_state, What, Requestor, Request, Pe, find_request, decr_pending, set_state,
}
use amt_bh_benchmark.Charm.Requests.Handlers.{
  finish_if_complete, set_requestors, deliver_loop, deliver,
}
use amt_bh_benchmark.Charm.Requests.Table.{IsTable, IsAsked, find-put}
use amt_bh_benchmark.Charm.Requests.Walked.{Walked}
use amt_bh_benchmark.Charm.Requests.Sound.{answered}
use amt_bh_benchmark.Charm.Requests.Sound.Same.{SameAnswers}
use amt_bh_benchmark.Charm.Requests.Steady.{
  if_any, left, IsBusy, Walked-IsBusy, IsBusy-decr, left-same, decr-current,
}
use amt_bh_benchmark.Charm.Requests.Steady.Delivery.{
  Delivering, Steady, popped, popped-is_for, popped_answers, parted, pop-IsBusy,
  finish_if_complete-IsSteady, same_requests,
}

-- What a resumed walk needs of the requests, besides the table.
pub record Extra (Needs : List Request → Type 0) : Type 0 where
  pub stays : (qs qs' : List Request) → SameAnswers qs qs' → Needs qs → Needs qs'

module _ {R : Type 0} (log_branch branch_factor my_pe : ℕ) (tp_counts : List ℕ) (n : ℕ)
    (what : What) (key : ℕ) (Needs : List Request → Type 0) (extra : Extra Needs)
    (resume : Requestor → Pe R → Option (Pe R))
    (resumes : (r : Requestor) (pe : Pe R)
      → IsTable pe.requests
      → All IsAsked pe.requests
      → Needs pe.requests
      → ReturnsWith (Walked r.state pe) (resume r pe)) where
  abbrev SteadyHere : Pe R → Type 0
  SteadyHere = Steady log_branch branch_factor my_pe tp_counts n what key

  abbrev Delivered : Pe R → Type 0
  Delivered pe = SteadyHere pe × ((find_request what key pe.requests).requestors ≡ [])

  resumed-IsSteady :
      (r : Requestor) (rs : List Requestor) (pe : Pe R) (s : SteadyHere pe)
      → (find_request what key pe.requests).requestors ≡ r ∷ rs
      → (pe' : Pe R) → Walked r.state (set_requestors what key rs pe) pe'
      → SteadyHere (finish_if_complete r.state (decr_pending r.state 1 pe'))
  unfolding left set_requestors decr_pending set_state
  resumed-IsSteady r rs pe s first pe' w =
      let t = r.state in
      let k = if_any (left t pe) in
      let b : IsBusy log_branch branch_factor my_pe tp_counts n (Delivering what key) t 0 k
          (decr_pending t 1 pe') =
        IsBusy-decr log_branch branch_factor my_pe tp_counts n (Delivering what key) t 1 k pe' (
          Walked-IsBusy log_branch branch_factor my_pe tp_counts n (Delivering what key) t 1 k
            (set_requestors what key rs pe) pe'
            (pop-IsBusy log_branch branch_factor my_pe tp_counts n what key r rs pe s first) w) in
      let same_left : left t pe ≡ left t (decr_pending t 1 pe') = sym (
        left-same t pe (decr_pending t 1 pe') w.same_groups
          (decr-current t 1 pe' t ∙ w.same_current t)) in
      finish_if_complete-IsSteady log_branch branch_factor my_pe tp_counts n what key t
        (decr_pending t 1 pe')
        (parted log_branch branch_factor my_pe tp_counts n what key r rs pe s first).0
        (subst
          (λ j.
            IsBusy log_branch branch_factor my_pe tp_counts n (Delivering what key) t 0 j
              (decr_pending t 1 pe'))
          (ap if_any same_left) b)

  deliver_loop-Returns :
      (rs : List Requestor) (pe : Pe R)
      → SteadyHere pe
      → (find_request what key pe.requests).requestors ≡ rs
      → answered what key pe.requests ≡ true
      → Needs pe.requests
      → ReturnsWith Delivered (deliver_loop (length rs) what key resume rs pe)
  unfolding deliver_loop set_requestors
  deliver_loop-Returns [] pe s all a h = (pe, refl, (s, all))
  deliver_loop-Returns (r ∷ rs) pe s first a h =
      let pe1 = set_requestors what key rs pe in
      let x : Request =
        popped log_branch branch_factor my_pe tp_counts n what key r rs pe s first in
      let same : SameAnswers pe.requests pe1.requests =
        popped_answers log_branch branch_factor my_pe tp_counts n what key r rs pe s first in
      let b = pop-IsBusy log_branch branch_factor my_pe tp_counts n what key r rs pe s first in
      let h1 : Needs pe1.requests = extra.stays pe.requests pe1.requests same h in
      and_go_on-ReturnsWith {P = Walked r.state pe1} {Q = Delivered} _ _
        (resumes r pe1 b.table b.remote h1)
        (λ pe' w.
          let pe'' = finish_if_complete r.state (decr_pending r.state 1 pe') in
          let requests_stay : pe''.requests ≡ pe'.requests =
            same_requests log_branch branch_factor my_pe tp_counts n what key r.state 1 pe' in
          let kept : find_request what key pe''.requests ≡ find_request what key pe1.requests =
            ap (find_request what key) requests_stay
            ∙ w.answered_kept what key (same what key ∙ a) in
          let rest : (find_request what key pe''.requests).requestors ≡ rs =
            ap (λ (q : Request). q.requestors)
              (kept
                ∙ find-put what key x pe.requests (
                    popped-is_for log_branch branch_factor my_pe tp_counts n what key r rs pe s
                      first)) in
          rw rest (
            deliver_loop-Returns rs pe'' (resumed-IsSteady r rs pe s first pe' w) rest
              (ap (λ (q : Request). q.answered) kept ∙ same what key ∙ a)
              (extra.stays pe1.requests pe''.requests
                (λ v k. ap (answered v k) requests_stay ∙ w.same_answered v k) h1)))

  pub deliver-Returns :
      (pe : Pe R)
      → SteadyHere pe
      → answered what key pe.requests ≡ true
      → Needs pe.requests
      → ReturnsWith Delivered (deliver what key resume pe)
  unfolding deliver
  deliver-Returns pe s a h = deliver_loop-Returns _ pe s refl a h
