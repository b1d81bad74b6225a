-- ===== src/Charm/Requests/Steady/Receive.antt =====
-- recvNode and recvParticles return, and keep the counters.
use amt_bh_benchmark.Base.{
  ℕ, ◌≡◌, refl, sym, ap, subst, All, ◌∙◌, true, false, ◌==◌, some, List, [], arith, Bool-cases, ◌⊎◌,
  inl, inr,
}
use amt_bh_benchmark.Base.Int.{pos}
use amt_bh_benchmark.Charm.Tree.{Node}
use amt_bh_benchmark.Charm.Requests.{
  fits_parent, What, same_what, Request, Pe, is_for, find_request, put_request, has_requestors,
}
use amt_bh_benchmark.Charm.Requests.Handlers.{answer}
use amt_bh_benchmark.Charm.Requests.Asked.{put-AsksOnce}
use amt_bh_benchmark.Charm.Requests.Table.{
  waiting, IsAsked, is_for-eq, find-is_for, find-put, find-put_other, waiting-put, All-put,
  put-IsTable, All-find,
}
use amt_bh_benchmark.Charm.Requests.Sound.{answered, IsSound}
use amt_bh_benchmark.Charm.Requests.Steady.{if_nothing, left, IsSteadyBut}
use amt_bh_benchmark.Charm.Requests.Steady.Delivery.{Delivering}

-- No walk waits for an answer that came.
abbrev pub Nothing : What → ℕ → Type 0
Nothing what key = ⊥

-- A reply is due: the request was sent, and walks wait for it.
pub record IsDue (what : What) (key : ℕ) (qs : List Request) : Type 0 where
  pub wanted : has_requestors (find_request what key qs).requestors ≡ true
  pub was_sent : (find_request what key qs).sent ≡ true
  pub unanswered : answered what key qs ≡ false

-- The table once the reply is there.
unfoldable pub mark_answered : What → ℕ → List Request → List Request
mark_answered what key qs =
    let q : Request = find_request what key qs in
    put_request what key (record q { answered = true }) qs

pub answer-eq :
    {R : Type 0} (what : What) (key : ℕ) (pe : Pe R)
    → IsDue what key pe.requests
    → All IsAsked pe.requests
    → answer what key pe ≡ some (record pe { requests = mark_answered what key pe.requests })
unfolding answer mark_answered
answer-eq what key pe due remote =
    let asked = All-find IsAsked what key pe.requests (tt, inr refl, λ e. cc) remote in
    let is_for_what = is_for-eq what key _ (find-is_for what key pe.requests) in
    let fits : fits_parent what (find_request what key pe.requests).parent ≡ true =
      subst (λ w. fits_parent w (find_request what key pe.requests).parent ≡ true)
        (sym is_for_what.0) (asked.2 due.was_sent) in
    rw (due.wanted, due.was_sent, due.unanswered, fits) refl

module _ (what : What) (key : ℕ) (qs : List Request) where
  abbrev marked : Request
  marked = let q : Request = find_request what key qs in record q { answered = true }

  marked-is_for : is_for what key marked ≡ true
  unfolding is_for
  marked-is_for = find-is_for what key qs

  pub mark-here : answered what key (mark_answered what key qs) ≡ true
  unfolding mark_answered
  mark-here = ap (λ (q : Request). q.answered) (find-put what key marked qs marked-is_for)

  pub mark-other :
      (w : What) (k : ℕ)
      → is_for w k marked ≡ false
      → find_request w k (mark_answered what key qs) ≡ find_request w k qs
  unfolding mark_answered
  mark-other w k other = find-put_other what key marked w k qs marked-is_for other

  of_another_key : (w : What) (k : ℕ) → (k == key) ≡ false → is_for w k marked ≡ false
  of_another_key w k other = elim (Bool-cases (is_for w k marked)) [
    | inr differs ↦ differs
    | inl same ↦
        let (we, ke) = is_for-eq w k marked same in
        let (we', ke') = is_for-eq what key marked marked-is_for in
        absurd (ground (arith, ke, ke', other))
  ]

  of_another_table : (w : What) (k : ℕ) → same_what w what ≡ false → is_for w k marked ≡ false
  unfolding is_for
  of_another_table w k other =
      let (we', ke') = is_for-eq what key marked marked-is_for in
      let eq : same_what w (find_request what key qs).what ≡ false = rw (← we') other in rw eq refl

  pub mark-waiting : (t : ℕ) → waiting t (mark_answered what key qs) ≡ waiting t qs
  unfolding mark_answered
  mark-waiting t = omega (arith, waiting-put what key marked t qs)

  pub answered-other :
      (w : What) (k : ℕ)
      → (k == key) ≡ false
      → answered w k (mark_answered what key qs) ≡ answered w k qs
  answered-other w k other =
      ap (λ (q : Request). q.answered) (mark-other w k (of_another_key w k other))

  pub answered-other_table :
      (w : What) (k : ℕ)
      → same_what w what ≡ false
      → answered w k (mark_answered what key qs) ≡ answered w k qs
  answered-other_table w k other =
      ap (λ (q : Request). q.answered) (mark-other w k (of_another_table w k other))

module _ {R : Type 0} (log_branch branch_factor my_pe : ℕ) (tp_counts : List ℕ) (n : ℕ) where
  abbrev pub Steady : Pe R → Type 0
  Steady = IsSteadyBut log_branch branch_factor my_pe tp_counts n Nothing

  -- The reply is marked and attached, and its requestors still wait.
  pub answered-IsSteady :
      (what : What) (key : ℕ) (pe : Pe R) (root : Node R)
      → Steady pe
      → IsSound log_branch branch_factor my_pe tp_counts (mark_answered what key pe.requests) 0 root
      → IsSteadyBut log_branch branch_factor my_pe tp_counts n
          (Delivering what key)
          (record pe { requests = mark_answered what key pe.requests; root = root })
  unfolding left mark_answered
  answered-IsSteady what key pe root s sound =
      let qs = pe.requests in
      record {
        counted = λ t low any.
            s.counted t low (omega (arith, any, mark-waiting what key qs t))
            ∙ ap pos (omega (arith, mark-waiting what key qs t));
        finished =
            λ t low. s.finished t low ∙ ap if_nothing (omega (arith, mark-waiting what key qs t));
        queued = s.queued;
        table = put-IsTable what key (marked what key qs) qs (marked-is_for what key qs) s.table;
        remote =
            All-put what key (marked what key qs) IsAsked qs
              (All-find IsAsked what key qs (tt, inr refl, λ e. cc) s.remote) s.remote;
        asks_once =
            put-AsksOnce what key (marked what key qs) qs (marked-is_for what key qs) pe.outbox refl
              s.asks_once;
        idle = λ w k h. elim (Bool-cases (is_for w k (marked what key qs))) [
          | inl same ↦
              let (we, ke) = is_for-eq w k (marked what key qs) same in
              let (we', ke') =
                is_for-eq what key (marked what key qs) (marked-is_for what key qs) in
              inr (we ∙ sym we', ke ∙ sym ke')
          | inr other ↦
              let stays = mark-other what key qs w k other in
              rw stays (back (s.idle w k (sym (ap (λ (q : Request). q.answered) stays) ∙ h)))
        ];
        sound = sound;
      }
    where
      back : {P : Type 0} {Q : Type 0} → P ⊎ ⊥ → P ⊎ Q
      back (inl p) = inl p
      back (inr q) = absurd q

  pub delivered-IsSteady :
      (what : What) (key : ℕ) (pe : Pe R)
      → IsSteadyBut log_branch branch_factor my_pe tp_counts n (Delivering what key) pe
      → (find_request what key pe.requests).requestors ≡ []
      → Steady pe
  delivered-IsSteady what key pe s all = record {
    counted = s.counted;
    finished = s.finished;
    queued = s.queued;
    table = s.table;
    remote = s.remote;
    asks_once = s.asks_once;
    idle = λ w k h. elim (s.idle w k h) [
      | inl nobody ↦ inl nobody
      | inr here ↦ inl (rw (here.0, here.1) all)
    ];
    sound = s.sound;
  }
