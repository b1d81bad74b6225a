-- ===== src/Charm/Requests/Progress.antt =====
-- The messages that a PE handles while its walks go on, in any order.
use amt_bh_benchmark.Base.{
  ℕ, ◌+◌, ◌≤◌, ◌<◌, ◌≡◌, refl, sym, ap, subst, ◌∙◌, true, ltb, Option, none, some, List, [], ◌∷◌,
  ◌++◌, arith, Bool-cases, ◌⊎◌, inl, inr,
}
use amt_bh_benchmark.Base.Int.{pos}
use amt_bh_benchmark.Base.Real.{Real}
use amt_bh_benchmark.Charm.KeyBits.{get_depth_from_key}
use amt_bh_benchmark.Charm.Tree.{Particle, Node, Nodes, child, num_children}
use amt_bh_benchmark.Charm.GravityWalk.Returns.{ReturnsWith}
use amt_bh_benchmark.Charm.Requests.{
  What, nodes, particles, Requestor, Pe, find_request, has_requestors,
}
use amt_bh_benchmark.Charm.Requests.Fetched.{deserialize_all}
use amt_bh_benchmark.Charm.Requests.Handlers.{all_numbers, do_gravity, recv_node, recv_particles}
use amt_bh_benchmark.Charm.Requests.Table.{
  of_state, waiting, IsAsked, All-find, find_waiting, found_nobody,
}
use amt_bh_benchmark.Charm.Requests.Sound.{answered, AllSound}
use amt_bh_benchmark.Charm.Requests.Steady.{times, left, owed}
use amt_bh_benchmark.Charm.Requests.Steady.Gravity.{
  do_gravity-IsSteady, if_nothing-of_any, if_nothing-of_zero, if_any-of_any,
}
use amt_bh_benchmark.Charm.Requests.Steady.Receive.{Steady, IsDue, mark_answered}
use amt_bh_benchmark.Charm.Requests.Steady.Reply.{recv_node-IsSteady, recv_particles-IsSteady}

wanted_if_waiting : (t : ℕ) (rs : List Requestor) → 0 < of_state t rs → has_requestors rs ≡ true
unfolding of_state has_requestors
wanted_if_waiting t [] h = absurd (omega arith)
wanted_if_waiting t (r ∷ rs) h = refl

module _ {R : Type 0} (log_branch branch_factor my_pe : ℕ) (tp_counts : List ℕ) (n : ℕ)
    (real : Real R) (tolsq : R) (yield_period : ℕ) where
  -- What may arrive: a queued message of the PE's own, or the reply to a request that is due. The
  -- nodes of a reply are the children of the node that was asked for, in a sound tree, and none of
  -- them was answered before; a reply holds at least one particle, the positions not NaN.
  pub data Event (pe : Pe R) : Type 0 where
    go_on : (t : ℕ) (xs ys : List ℕ) → t < n → pe.scheduled ≡ xs ++ t ∷ ys → Event pe
    node_reply :
        (key depth : ℕ) (message : Nodes R) (m : Node R) (ms : Nodes R)
        → IsDue nodes key pe.requests
        → get_depth_from_key log_branch key ≡ pos depth
        → deserialize_all message ≡ some (child m ms)
        → num_children (child m ms) ≤ branch_factor
        → AllSound log_branch branch_factor my_pe tp_counts
            (mark_answered nodes key pe.requests)
            (depth + 1)
            (child m ms)
        → Event pe
    particle_reply :
        (key : ℕ) (p : Particle R) (ps : List (Particle R))
        → IsDue particles key pe.requests
        → all_numbers real (p ∷ ps) ≡ true
        → Event pe

  -- A message leaves the queue when it is handled.
  pub handle : (pe : Pe R) → Event pe → Option (Pe R)
  handle pe (go_on t xs ys low queue) =
      do_gravity real tolsq branch_factor yield_period my_pe tp_counts t
        (record pe { scheduled = xs ++ ys })
  handle pe (node_reply key depth message m ms due at read few new) =
      recv_node real tolsq branch_factor yield_period my_pe tp_counts key message pe
  handle pe (particle_reply key p ps due numbers) =
      recv_particles real tolsq branch_factor yield_period my_pe tp_counts key (p ∷ ps) pe

  pub data Reach (start : Pe R) : Pe R → Type 0 where
    here : Reach start start
    next :
        {pe pe' : Pe R} → Reach start pe → (e : Event pe) → handle pe e ≡ some pe' → Reach start pe'

  abbrev SteadyPe : Pe R → Type 0
  SteadyPe = Steady log_branch branch_factor my_pe tp_counts n

  -- On a steady PE every message is handled to its end, none of the assertions on the way fails,
  -- and the PE is steady again.
  pub handle-Returns :
      (pe : Pe R) → SteadyPe pe → (e : Event pe) → ReturnsWith SteadyPe (handle pe e)
  unfolding handle
  handle-Returns pe s (go_on t xs ys low queue) =
      do_gravity-IsSteady log_branch branch_factor my_pe tp_counts n real tolsq yield_period _ t pe
        xs ys low s queue
  handle-Returns pe s (node_reply key depth message m ms due at read few new) =
      recv_node-IsSteady log_branch branch_factor my_pe tp_counts n real tolsq yield_period key
        depth message m ms pe s due at read few new
  handle-Returns pe s (particle_reply key p ps due numbers) =
      recv_particles-IsSteady log_branch branch_factor my_pe tp_counts n real tolsq yield_period key
        p ps pe s due numbers

  pub Reach-IsSteady : (start pe : Pe R) → SteadyPe start → Reach start pe → SteadyPe pe
  Reach-IsSteady start _ s here = s
  Reach-IsSteady start _ s (next {pe} {pe'} r e h) =
      let (pe'', returns, s'') = handle-Returns pe (Reach-IsSteady start pe s r) e in
      subst SteadyPe (one_result (handle pe e) returns h) s''
    where
      of_some : Option (Pe R) → Pe R → Pe R
      of_some none d = d
      of_some (some x) d = x

      one_result : (o : Option (Pe R)) {a b : Pe R} → o ≡ some a → o ≡ some b → a ≡ b
      one_result o {a} h k = ap (λ x. of_some x a) (sym h ∙ k)

  -- What a State that is not done waits for.
  abbrev pub Ahead : ℕ → Pe R → Type 0
  Ahead t pe =
      (0 < times t pe.scheduled)
      ⊎ ((what : What) × (key : ℕ) × IsDue what key pe.requests
          × (0 < of_state t (find_request what key pe.requests).requestors))

  waits_for :
      (pe : Pe R) (t : ℕ)
      → SteadyPe pe
      → (what : What) (key : ℕ) → 0 < of_state t (find_request what key pe.requests).requestors
      → IsDue what key pe.requests
  waits_for pe t s what key found =
      let rs = (find_request what key pe.requests).requestors in
      let asked : IsAsked (find_request what key pe.requests) =
        All-find IsAsked what key pe.requests (tt, inr refl, λ e. cc) s.remote in
      record {
        wanted = wanted_if_waiting t rs found;
        was_sent = elim asked.1 [
          | inl sent ↦ sent
          | inr nobody ↦ absurd (found_nobody t rs nobody found)
        ];
        unanswered = elim (Bool-cases (answered what key pe.requests)) [
          | inr open_yet ↦ open_yet
          | inl came ↦ elim (s.idle what key came) [
            | inl nobody ↦ absurd (found_nobody t rs nobody found)
            | inr never ↦ absurd never
          ]
        ];
      }

  pub steady-Ahead :
      (pe : Pe R) (t : ℕ)
      → SteadyPe pe
      → t < n
      → (times t pe.completed ≡ 1) ⊎ ((times t pe.completed ≡ 0) × Ahead t pe)
  steady-Ahead pe t s low = elim (Bool-cases (ltb 0 (left t pe))) [
    | inl groups_left ↦
        let any : 0 < left t pe = ground (arith, groups_left) in
        inr (
          s.finished t low ∙ if_nothing-of_any (owed t pe) (omega (arith, any)),
          inl (omega (arith, s.queued t low, if_any-of_any (left t pe) any)),
        )
    | inr walked ↦ elim (Bool-cases (ltb 0 (waiting t pe.requests))) [
      | inl some_wait ↦
          let any : 0 < waiting t pe.requests = ground (arith, some_wait) in
          let (what, key, found) = find_waiting t pe.requests s.table any in
          inr (
            s.finished t low ∙ if_nothing-of_any (owed t pe) (omega (arith, any)),
            inr (what, key, waits_for pe t s what key found, found),
          )
      | inr none_wait ↦
          inl
            (s.finished t low ∙ if_nothing-of_zero (owed t pe) (ground (arith, walked, none_wait)))
    ]
  ]
