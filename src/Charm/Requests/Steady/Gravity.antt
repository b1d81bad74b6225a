-- ===== src/Charm/Requests/Steady/Gravity.antt =====
-- doLocalGravity and doRemoteGravity return, and keep the counters.
use amt_bh_benchmark.Base.{
  ℕ, zero, suc, ◌+◌, ◌<◌, ◌≡◌, ◌≢◌, refl, sym, ap, subst, ◌∙◌, true, false, ◌&&◌, ltb, ◌==◌, List,
  [], ◌∷◌, ◌++◌, length, get_or, range_from, arith, Bool-cases, inl, inr,
}
use amt_bh_benchmark.Base.Int.{pos, eqb_ℤ}
use amt_bh_benchmark.Base.Real.{Real}
use amt_bh_benchmark.Charm.GravityWalk.Returns.{ReturnsWith, and_go_on-ReturnsWith}
use amt_bh_benchmark.Charm.Requests.{
  What, State, Pe, set_state, complete, gravity_done, decr_pending,
}
use amt_bh_benchmark.Charm.Requests.Handlers.{
  next_group, walk_groups_loop, after_groups, do_gravity,
}
use amt_bh_benchmark.Charm.Requests.Walked.{Walked, Walked-start, set_state_own, set_state_others}
use amt_bh_benchmark.Charm.Requests.Sound.{walk_from-Returns}
use amt_bh_benchmark.Charm.Requests.Steady.{
  times, if_nothing, if_any, left, owed, IsSteadyBut, IsBusy, Walked-IsBusy, IsBusy-start,
  IsBusy-settle, IsBusy-decr,
}

pub times-append : (t : ℕ) (xs ys : List ℕ) → times t (xs ++ ys) ≡ times t xs + times t ys
unfolding times
times-append t [] ys = omega arith
times-append t (x ∷ xs) ys = ground (arith, times-append t xs ys)

pub times-push : (t : ℕ) (us : List ℕ) → times t (t ∷ us) ≡ suc (times t us)
unfolding times
times-push t us = ground arith

pub times-push_other : (t u : ℕ) (us : List ℕ) → u ≢ t → times u (t ∷ us) ≡ times u us
unfolding times
times-push_other t u us other = elim (Bool-cases (t == u)) [
  | inl same ↦ absurd (other (ground (arith, same)))
  | inr differs ↦ rw differs refl
]

any-of_if_any : (m : ℕ) → 0 < if_any m → 0 < m
unfolding if_any
any-of_if_any zero h = absurd (omega arith)
any-of_if_any (suc m) h = omega arith

pub times-own : (t : ℕ) → times t (t ∷ []) ≡ 1
unfolding times
times-own t = ground arith

pub times-other : (t u : ℕ) → u ≢ t → times u (t ∷ []) ≡ 0
unfolding times
times-other t u other = elim (Bool-cases (t == u)) [
  | inl same ↦ absurd (other (ground (arith, same)))
  | inr differs ↦ rw differs refl
]

pub times-without :
    (t u : ℕ) (xs ys : List ℕ) → times u (xs ++ t ∷ ys) ≡ times u (t ∷ []) + times u (xs ++ ys)
unfolding times
times-without t u xs ys = times-append u xs (t ∷ ys) ∙ ground (arith, times-append u xs ys)

pub complete_when_zero : (s : State) (m : ℕ) → s.pending ≡ pos m → complete s ≡ true → m ≡ 0
unfolding complete
complete_when_zero s m h c =
    let test : eqb_ℤ (pos m) (pos 0) ≡ true = subst (λ z. eqb_ℤ z (pos 0) ≡ true) h c in
    ground (arith, test)

pub incomplete_when_any : (s : State) (m : ℕ) → s.pending ≡ pos m → complete s ≡ false → 0 < m
unfolding complete
incomplete_when_any s m h c =
    let test : eqb_ℤ (pos m) (pos 0) ≡ false = subst (λ z. eqb_ℤ z (pos 0) ≡ false) h c in
    ground (arith, test)

pub if_nothing-of_zero : (m : ℕ) → m ≡ 0 → if_nothing m ≡ 1
unfolding if_nothing
if_nothing-of_zero zero h = refl
if_nothing-of_zero (suc m) h = absurd (omega arith)

pub if_nothing-of_any : (m : ℕ) → 0 < m → if_nothing m ≡ 0
unfolding if_nothing
if_nothing-of_any zero h = absurd (omega arith)
if_nothing-of_any (suc m) h = refl

pub if_any-of_zero : (m : ℕ) → m ≡ 0 → if_any m ≡ 0
unfolding if_any
if_any-of_zero zero h = refl
if_any-of_zero (suc m) h = absurd (omega arith)

pub if_any-of_any : (m : ℕ) → 0 < m → if_any m ≡ 1
unfolding if_any
if_any-of_any zero h = absurd (omega arith)
if_any-of_any (suc m) h = refl

module _ {R : Type 0} (log_branch branch_factor my_pe : ℕ) (tp_counts : List ℕ) (n : ℕ)
    (real : Real R) (tolsq : R) (yield_period : ℕ) (Ex : What → ℕ → Type 0) (t : ℕ) where
  abbrev Busy : ℕ → ℕ → Pe R → Type 0
  Busy e k pe = IsBusy log_branch branch_factor my_pe tp_counts n Ex t e k pe

  -- A group is no longer left, and counts until decrPending.
  next_group-IsBusy :
      (e k : ℕ) (pe : Pe R)
      → Busy e k pe
      → (pe.states t).current < length (pe.walk_groups t)
      → Busy (e + 1) k (next_group t pe)
  unfolding next_group set_state left
  next_group-IsBusy e k pe b some_left =
      let own : (next_group t pe).states t
          ≡ record (pe.states t) { current = (pe.states t).current + 1 } =
        set_state_own t _ pe in
      let others : (u : ℕ) → u ≢ t → (next_group t pe).states u ≡ pe.states u =
        set_state_others t _ pe in
      let fewer : left t (next_group t pe) + 1 ≡ left t pe = rw own (omega arith) in
      let stays : (u : ℕ) → u ≢ t → left u (next_group t pe) ≡ left u pe =
        λ u other. rw (others u other) refl in
      record {
        counted_own = λ low.
            ap (λ (x : State). x.pending) own ∙ b.counted_own low ∙ ap pos (omega (arith, fewer));
        counted = λ u low other any.
            ap (λ (x : State). x.pending) (others u other)
            ∙ b.counted u low other (omega (arith, any, stays u other))
            ∙ ap pos (omega (arith, stays u other));
        unfinished = b.unfinished;
        finished =
            λ u low other. b.finished u low other ∙ ap if_nothing (omega (arith, stays u other));
        queued_own = b.queued_own;
        queued = λ u low other. b.queued u low other ∙ ap if_any (sym (stays u other));
        table = b.table;
        remote = b.remote;
        asks_once = b.asks_once;
        idle = b.idle;
        sound = b.sound;
      }

  walk_groups_loop-Returns :
      (fuel buckets e k : ℕ) (pe : Pe R)
      → Busy e k pe
      → ReturnsWith
          (λ (r : ℕ × Pe R). Busy r.0 k r.1)
          (walk_groups_loop real tolsq branch_factor yield_period my_pe tp_counts fuel t buckets e
            pe)
  unfolding walk_groups_loop
  walk_groups_loop-Returns zero buckets e k pe b = ((e, pe), refl, b)
  walk_groups_loop-Returns (suc fuel) buckets e k pe b =
      let g = (pe.states t).current in
      elim (Bool-cases (ltb buckets yield_period && ltb g (length (pe.walk_groups t)))) [
        | inr stop ↦ rw stop ((e, pe), refl, b)
        | inl more ↦ rw more (
            and_go_on-ReturnsWith {P = Walked t pe} {Q = λ (r : ℕ × Pe R). Busy r.0 k r.1} _ _
              (walk_from-Returns log_branch branch_factor my_pe tp_counts t g pe real tolsq
                yield_period (range_from 0 (length (get_or (pe.walk_groups t) g []))) 0 pe.root
                b.sound pe (Walked-start t pe b.table b.remote))
              (λ pe' w. walk_groups_loop-Returns fuel _ (e + 1) k (next_group t pe') (
                next_group-IsBusy e k pe'
                  (Walked-IsBusy log_branch branch_factor my_pe tp_counts n Ex t e k pe pe' b w)
                  (rw (w.same_groups, w.same_current t) (ground (arith, more))))))
      ]

  after_groups-IsSteady :
      (e : ℕ) (pe : Pe R)
      → t < n
      → Busy e 0 pe
      → IsSteadyBut log_branch branch_factor my_pe tp_counts n Ex (after_groups t (e, pe))
  unfolding after_groups gravity_done left
  after_groups-IsSteady e pe low b =
      let pe' = decr_pending t e pe in
      let b' : Busy 0 0 pe' =
        IsBusy-decr log_branch branch_factor my_pe tp_counts n Ex t e 0 pe b in
      let settle : (sch calls : List ℕ)
          → (t < n → times t calls ≡ if_nothing (owed t pe'))
          → (t < n → times t sch ≡ if_any (left t pe'))
          → ((u : ℕ) → u ≢ t → times u calls ≡ times u pe'.completed)
          → ((u : ℕ) → u ≢ t → times u sch ≡ times u pe'.scheduled)
          → IsSteadyBut log_branch branch_factor my_pe tp_counts n Ex
              (record pe' { scheduled = sch; completed = calls }) =
        λ sch calls.
          IsBusy-settle log_branch branch_factor my_pe tp_counts n Ex t 0 pe' sch calls b' in
      let total : (pe'.states t).pending ≡ pos (owed t pe') =
        b'.counted_own low ∙ ap pos (omega arith) in
      elim (Bool-cases (complete (pe'.states t))) [
        | inl done ↦
            let nothing : owed t pe' ≡ 0 = complete_when_zero (pe'.states t) _ total done in
            rw done (
              settle pe'.scheduled (t ∷ pe'.completed)
                (λ _.
                  times-push t pe'.completed
                  ∙ ap suc (b'.unfinished low)
                  ∙ sym (if_nothing-of_zero _ nothing))
                (λ _. b'.queued_own low ∙ sym (if_any-of_zero _ (omega (arith, nothing))))
                (λ u other. times-push_other t u pe'.completed other) (λ u other. refl))
        | inr not_done ↦
            let some_owed : 0 < owed t pe' = incomplete_when_any (pe'.states t) _ total not_done in
            let uncalled : t < n → times t pe'.completed ≡ if_nothing (owed t pe') =
              λ _. b'.unfinished low ∙ sym (if_nothing-of_any _ some_owed) in
            elim (Bool-cases (ltb (pe'.states t).current (length (pe'.walk_groups t)))) [
              | inl groups_left ↦
                  rw (not_done, groups_left)
                    (settle (pe'.scheduled ++ t ∷ []) pe'.completed uncalled
                      (λ _.
                        times-append t pe'.scheduled (t ∷ [])
                        ∙ omega (
                          arith,
                          times-own t,
                          b'.queued_own low,
                          if_any-of_any (left t pe') (ground (arith, groups_left)),
                        ))
                      (λ u other. refl)
                      (λ u other.
                        times-append u pe'.scheduled (t ∷ [])
                        ∙ omega (arith, times-other t u other)))
              | inr walked ↦
                  rw (not_done, walked)
                    (settle pe'.scheduled pe'.completed uncalled
                      (λ _. b'.queued_own low ∙ sym (if_any-of_zero _ (ground (arith, walked))))
                      (λ u other. refl) (λ u other. refl))
            ]
      ]

  -- Handling a queued message returns, and leaves the PE steady.
  pub do_gravity-IsSteady :
      (pe : Pe R) (xs ys : List ℕ)
      → t < n
      → IsSteadyBut log_branch branch_factor my_pe tp_counts n Ex pe
      → pe.scheduled ≡ xs ++ t ∷ ys
      → ReturnsWith (IsSteadyBut log_branch branch_factor my_pe tp_counts n Ex) (
          do_gravity real tolsq branch_factor yield_period my_pe tp_counts t
            (record pe { scheduled = xs ++ ys }))
  unfolding do_gravity
  do_gravity-IsSteady pe xs ys low s queue =
      let counts : (u : ℕ) → times u pe.scheduled ≡ times u (t ∷ []) + times u (xs ++ ys) =
        λ u. ap (times u) queue ∙ times-without t u xs ys in
      let some_left : 0 < left t pe =
        any-of_if_any (left t pe) (omega (arith, counts t, s.queued t low, times-own t)) in
      let own_queue : times t (xs ++ ys) ≡ 0 =
        omega (arith, counts t, s.queued t low, times-own t, if_any-of_any (left t pe) some_left) in
      and_go_on-ReturnsWith {P = λ (r : ℕ × Pe R). Busy r.0 0 r.1}
        {Q = IsSteadyBut log_branch branch_factor my_pe tp_counts n Ex} _ _
        (walk_groups_loop-Returns _ 0 0 0 (record pe { scheduled = xs ++ ys })
          (IsBusy-start log_branch branch_factor my_pe tp_counts n Ex t pe (xs ++ ys) 0 s
            (λ _. omega (arith, some_left)) (λ _. own_queue)
            (λ u other. omega (arith, counts u, times-other t u other))))
        (λ (e, pe') b. (after_groups t (e, pe'), refl, after_groups-IsSteady e pe' low b))
