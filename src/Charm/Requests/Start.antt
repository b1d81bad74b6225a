-- ===== src/Charm/Requests/Start.antt =====
-- startTraversal, TreePiece by TreePiece.
pub mod Pair
use amt_bh_benchmark.Base.{
  ℕ, ◌+◌, ◌-◌, ◌*◌, ◌≤◌, ◌<◌, ◌≡◌, refl, sym, ap, subst, ◌∙◌, false, ◌||◌, ◌==◌, if◌then◌else◌,
  List, [], ◌∷◌, ◌++◌, length, arith, Bool-cases, ◌⊎◌, inl, inr,
}
use amt_bh_benchmark.Base.Int.{pos}
use amt_bh_benchmark.Charm.Tree.{Vector}
use amt_bh_benchmark.Charm.Requests.{State, Pe, set_state, gravity_done, find_request}
use amt_bh_benchmark.Charm.Requests.Handlers.{reset, start_traversal, start_all}
use amt_bh_benchmark.Charm.Requests.Asked.{messages}
use amt_bh_benchmark.Charm.Requests.Table.{waiting, IsTable}
use amt_bh_benchmark.Charm.Requests.Sound.{IsSound}
use amt_bh_benchmark.Charm.Requests.Walked.{set_state_own, set_state_others}
use amt_bh_benchmark.Charm.Requests.Steady.{times, if_nothing, if_any, left}
use amt_bh_benchmark.Charm.Requests.Steady.Gravity.{
  times-push_other, if_nothing-of_any, if_nothing-of_zero, if_any-of_any, if_any-of_zero,
}
use amt_bh_benchmark.Charm.Requests.Steady.Receive.{Steady}
use amt_bh_benchmark.Charm.Requests.Start.Pair.{
  started_cases, both_times, neither_times, both_pushed, both_unpushed,
}

-- Nothing was done for the States from the n-th on.
pub record IsUnstarted {R : Type 0} (n : ℕ) (pe : Pe R) : Type 0 where
  pub unscheduled : (t : ℕ) → n ≤ t → times t pe.scheduled ≡ 0
  pub uncalled : (t : ℕ) → n ≤ t → times t pe.completed ≡ 0
  pub unwaiting : (t : ℕ) → n ≤ t → waiting t pe.requests ≡ 0

abbrev suc_of : ℕ → ℕ
suc_of m = m + 1

module _ {R : Type 0} (i : ℕ) (groups : List (List (Vector R))) (pe : Pe R) where
  abbrev with_groups : Pe R
  with_groups = record pe {
    walk_groups = λ u. if (u == 2 * i) || (u == 2 * i + 1) then groups else pe.walk_groups u;
  }

  abbrev both_reset : Pe R
  both_reset = reset (2 * i) (length groups) (reset (2 * i + 1) (length groups) with_groups)

  old_left : (t : ℕ) → t < 2 * i → left t with_groups ≡ left t pe
  unfolding left
  old_left t low = elim (Bool-cases ((t == 2 * i) || (t == 2 * i + 1))) [
    | inl new ↦ absurd (ground (arith, new))
    | inr old ↦ rw old refl
  ]

  not_old : (t : ℕ) → (t ≡ 2 * i) ⊎ (t ≡ 2 * i + 1) → ((t == 2 * i) || (t == 2 * i + 1)) ≡ false → ⊥
  not_old t (inl e) h = ground (arith, e, h)
  not_old t (inr e) h = ground (arith, e, h)

  new_left :
      (t : ℕ)
      → (t ≡ 2 * i) ⊎ (t ≡ 2 * i + 1)
      → left t with_groups ≡ length groups - (pe.states t).current
  unfolding left
  new_left t which = elim (Bool-cases ((t == 2 * i) || (t == 2 * i + 1))) [
    | inl new ↦ rw new refl
    | inr old ↦ absurd (not_old t which old)
  ]

  old_state : (t : ℕ) → t < 2 * i → both_reset.states t ≡ pe.states t
  unfolding reset
  old_state t low =
      set_state_others (2 * i) _ (reset (2 * i + 1) (length groups) with_groups) t
        (λ e. omega (arith, e))
      ∙ set_state_others (2 * i + 1) _ with_groups t (λ e. omega (arith, e))

  new_state :
      (t : ℕ)
      → (t ≡ 2 * i) ⊎ (t ≡ 2 * i + 1)
      → both_reset.states t ≡ record { pending = pos (length groups); current = 0 }
  unfolding reset
  new_state t (inl e) = rw e (set_state_own (2 * i) _ _)
  new_state t (inr e) = rw e (
      set_state_others (2 * i) _ (reset (2 * i + 1) (length groups) with_groups) (2 * i + 1)
        (λ e'. omega (arith, e'))
      ∙ set_state_own (2 * i + 1) _ with_groups)

  reset_old_left : (t : ℕ) → t < 2 * i → left t both_reset ≡ left t pe
  unfolding left reset set_state
  reset_old_left t low =
      ap (λ (x : State). length (with_groups.walk_groups t) - x.current) (old_state t low)
      ∙ old_left t low

  groups_new : (t : ℕ) → (t ≡ 2 * i) ⊎ (t ≡ 2 * i + 1) → with_groups.walk_groups t ≡ groups
  groups_new t which = elim (Bool-cases ((t == 2 * i) || (t == 2 * i + 1))) [
    | inl new ↦ rw new refl
    | inr old ↦ absurd (not_old t which old)
  ]

  reset_new_left : (t : ℕ) → (t ≡ 2 * i) ⊎ (t ≡ 2 * i + 1) → left t both_reset ≡ length groups
  unfolding left reset set_state
  reset_new_left t which =
      ap (λ (x : State). length (with_groups.walk_groups t) - x.current) (new_state t which)
      ∙ ap (λ (gs : List (List (Vector R))). length gs - 0) (groups_new t which)
      ∙ omega arith

  module _ (log_branch branch_factor my_pe : ℕ) (tp_counts : List ℕ) where
    abbrev SteadyFor : ℕ → Pe R → Type 0
    SteadyFor n = Steady log_branch branch_factor my_pe tp_counts n

    module _ (s : SteadyFor (2 * i) pe) (u : IsUnstarted (2 * i) pe) where
      new_waiting : (t : ℕ) → (t ≡ 2 * i) ⊎ (t ≡ 2 * i + 1) → waiting t pe.requests ≡ 0
      new_waiting t (inl e) = u.unwaiting t (omega (arith, e))
      new_waiting t (inr e) = u.unwaiting t (omega (arith, e))

      new_uncalled : (t : ℕ) → (t ≡ 2 * i) ⊎ (t ≡ 2 * i + 1) → times t pe.completed ≡ 0
      new_uncalled t (inl e) = u.uncalled t (omega (arith, e))
      new_uncalled t (inr e) = u.uncalled t (omega (arith, e))

      new_unscheduled : (t : ℕ) → (t ≡ 2 * i) ⊎ (t ≡ 2 * i + 1) → times t pe.scheduled ≡ 0
      new_unscheduled t (inl e) = u.unscheduled t (omega (arith, e))
      new_unscheduled t (inr e) = u.unscheduled t (omega (arith, e))

      started_nothing :
          length groups ≡ 0
          → SteadyFor (2 * i + 2) (gravity_done (2 * i + 1) (gravity_done (2 * i) with_groups))
      unfolding gravity_done left
      started_nothing nothing = record {
        counted = λ t low any. elim (started_cases i t low) [
          | inl new ↦ absurd (omega (arith, any, new_left t new, nothing, new_waiting t new))
          | inr old ↦
              s.counted t old (omega (arith, any, old_left t old))
              ∙ ap pos (omega (arith, old_left t old))
        ];
        finished = λ t low. elim (started_cases i t low) [
          | inl new ↦
              both_pushed (2 * i) t pe.completed new
              ∙ ap suc_of (new_uncalled t new)
              ∙ sym
                  (if_nothing-of_zero _ (omega (arith, new_left t new, nothing, new_waiting t new)))
          | inr old ↦
              both_unpushed (2 * i) t pe.completed old
              ∙ s.finished t old
              ∙ ap if_nothing (omega (arith, old_left t old))
        ];
        queued = λ t low. elim (started_cases i t low) [
          | inl new ↦
              new_unscheduled t new
              ∙ sym (if_any-of_zero _ (omega (arith, new_left t new, nothing)))
          | inr old ↦ s.queued t old ∙ ap if_any (sym (old_left t old))
        ];
        table = s.table;
        remote = s.remote;
        asks_once = s.asks_once;
        idle = s.idle;
        sound = s.sound;
      }

      started_walks :
          0 < length groups
          → SteadyFor
              (2 * i + 2)
              (record both_reset { scheduled = pe.scheduled ++ (2 * i + 1) ∷ 2 * i ∷ [] })
      unfolding reset set_state left
      started_walks some_groups = record {
        counted = λ t low any. elim (started_cases i t low) [
          | inl new ↦
              ap (λ (x : State). x.pending) (new_state t new)
              ∙ ap pos (omega (arith, reset_new_left t new, new_waiting t new))
          | inr old ↦
              ap (λ (x : State). x.pending) (old_state t old)
              ∙ s.counted t old (omega (arith, any, reset_old_left t old))
              ∙ ap pos (omega (arith, reset_old_left t old))
        ];
        finished = λ t low. elim (started_cases i t low) [
          | inl new ↦
              new_uncalled t new
              ∙ sym (if_nothing-of_any _ (omega (arith, reset_new_left t new, some_groups)))
          | inr old ↦ s.finished t old ∙ ap if_nothing (omega (arith, reset_old_left t old))
        ];
        queued = λ t low. elim (started_cases i t low) [
          | inl new ↦
              both_times (2 * i) t pe.scheduled new
              ∙ ap suc_of (new_unscheduled t new)
              ∙ sym (if_any-of_any _ (omega (arith, reset_new_left t new, some_groups)))
          | inr old ↦
              neither_times (2 * i) t pe.scheduled (λ e. omega (arith, e)) (λ e. omega (arith, e))
              ∙ s.queued t old
              ∙ ap if_any (sym (reset_old_left t old))
        ];
        table = s.table;
        remote = s.remote;
        asks_once = s.asks_once;
        idle = s.idle;
        sound = s.sound;
      }

      -- The TreePiece that is started is counted with the others from there on.
      pub start_traversal-IsSteady : SteadyFor (2 * i + 2) (start_traversal i groups pe)
      unfolding start_traversal
      start_traversal-IsSteady = elim (Bool-cases (length groups == 0)) [
        | inl nothing ↦ rw nothing (started_nothing (ground (arith, nothing)))
        | inr some_groups ↦ rw some_groups (started_walks (ground (arith, some_groups)))
      ]

      start_traversal-IsUnstarted : IsUnstarted (2 * i + 2) (start_traversal i groups pe)
      unfolding start_traversal gravity_done reset set_state
      start_traversal-IsUnstarted = elim (Bool-cases (length groups == 0)) [
        | inl nothing ↦ rw nothing record {
          unscheduled = λ t high. u.unscheduled t (omega arith);
          uncalled = λ t high.
              times-push_other (2 * i + 1) t (2 * i ∷ pe.completed) (λ e. omega (arith, e))
              ∙ times-push_other (2 * i) t pe.completed (λ e. omega (arith, e))
              ∙ u.uncalled t (omega arith);
          unwaiting = λ t high. u.unwaiting t (omega arith);
        }
        | inr some_groups ↦ rw some_groups record {
          unscheduled = λ t high.
              neither_times (2 * i) t pe.scheduled (λ e. omega (arith, e)) (λ e. omega (arith, e))
              ∙ u.unscheduled t (omega arith);
          uncalled = λ t high. u.uncalled t (omega arith);
          unwaiting = λ t high. u.unwaiting t (omega arith);
        }
      ]

module _ {R : Type 0} (log_branch branch_factor my_pe : ℕ) (tp_counts : List ℕ) where
  pub start_all-IsSteady :
      (i n : ℕ) (pieces : List (List (List (Vector R)))) (pe : Pe R)
      → Steady log_branch branch_factor my_pe tp_counts (2 * i) pe
      → IsUnstarted (2 * i) pe
      → n ≡ 2 * (i + length pieces)
      → Steady log_branch branch_factor my_pe tp_counts n (start_all i pieces pe)
  unfolding start_all
  start_all-IsSteady i n [] pe s u e =
      subst (λ j. Steady log_branch branch_factor my_pe tp_counts j pe) {x = 2 * i} {y = n}
        (omega (arith, e)) s
  start_all-IsSteady i n (g ∷ gs) pe s u e =
      start_all-IsSteady (i + 1) n gs (start_traversal i g pe)
        (subst (λ j. Steady log_branch branch_factor my_pe tp_counts j (start_traversal i g pe))
          {x = 2 * i + 2} {y = 2 * (i + 1)} (omega arith)
          (start_traversal-IsSteady i g pe log_branch branch_factor my_pe tp_counts s u))
        (subst (λ j. IsUnstarted j (start_traversal i g pe)) {x = 2 * i + 2} {y = 2 * (i + 1)}
          (omega arith)
          (start_traversal-IsUnstarted i g pe log_branch branch_factor my_pe tp_counts s u))
        (omega (arith, e))

  -- Before a step nothing is queued, asked for or done, and the tree is sound.
  pub record IsReady (pe : Pe R) : Type 0 where
    pub no_requests : pe.requests ≡ []
    pub none_asked : pe.outbox ≡ []
    pub none_scheduled : pe.scheduled ≡ []
    pub none_completed : pe.completed ≡ []
    pub sound_tree : IsSound log_branch branch_factor my_pe tp_counts [] 0 pe.root

  -- With the walks of all TreePieces started, a PE that was ready is steady.
  pub all_started-IsSteady :
      (pieces : List (List (List (Vector R)))) (pe : Pe R)
      → IsReady pe
      → Steady log_branch branch_factor my_pe tp_counts (2 * length pieces) (start_all 0 pieces pe)
  unfolding times waiting IsTable find_request messages
  all_started-IsSteady pieces pe ready =
      start_all-IsSteady 0 (2 * length pieces) pieces pe
        record {
          counted = λ t low. absurd (omega arith);
          finished = λ t low. absurd (omega arith);
          queued = λ t low. absurd (omega arith);
          table = rw ready.no_requests tt;
          remote = rw ready.no_requests tt;
          asks_once = λ what key. rw (ready.no_requests, ready.none_asked) refl;
          idle = λ what key h. inl (rw ready.no_requests refl);
          sound = rw ready.no_requests ready.sound_tree;
        }
        record {
          unscheduled = λ t high. rw ready.none_scheduled refl;
          uncalled = λ t high. rw ready.none_completed refl;
          unwaiting = λ t high. rw ready.no_requests refl;
        }
        (omega arith)
