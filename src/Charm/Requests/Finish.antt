-- ===== src/Charm/Requests/Finish.antt =====
-- The walks of a PE from their start on, whatever comes in whatever order.
use amt_bh_benchmark.Base.{ℕ, ◌*◌, ◌<◌, ◌≡◌, List, length, ◌⊎◌, if◌then◌else◌}
use amt_bh_benchmark.Base.Int.{pos}
use amt_bh_benchmark.Base.Real.{Real}
use amt_bh_benchmark.Charm.Tree.{Vector}
use amt_bh_benchmark.Charm.GravityWalk.Returns.{ReturnsWith}
use amt_bh_benchmark.Charm.Requests.{What, Pe, find_request}
use amt_bh_benchmark.Charm.Requests.Handlers.{start_all}
use amt_bh_benchmark.Charm.Requests.Asked.{messages}
use amt_bh_benchmark.Charm.Requests.Steady.{times, if_nothing, owed}
use amt_bh_benchmark.Charm.Requests.Progress.{
  Event, Reach, handle, handle-Returns, Reach-IsSteady, steady-Ahead, Ahead,
}
use amt_bh_benchmark.Charm.Requests.Start.{IsReady, all_started-IsSteady}

module _ {R : Type 0} (log_branch branch_factor my_pe : ℕ) (tp_counts : List ℕ) (real : Real R)
    (tolsq : R) (yield_period : ℕ) (pieces : List (List (List (Vector R)))) (start pe : Pe R)
    (ready : IsReady log_branch branch_factor my_pe tp_counts start)
    (reached : Reach log_branch branch_factor my_pe tp_counts
      (2 * length pieces)
      real
      tolsq
      yield_period
      (start_all 0 pieces start)
      pe) where
  pub handle_returns :
      (e : Event log_branch branch_factor my_pe tp_counts
        (2 * length pieces)
        real
        tolsq
        yield_period
        pe)
      → ReturnsWith
          (λ pe'. Unit {0})
          (handle log_branch branch_factor my_pe tp_counts
            (2 * length pieces)
            real
            tolsq
            yield_period
            pe
            e)
  handle_returns e =
      let (pe', returns, s) =
        handle-Returns log_branch branch_factor my_pe tp_counts (2 * length pieces) real tolsq
          yield_period pe
          (Reach-IsSteady log_branch branch_factor my_pe tp_counts (2 * length pieces) real tolsq
            yield_period (start_all 0 pieces start) pe
            (all_started-IsSteady log_branch branch_factor my_pe tp_counts pieces start ready)
            reached)
          e in
      (pe', returns, tt)

  -- From such a PE, with messages handled in any order: as long as a walk has groups left or requestors
  -- that wait, its pending is the number of both, and done was not called for it; after that, done was
  -- called for it once.
  pub pending_counts :
      (t : ℕ)
      → t < 2 * length pieces
      → (0 < owed t pe → (pe.states t).pending ≡ pos (owed t pe))
        × (times t pe.completed ≡ if_nothing (owed t pe))
  pending_counts t low =
      let s =
        Reach-IsSteady log_branch branch_factor my_pe tp_counts (2 * length pieces) real tolsq
          yield_period (start_all 0 pieces start) pe
          (all_started-IsSteady log_branch branch_factor my_pe tp_counts pieces start ready)
          reached in
      (s.counted t low, s.finished t low)

  -- From such a PE, with messages handled in any order: at any time, a key was asked for by a single
  -- message if its entry is marked as sent, and else by none.
  pub asked_once :
      (what : What) (key : ℕ)
      → messages what key pe.outbox ≡ (if (find_request what key pe.requests).sent then 1 else 0)
  asked_once what key =
      let s =
        Reach-IsSteady log_branch branch_factor my_pe tp_counts (2 * length pieces) real tolsq
          yield_period (start_all 0 pieces start) pe
          (all_started-IsSteady log_branch branch_factor my_pe tp_counts pieces start ready)
          reached in
      s.asks_once what key

  -- From such a PE, with messages handled in any order: at any time, done was called for a walk, and
  -- once, or it was not called, and a message for the walk is queued or the reply to a request is due
  -- for which the walk waits.
  pub done_or_Ahead :
      (t : ℕ)
      → t < 2 * length pieces
      → (times t pe.completed ≡ 1)
        ⊎ ((times t pe.completed ≡ 0)
            × Ahead log_branch branch_factor my_pe tp_counts
                (2 * length pieces)
                real
                tolsq
                yield_period
                t
                pe)
  done_or_Ahead t low =
      steady-Ahead log_branch branch_factor my_pe tp_counts (2 * length pieces) real tolsq
        yield_period pe t
        (Reach-IsSteady log_branch branch_factor my_pe tp_counts (2 * length pieces) real tolsq
          yield_period (start_all 0 pieces start) pe
          (all_started-IsSteady log_branch branch_factor my_pe tp_counts pieces start ready)
          reached)
        low
