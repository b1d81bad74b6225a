-- ===== src/Charm/Requests/Steady/Reply.antt =====
-- recvNode and recvParticles on a steady PE.
use amt_bh_benchmark.Base.{true, ℕ, ◌+◌, ◌≤◌, ◌≡◌, refl, some, List, ◌∷◌}
use amt_bh_benchmark.Base.Int.{pos}
use amt_bh_benchmark.Base.Real.{Real}
use amt_bh_benchmark.Charm.KeyBits.{get_depth_from_key}
use amt_bh_benchmark.Charm.Tree.{Particle, Node, Nodes, none_left, child, num_children}
use amt_bh_benchmark.Charm.GravityWalk.{and_go_on}
use amt_bh_benchmark.Charm.GravityWalk.Returns.{ReturnsWith, and_go_on-ReturnsWith}
use amt_bh_benchmark.Charm.Requests.{nodes, particles, same_what, Pe}
use amt_bh_benchmark.Charm.Requests.Fetched.{deserialize_all, attach, set_particles}
use amt_bh_benchmark.Charm.Requests.Handlers.{
  all_numbers, walk_children, resume_nodes, resume_particles, recv_node, recv_particles,
}
use amt_bh_benchmark.Charm.Requests.Walked.{Walked, Walked-start}
use amt_bh_benchmark.Charm.Requests.Sound.{
  AllSound, IsSound, apply_particles-Walked, walk_from-Returns,
}
use amt_bh_benchmark.Charm.Requests.Sound.Same.{AllSound-same}
use amt_bh_benchmark.Charm.Requests.Sound.Attach.{attach-IsSound, set_particles-IsSound}
use amt_bh_benchmark.Charm.Requests.Steady.Loop.{Extra, deliver-Returns}
use amt_bh_benchmark.Charm.Requests.Steady.Receive.{
  Steady, IsDue, mark_answered, answer-eq, mark-here, answered-other, answered-other_table,
  answered-IsSteady, delivered-IsSteady,
}

-- Nothing is asked of the requests where particles are delivered.
no_needs : Extra (λ qs. Unit)
no_needs = record { stays = λ qs qs' same h. h }

module _ {R : Type 0} (log_branch branch_factor my_pe : ℕ) (tp_counts : List ℕ) (n : ℕ)
    (real : Real R) (tolsq : R) (yield_period : ℕ) where
  module _ (d : ℕ) (t g : ℕ) (mask : List ℕ) (base : Pe R) where
    walk_children-Returns :
        (cs : Nodes R)
        → AllSound log_branch branch_factor my_pe tp_counts base.requests d cs
        → (pe : Pe R) → Walked t base pe
        → ReturnsWith
            (Walked t base)
            (walk_children real tolsq branch_factor yield_period my_pe tp_counts t g mask cs pe)
    unfolding walk_children AllSound
    walk_children-Returns none_left s pe w = (pe, refl, w)
    walk_children-Returns (child m ms) s pe w =
        and_go_on-ReturnsWith {P = Walked t base} {Q = Walked t base} _ _
          (walk_from-Returns log_branch branch_factor my_pe tp_counts t g base real tolsq
            yield_period mask d m s.0 pe w)
          (λ pe' w'. walk_children-Returns ms s.1 pe' w')

  sound_children :
      (d : ℕ) (cs : Nodes R)
      → Extra (λ qs. AllSound log_branch branch_factor my_pe tp_counts qs d cs)
  sound_children d cs = record {
    stays =
        λ qs qs' same h. AllSound-same log_branch branch_factor my_pe tp_counts qs qs' d cs same h;
  }

  -- The reply to a request for the children of a node returns, with every walk resumed.
  pub recv_node-IsSteady :
      (key depth : ℕ) (message : Nodes R) (m : Node R) (ms : Nodes R) (pe : Pe R)
      → Steady log_branch branch_factor my_pe tp_counts n pe
      → IsDue nodes key pe.requests
      → get_depth_from_key log_branch key ≡ pos depth
      → deserialize_all message ≡ some (child m ms)
      → num_children (child m ms) ≤ branch_factor
      → AllSound log_branch branch_factor my_pe tp_counts
          (mark_answered nodes key pe.requests)
          (depth + 1)
          (child m ms)
      → ReturnsWith
          (Steady log_branch branch_factor my_pe tp_counts n)
          (recv_node real tolsq branch_factor yield_period my_pe tp_counts key message pe)
  unfolding recv_node and_go_on resume_nodes same_what
  recv_node-IsSteady key depth message m ms pe s due at read few new =
      let qs = mark_answered nodes key pe.requests in
      let root : Node R = attach key (child m ms) pe.root in
      let attached : IsSound log_branch branch_factor my_pe tp_counts qs 0 root =
        attach-IsSound log_branch branch_factor my_pe tp_counts pe.requests qs key
          (
            λ k. answered-other_table nodes key pe.requests particles k refl,
            λ k other. answered-other nodes key pe.requests nodes k other,
          )
          depth at m ms few new 0 pe.root s.sound in
      let (pe', returns, both) =
        deliver-Returns log_branch branch_factor my_pe tp_counts n nodes key
          (λ qs'. AllSound log_branch branch_factor my_pe tp_counts qs' (depth + 1) (child m ms))
          (sound_children (depth + 1) (child m ms))
          (resume_nodes real tolsq branch_factor yield_period my_pe tp_counts (child m ms))
          (λ r base table remote h.
            walk_children-Returns (depth + 1) r.state r.group r.mask base (child m ms) h base
              (Walked-start r.state base table remote))
          (record pe { requests = qs; root = root })
          (answered-IsSteady log_branch branch_factor my_pe tp_counts n nodes key pe root s
            attached)
          (mark-here nodes key pe.requests) new in
      (
        pe',
        rw (answer-eq nodes key pe due s.remote, read) returns,
        delivered-IsSteady log_branch branch_factor my_pe tp_counts n nodes key pe' both.0 both.1,
      )

  -- The reply to a request for particles.
  pub recv_particles-IsSteady :
      (key : ℕ) (p : Particle R) (ps : List (Particle R)) (pe : Pe R)
      → Steady log_branch branch_factor my_pe tp_counts n pe
      → IsDue particles key pe.requests
      → all_numbers real (p ∷ ps) ≡ true
      → ReturnsWith
          (Steady log_branch branch_factor my_pe tp_counts n)
          (recv_particles real tolsq branch_factor yield_period my_pe tp_counts key (p ∷ ps) pe)
  unfolding recv_particles and_go_on resume_particles same_what
  recv_particles-IsSteady key p ps pe s due numbers =
      let qs = mark_answered particles key pe.requests in
      let root : Node R = set_particles key (p ∷ ps) pe.root in
      let attached : IsSound log_branch branch_factor my_pe tp_counts qs 0 root =
        set_particles-IsSound log_branch branch_factor my_pe tp_counts pe.requests qs key
          (
            λ k. answered-other_table particles key pe.requests nodes k refl,
            λ k other. answered-other particles key pe.requests particles k other,
          )
          p ps 0 pe.root s.sound in
      let (pe', returns, both) =
        deliver-Returns log_branch branch_factor my_pe tp_counts n particles key (λ qs'. Unit)
          no_needs (resume_particles real tolsq branch_factor yield_period my_pe tp_counts (p ∷ ps))
          (λ r base table remote h. (
            _,
            rw numbers refl,
            apply_particles-Walked log_branch branch_factor my_pe tp_counts r.state r.group base
                (p ∷ ps) r.mask base (Walked-start r.state base table remote),
          ))
          (record pe { requests = qs; root = root })
          (answered-IsSteady log_branch branch_factor my_pe tp_counts n particles key pe root s
            attached)
          (mark-here particles key pe.requests) tt in
      (
        pe',
        rw (answer-eq particles key pe due s.remote) returns,
        delivered-IsSteady log_branch branch_factor my_pe tp_counts n particles key pe' both.0
            both.1,
      )
