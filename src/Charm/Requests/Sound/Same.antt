-- ===== src/Charm/Requests/Sound/Same.antt =====
-- A sound tree stays sound while no further request is answered.
use amt_bh_benchmark.Base.{ℕ, ◌+◌, ◌≡◌, ◌∙◌, Option, none, some, List}
use amt_bh_benchmark.Charm.Ownership.{NodeType}
use amt_bh_benchmark.Charm.Tree.{Particle, NodeCore, Node, Nodes, node, none_left, child}
use amt_bh_benchmark.Charm.Requests.{What, nodes, particles, Request}
use amt_bh_benchmark.Charm.Requests.Sound.{
  answered, CanAskParticles, LeafIsSound, IsSound, AllSound,
}

abbrev pub SameAnswers : List Request → List Request → Type 0
SameAnswers qs qs' = (what : What) (key : ℕ) → answered what key qs' ≡ answered what key qs

module _ {R : Type 0} (log_branch branch_factor my_pe : ℕ) (tp_counts : List ℕ) where
  CanAskParticles-same :
      (qs qs' : List Request) (c : NodeCore R)
      → SameAnswers qs qs'
      → (ps : Option (List (Particle R))) → CanAskParticles qs c ps
      → CanAskParticles qs' c ps
  unfolding CanAskParticles
  CanAskParticles-same qs qs' c same none h = (h.0, same particles c.key ∙ h.1)
  CanAskParticles-same qs qs' c same (some ps) h = tt

  LeafIsSound-same :
      (qs qs' : List Request) (c : NodeCore R)
      → SameAnswers qs qs'
      → (ty : NodeType) → LeafIsSound log_branch branch_factor my_pe tp_counts qs ty c
      → LeafIsSound log_branch branch_factor my_pe tp_counts qs' ty c
  unfolding LeafIsSound
  LeafIsSound-same qs qs' c same NodeType.remote_bucket h =
      CanAskParticles-same qs qs' c same c.particles h
  LeafIsSound-same qs qs' c same NodeType.remote h = (same nodes c.key ∙ h.0, h.1, h.2)
  LeafIsSound-same qs qs' c same NodeType.internal h = h
  LeafIsSound-same qs qs' c same NodeType.boundary h = h
  LeafIsSound-same qs qs' c same NodeType.bucket h = h
  LeafIsSound-same qs qs' c same NodeType.invalid h = h
  LeafIsSound-same qs qs' c same NodeType.empty_bucket h = h
  LeafIsSound-same qs qs' c same NodeType.remote_empty_bucket h = h

  mutual
    unfolding IsSound

    pub IsSound-same :
        (qs qs' : List Request) (d : ℕ) (m : Node R)
        → SameAnswers qs qs'
        → IsSound log_branch branch_factor my_pe tp_counts qs d m
        → IsSound log_branch branch_factor my_pe tp_counts qs' d m
    IsSound-same qs qs' d (node c none_left) same s =
        (s.0, s.1, LeafIsSound-same qs qs' c same c.node_type s.2)
    IsSound-same qs qs' d (node c (child m ms)) same s = (
      s.0,
      s.1,
      s.2,
      (IsSound-same qs qs' (d + 1) m same s.3.0, AllSound-same qs qs' (d + 1) ms same s.3.1),
    )

    pub AllSound-same :
        (qs qs' : List Request) (d : ℕ) (ms : Nodes R)
        → SameAnswers qs qs'
        → AllSound log_branch branch_factor my_pe tp_counts qs d ms
        → AllSound log_branch branch_factor my_pe tp_counts qs' d ms
    AllSound-same qs qs' d none_left same s = tt
    AllSound-same qs qs' d (child m ms) same s =
        (IsSound-same qs qs' d m same s.0, AllSound-same qs qs' d ms same s.1)
