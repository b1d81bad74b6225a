-- ===== src/Charm/Requests/Examples.antt =====
-- A PE with one TreePiece, a tree of three nodes and one walk group, over whole numbers.
use amt_bh_benchmark.Base.{ℕ, ◌<◌, ◌≡◌, refl, none, some, List, [], ◌∷◌, ◌⊎◌, if◌then◌else◌, arith}
use amt_bh_benchmark.Base.Int.{pos, negsuc}
use amt_bh_benchmark.Base.Whole.{whole}
use amt_bh_benchmark.Charm.Ownership.{NodeType}
use amt_bh_benchmark.Charm.Owners.{serving_owner, serving_loop, spread_hash}
use amt_bh_benchmark.Charm.KeyBits.Position.{get_depth_from_key_lem}
use amt_bh_benchmark.Charm.Tree.{
  Vector, Moments, Node, node, none_left, child, size, size_all, IsWithin, AllWithin, num_children,
}
use amt_bh_benchmark.Charm.GravityWalk.{Actions, gravity_walk, remote_traversal_worker}
use amt_bh_benchmark.Charm.GravityWalk.Descent.{gravity_descent, gravity_walk-gravity_descent}
use amt_bh_benchmark.Charm.GravityWalk.Returns.{ReturnsWith}
use amt_bh_benchmark.Charm.Requests.{nodes, Pe, set_state, find_request}
use amt_bh_benchmark.Charm.Requests.Handlers.{start_all, start_traversal, reset}
use amt_bh_benchmark.Charm.Requests.Sound.{IsSound, LeafIsSound, HasParticles}
use amt_bh_benchmark.Charm.Requests.Steady.{times, if_nothing, owed}
use amt_bh_benchmark.Charm.Requests.Progress.{Event, Reach, handle, Ahead}
use amt_bh_benchmark.Charm.Requests.Start.{IsReady}
use amt_bh_benchmark.Charm.Requests.Finish.{
  handle_returns, pending_counts, asked_once, done_or_Ahead,
}
use amt_bh_benchmark.Charm.Requests.Asked.{messages}

abbrev at_x : ℕ → Vector ℕ
at_x x = record { x = x; y = 0; z = 0 }

abbrev moments_at : ℕ → ℕ → Moments ℕ
moments_at mass x = record { total_mass = mass; cm = at_x x; rsq = 1000 }

abbrev root : Node ℕ
root =
    node
      (record {
        key = 1;
        node_type = NodeType.boundary;
        depth = 0;
        particles = none;
        owner_start = 0;
        owner_end = 1;
        moments = moments_at 7 5;
      })
      (child
        (node
          (record {
            key = 2;
            node_type = NodeType.bucket;
            depth = 1;
            particles = some (record { mass = 3; position = at_x 1 } ∷ []);
            owner_start = 0;
            owner_end = 0;
            moments = moments_at 3 1;
          })
          none_left)
        (child
          (node
            (record {
              key = 3;
              node_type = NodeType.remote;
              depth = 1;
              particles = none;
              owner_start = 1;
              owner_end = 1;
              moments = moments_at 4 9;
            })
            none_left)
          none_left))

-- A log of the sources and of the keys asked for.
abbrev logging : Actions ℕ (List ℕ)
logging = record {
  add_source = λ b mass x log. mass ∷ log;
  fetch_particles = λ leaf mask log. some (leaf.key ∷ log);
  fetch_node = λ leaf mask log. some (leaf.key ∷ log);
}

abbrev group : List (Vector ℕ)
group = at_x 0 ∷ []

gravity_walk-gravity_descent_example :
    gravity_walk whole logging 1 (remote_traversal_worker group) 2 3 root (0 ∷ []) []
    ≡ gravity_descent whole logging 1 (remote_traversal_worker group) root (0 ∷ []) []
unfolding IsWithin AllWithin size size_all num_children
gravity_walk-gravity_descent_example =
    gravity_walk-gravity_descent whole logging 1 (remote_traversal_worker group) 2 3 root (0 ∷ [])
      [] (omega arith, ((omega arith, tt), ((omega arith, tt), tt))) (omega arith)

abbrev before : Pe ℕ
before = record {
  root = root;
  states = λ t. record { pending = negsuc 0; current = 0 };
  walk_groups = λ t. [];
  requests = [];
  outbox = [];
  sources = [];
  scheduled = [];
  completed = [];
}

abbrev pieces : List (List (List (Vector ℕ)))
pieces = (group ∷ []) ∷ []

abbrev counts : List ℕ
counts = 1 ∷ 1 ∷ []

before-IsReady : IsReady 1 2 0 counts before
unfolding IsSound LeafIsSound HasParticles num_children find_request serving_owner serving_loop
    spread_hash
before-IsReady = record {
  no_requests = refl;
  none_asked = refl;
  none_scheduled = refl;
  none_completed = refl;
  sound_tree = (
    get_depth_from_key_lem 1 0 1 (omega arith) (omega arith) (omega arith, omega arith),
    omega arith,
    omega arith,
    (
      (
        get_depth_from_key_lem 1 1 2 (omega arith) (omega arith) (omega arith, omega arith),
        omega arith,
        tt,
      ),
      (
        (
          get_depth_from_key_lem 1 1 3 (omega arith) (omega arith) (omega arith, omega arith),
          omega arith,
          (refl, 1, refl),
        ),
        tt,
      ),
    ),
  );
}

abbrev started : Pe ℕ
started = start_all 0 pieces before

remote_first : Event 1 2 0 counts 2 whole 1 8 started
unfolding start_all start_traversal reset set_state
remote_first = Event.go_on 1 [] (0 ∷ []) (omega arith) refl

-- The PE when the remote walk went through its group.
abbrev after_remote :
    ReturnsWith (λ pe'. Unit {0}) (handle 1 2 0 counts 2 whole 1 8 started remote_first)
after_remote =
    handle_returns 1 2 0 counts whole 1 8 pieces before started before-IsReady Reach.here
      remote_first

pending_counts_example :
    (0 < owed 1 after_remote.0 → (after_remote.0.states 1).pending ≡ pos (owed 1 after_remote.0))
    × (times 1 after_remote.0.completed ≡ if_nothing (owed 1 after_remote.0))
pending_counts_example =
    pending_counts 1 2 0 counts whole 1 8 pieces before after_remote.0 before-IsReady
      (Reach.next Reach.here remote_first after_remote.1) 1 (omega arith)

done_or_Ahead_example :
    (times 1 after_remote.0.completed ≡ 1)
    ⊎ ((times 1 after_remote.0.completed ≡ 0) × Ahead 1 2 0 counts 2 whole 1 8 1 after_remote.0)
done_or_Ahead_example =
    done_or_Ahead 1 2 0 counts whole 1 8 pieces before after_remote.0 before-IsReady
      (Reach.next Reach.here remote_first after_remote.1) 1 (omega arith)

-- The remote walk opens the root, and asks for the children of node 3.
asked_once_example :
    messages nodes 3 after_remote.0.outbox
    ≡ (if (find_request nodes 3 after_remote.0.requests).sent then 1 else 0)
asked_once_example =
    asked_once 1 2 0 counts whole 1 8 pieces before after_remote.0 before-IsReady
      (Reach.next Reach.here remote_first after_remote.1) nodes 3
