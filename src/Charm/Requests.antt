-- ===== src/Charm/Requests.antt =====
-- The State of a PE in charm/ and its requests: the counters of charm/State.h, the tables of
-- charm/Request.h, and `requestParticles` and `requestNode` of charm/DataManager.cpp, as a walk calls
-- them. The State objects are numbered: localTraversalState of the i-th TreePiece is 2 i,
-- remoteTraversalState 2 i + 1, and a worker goes by its State. `none` is CkAbort or a CkAssert that
-- fails.
pub mod Fetched
pub mod Handlers
pub mod Table
pub mod Asked
pub mod Walked
pub mod Sound
pub mod Steady
pub mod Progress
pub mod Start
pub mod Finish
mod Examples
use amt_bh_benchmark.Base.{
  ℕ, ◌%◌, Bool, true, false, ◌&&◌, ◌||◌, ◌==◌, if◌then◌else◌, Option, none, some, List, [], ◌∷◌,
  ◌++◌,
}
use amt_bh_benchmark.Base.Int.{ℤ, pos, negsuc, ◌+ℤ◌, ◌-ℤ◌, eqb_ℤ}
use amt_bh_benchmark.Charm.Ownership.{NodeType}
use amt_bh_benchmark.Charm.Owners.{serving_owner}
use amt_bh_benchmark.Charm.Tree.{Vector, NodeCore, Node}
use amt_bh_benchmark.Charm.GravityWalk.{
  Actions, TraversalWorker, local_traversal_worker, remote_traversal_worker,
}

-- Which of particleRequestTable and nodeRequestTable.
pub data What : Type 0 where
  nodes : What
  particles : What

unfoldable pub same_what : What → What → Bool
same_what nodes nodes = true
same_what particles particles = true
same_what _ _ = false

-- The walk to resume: its State and worker, and its context.
pub record Requestor : Type 0 where
  pub state : ℕ
  pub group : ℕ
  pub mask : List ℕ

-- An entry of one of the two tables; `answered` is msg != NULL. Of the node `parent` that the request was
-- made for it has the type, which no walk changes, and `none` for NULL.
pub record Request : Type 0 where
  pub what : What
  pub key : ℕ
  pub sent : Bool
  pub answered : Bool
  pub parent : Option NodeType
  pub requestors : List Requestor

pub record State : Type 0 where
  pub pending : ℤ
  pub current : ℕ

-- A RequestMsg to a TreePiece.
pub record RequestMsg : Type 0 where
  pub what : What
  pub key : ℕ
  pub owner : ℕ

-- A source for a bucket of a group, as it comes to the interaction lists of a worker.
pub record Source (R : Type 0) : Type 0 where
  pub state : ℕ
  pub group : ℕ
  pub bucket : ℕ
  pub mass : R
  pub position : Vector R

-- A PE in a step. A walk group is the centres of its buckets. `outbox` holds the messages sent,
-- `scheduled` the States whose doLocalGravity or doRemoteGravity is queued, and `completed` those
-- for which localGravityDone or remoteGravityDone was called, the last one first.
pub record Pe (R : Type 0) : Type 0 where
  pub root : Node R
  pub states : ℕ → State
  pub walk_groups : ℕ → List (List (Vector R))
  pub requests : List Request
  pub outbox : List RequestMsg
  pub sources : List (Source R)
  pub scheduled : List ℕ
  pub completed : List ℕ

unfoldable pub is_for : What → ℕ → Request → Bool
is_for what key q = same_what what q.what && (key == q.key)

-- The entry for a key; operator[] makes one that is not sent.
unfoldable pub find_request : What → ℕ → List Request → Request
find_request what key [] = record {
  what = what;
  key = key;
  sent = false;
  answered = false;
  parent = none;
  requestors = [];
}
find_request what key (q ∷ qs) = if is_for what key q then q else find_request what key qs

unfoldable pub put_request : What → ℕ → Request → List Request → List Request
put_request what key r [] = r ∷ []
put_request what key r (q ∷ qs) =
    if is_for what key q then r ∷ qs else q ∷ put_request what key r qs

unfoldable pub complete : State → Bool
complete s = eqb_ℤ s.pending (pos 0)

unfoldable pub has_requestors : List Requestor → Bool
has_requestors [] = false
has_requestors (r ∷ rs) = true

-- The asserts on the node of an entry: that of a request for particles is a RemoteBucket.
unfoldable pub is_remote_bucket : NodeType → Bool
is_remote_bucket NodeType.remote_bucket = true
is_remote_bucket _ = false

unfoldable pub fits_parent : What → Option NodeType → Bool
fits_parent nodes none = false
fits_parent particles none = false
fits_parent nodes (some t) = true
fits_parent particles (some t) = is_remote_bucket t

-- The State and the worker of the local walk.
unfoldable pub is_local : ℕ → Bool
is_local t = t % 2 == 0

module _ {R : Type 0} where
  unfoldable pub set_state : ℕ → State → Pe R → Pe R
  set_state t s pe = record pe { states = λ u. if u == t then s else pe.states u }

  unfoldable pub incr_pending : ℕ → Pe R → Pe R
  incr_pending t pe =
      set_state t (record (pe.states t) { pending = (pe.states t).pending +ℤ pos 1 }) pe

  -- remoteGravityDone and localGravityDone call traversalDone.
  unfoldable pub gravity_done : ℕ → Pe R → Pe R
  gravity_done t pe = record pe { completed = t ∷ pe.completed }

  unfoldable pub decr_pending : ℕ → ℕ → Pe R → Pe R
  decr_pending t n pe =
      set_state t (record (pe.states t) { pending = (pe.states t).pending -ℤ pos n }) pe

  -- The message, the flag and the node, the first time the key is asked for, and the requestor.
  unfoldable pub file_request : What → ℕ → ℕ → NodeType → Requestor → Pe R → Pe R
  file_request what key owner leaf_type r pe =
      let q = find_request what key pe.requests in
      record pe {
        requests =
            put_request what key
              (record q {
                sent = true;
                parent = if q.sent then q.parent else some leaf_type;
                requestors = q.requestors ++ r ∷ [];
              })
              pe.requests;
        outbox =
            if q.sent
            then pe.outbox
            else record { what = what; key = key; owner = owner } ∷ pe.outbox;
      }

  -- requestParticles.
  unfoldable pub request_particles : NodeCore R → Requestor → Pe R → Option (Pe R)
  request_particles leaf r pe =
      if (find_request particles leaf.key pe.requests).sent || (leaf.owner_start == leaf.owner_end)
      then some (file_request particles leaf.key leaf.owner_start leaf.node_type r pe)
      else none

  unfoldable pub request_from : ℤ → ℕ → NodeType → Requestor → Pe R → Option (Pe R)
  request_from (pos owner) key leaf_type r pe = some (file_request nodes key owner leaf_type r pe)
  request_from (negsuc n) key leaf_type r pe = none

  -- requestNode, on the PE my_pe with the particle counts of the TreePieces.
  unfoldable pub request_node : ℕ → List ℕ → NodeCore R → Requestor → Pe R → Option (Pe R)
  request_node my_pe tp_counts leaf r pe =
      if (find_request nodes leaf.key pe.requests).sent
      then some (file_request nodes leaf.key leaf.owner_start leaf.node_type r pe)
      else request_from (serving_owner my_pe leaf.owner_start leaf.owner_end tp_counts leaf.key)
          leaf.key leaf.node_type r pe

  -- What a walk of group g for the State t does to the PE.
  unfoldable pub actions : ℕ → List ℕ → ℕ → ℕ → Actions R (Pe R)
  actions my_pe tp_counts t g = record {
    add_source = λ b mass position pe. record pe {
      sources =
          record { state = t; group = g; bucket = b; mass = mass; position = position }
          ∷ pe.sources;
    };
    fetch_particles = λ leaf mask pe.
        request_particles leaf (record { state = t; group = g; mask = mask }) (incr_pending t pe);
    fetch_node = λ leaf mask pe.
        request_node my_pe tp_counts leaf (record { state = t; group = g; mask = mask })
          (incr_pending t pe);
  }

  -- The worker of a State, with the context's group.
  unfoldable pub worker_of : ℕ → List (Vector R) → TraversalWorker R
  worker_of t centres =
      if is_local t then local_traversal_worker centres else remote_traversal_worker centres
