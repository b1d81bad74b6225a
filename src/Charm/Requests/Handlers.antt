-- ===== src/Charm/Requests/Handlers.antt =====
-- The handlers of a PE: the delivery of a reply in charm/Request.cpp, `recvNode` and `recvParticles` of
-- charm/DataManager.cpp, and `startTraversal`, `doLocalGravity` and `doRemoteGravity` of
-- charm/TreePiece.cpp.
use amt_bh_benchmark.Base.{
  ℕ, zero, suc, ◌+◌, ◌-◌, ◌*◌, Bool, true, not, ◌&&◌, ◌||◌, ltb, ◌==◌, if◌then◌else◌, Option, none,
  some, List, [], ◌∷◌, ◌++◌, length, get_or, range_from,
}
use amt_bh_benchmark.Base.Int.{pos}
use amt_bh_benchmark.Base.Real.{Real}
use amt_bh_benchmark.Charm.Tree.{Vector, Particle, Node, Nodes, none_left, child, size}
use amt_bh_benchmark.Charm.GravityWalk.{apply_particles, and_go_on, gravity_walk}
use amt_bh_benchmark.Charm.Requests.{
  What, nodes, particles, Requestor, Pe, find_request, put_request, complete, has_requestors,
  fits_parent, is_local, set_state, gravity_done, decr_pending, actions, worker_of,
}
use amt_bh_benchmark.Charm.Requests.Fetched.{deserialize_all, attach, set_particles}

module _ {R : Type 0} where
  -- TraversalWorker::done does nothing, RemoteTraversalWorker::done calls remoteGravityDone.
  unfoldable pub worker_done : ℕ → Pe R → Pe R
  worker_done t pe = if is_local t then pe else gravity_done t pe

  -- if(state->decrPending()) worker->done()
  unfoldable pub finish_if_complete : ℕ → Pe R → Pe R
  finish_if_complete t pe = if complete (pe.states t) then worker_done t pe else pe

  -- The first requestor that waits, and the rest. The code's index only moves on, and the list is
  -- cleared at the end, so a requestor that was resumed is not read again.
  unfoldable pub set_requestors : What → ℕ → List Requestor → Pe R → Pe R
  set_requestors what key rs pe =
      let q = find_request what key pe.requests in
      record pe { requests = put_request what key (record q { requestors = rs }) pe.requests }

  unfoldable pub deliver_loop :
      ℕ → What → ℕ → (Requestor → Pe R → Option (Pe R)) → List Requestor → Pe R → Option (Pe R)
  deliver_loop fuel what key resume [] pe = some pe
  deliver_loop zero what key resume (r ∷ rs) pe = none
  deliver_loop (suc fuel) what key resume (r ∷ rs) pe =
      and_go_on (resume r (set_requestors what key rs pe)) λ pe'.
        let pe'' = finish_if_complete r.state (decr_pending r.state 1 pe') in
        deliver_loop fuel what key resume (find_request what key pe''.requests).requestors pe''

  -- The asserts of recvParticles and recvNode; then the message is kept.
  unfoldable pub answer : What → ℕ → Pe R → Option (Pe R)
  answer what key pe =
      let q = find_request what key pe.requests in
      if has_requestors q.requestors && (q.sent && (not q.answered && fits_parent what q.parent))
      then some
          (record pe { requests = put_request what key (record q { answered = true }) pe.requests })
      else none

  unfoldable pub deliver : What → ℕ → (Requestor → Pe R → Option (Pe R)) → Pe R → Option (Pe R)
  deliver what key resume pe =
      let rs = (find_request what key pe.requests).requestors in
      deliver_loop (length rs) what key resume rs pe

  unfoldable pub reset : ℕ → ℕ → Pe R → Pe R
  reset t p pe = set_state t (record { pending = pos p; current = 0 }) pe

  -- startTraversal of TreePiece i, whose walk groups both of its States go through.
  unfoldable pub start_traversal : ℕ → List (List (Vector R)) → Pe R → Pe R
  start_traversal i groups pe =
      let l = 2 * i in
      let r = 2 * i + 1 in
      let with_groups : Pe R = record pe {
        walk_groups = λ u. if (u == l) || (u == r) then groups else pe.walk_groups u;
      } in
      let started : Pe R = reset l (length groups) (reset r (length groups) with_groups) in
      if length groups == 0
      then gravity_done r (gravity_done l with_groups)
      else record started { scheduled = pe.scheduled ++ r ∷ l ∷ [] }

  unfoldable pub next_group : ℕ → Pe R → Pe R
  next_group t pe = set_state t (record (pe.states t) { current = (pe.states t).current + 1 }) pe

  -- decrPending(i), then done or the next message.
  unfoldable pub after_groups : ℕ → ℕ × Pe R → Pe R
  after_groups t (i, pe) =
      let pe' = decr_pending t i pe in
      if complete (pe'.states t)
      then gravity_done t pe'
      else if ltb (pe'.states t).current (length (pe'.walk_groups t))
      then record pe' { scheduled = pe'.scheduled ++ t ∷ [] }
      else pe'

module _ {R : Type 0} where
  -- The DataManager starts its TreePieces, from the i-th on: its messages to them are handled one after
  -- the other, before any walk goes on.
  unfoldable pub start_all : ℕ → List (List (List (Vector R))) → Pe R → Pe R
  start_all i [] pe = pe
  start_all i (groups ∷ rest) pe = start_all (i + 1) rest (start_traversal i groups pe)

module _ {R : Type 0} (real : Real R) where
  -- CkAssert(!isnan(position.length())) for each particle; a NaN does not equal itself.
  unfoldable pub all_numbers : List (Particle R) → Bool
  all_numbers [] = true
  all_numbers (p ∷ ps) =
      let at = p.position in
      let length_squared =
        real.add (real.add (real.mul at.x at.x) (real.mul at.y at.y)) (real.mul at.z at.z) in
      let distance = real.sqrt length_squared in real.same distance distance && all_numbers ps

module _ {R : Type 0} (real : Real R) (tolsq : R) (branch_factor yield_period my_pe : ℕ)
    (tp_counts : List ℕ) where
  -- A walk from a node, on as many rounds as it has nodes.
  unfoldable pub walk_from : ℕ → ℕ → List ℕ → Node R → Pe R → Option (Pe R)
  walk_from t g mask n pe =
      gravity_walk real (actions my_pe tp_counts t g) tolsq
        (worker_of t (get_or (pe.walk_groups t) g [])) branch_factor (size n) n mask pe

  -- The while loop of doLocalGravity and doRemoteGravity: i groups so far, with `buckets` buckets.
  -- Its fuel is the number of the groups that are left.
  unfoldable pub walk_groups_loop : ℕ → ℕ → ℕ → ℕ → Pe R → Option (ℕ × Pe R)
  walk_groups_loop zero t buckets i pe = some (i, pe)
  walk_groups_loop (suc fuel) t buckets i pe =
      let g = (pe.states t).current in
      let centres = get_or (pe.walk_groups t) g [] in
      let next =
        and_go_on (walk_from t g (range_from 0 (length centres)) pe.root pe)
          λ pe'. walk_groups_loop fuel t (buckets + length centres) (i + 1) (next_group t pe') in
      if ltb buckets yield_period && ltb g (length (pe.walk_groups t)) then next else some (i, pe)

  -- doLocalGravity for an even State, doRemoteGravity for an odd one.
  unfoldable pub do_gravity : ℕ → Pe R → Option (Pe R)
  do_gravity t pe =
      and_go_on (walk_groups_loop (length (pe.walk_groups t) - (pe.states t).current) t 0 0 pe)
        (λ done. some (after_groups t done))

  -- The loop of deliverNode over the received children.
  unfoldable pub walk_children : ℕ → ℕ → List ℕ → Nodes R → Pe R → Option (Pe R)
  walk_children t g mask none_left pe = some pe
  walk_children t g mask (child n ns) pe =
      and_go_on (walk_from t g mask n pe) (λ pe'. walk_children t g mask ns pe')

  unfoldable pub resume_nodes : Nodes R → Requestor → Pe R → Option (Pe R)
  resume_nodes cs r pe = walk_children r.state r.group r.mask cs pe

  unfoldable pub resume_particles : List (Particle R) → Requestor → Pe R → Option (Pe R)
  resume_particles ps r pe =
      if all_numbers real ps
      then some (apply_particles (actions my_pe tp_counts r.state r.group) ps r.mask pe)
      else none

  -- recvNode with the subtrees of the message.
  unfoldable pub recv_node : ℕ → Nodes R → Pe R → Option (Pe R)
  recv_node key message pe = and_go_on (answer nodes key pe) λ pe'.
      and_go_on (deserialize_all message)
        λ cs. deliver nodes key (resume_nodes cs) (record pe' { root = attach key cs pe'.root })

  -- recvParticles.
  unfoldable pub recv_particles : ℕ → List (Particle R) → Pe R → Option (Pe R)
  recv_particles key ps pe = and_go_on (answer particles key pe) λ pe'.
      deliver particles key (resume_particles ps)
        (record pe' { root = set_particles key ps pe'.root })
