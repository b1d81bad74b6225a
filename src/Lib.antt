-- ===== src/Lib.antt =====
-- Verification of the Barnes-Hut benchmark, which implements one N-body simulation on several
-- task-based runtimes: hpx/ (HPX), charm/ (Charm++), ttg-parsec/ (TTG), ItoyoriFBC/ (Itoyori).
--
-- Hpx models hpx/. Hpx.Morton is hpx/src/morton_keys.cpp: `spread21`, `compact21`, `morton63`,
-- `mortonPrefix` and `decodePrefix` on numbers below 2^64, with the wrap of `<<` written out.
-- Hpx.Octree is the build of hpx/src/linear_octree.cpp: `buildSubtreeSerial`
-- (build_subtree_serial, its octant loop sweep), `buildSubtreeAsync` and `collectBufs`
-- (Octree.Async), and their call from `buildOctreeBottomUp` up to the filling of the map
-- (Octree.Root). The recursion is on the levels left below a cell, 21 at the root, so it needs no
-- fuel; a while loop over a range recurs on the length of that range. A future is its value.
--
-- Hpx.LoadBalance is hpx/src/load_balancing.cpp, with the collectives of HPX as parameters.
-- Hpx.ShardedMap is hpx/include/sharded_map.h over the interface Base.Eq.HashMap, which stands for
-- the tables of robin_hood; Hpx.OctreeMap is the map of nodes, and Hpx.Merge is
-- `mergeRecordsIntoTree` of hpx/src/linear_octree.cpp on it.
--
-- Hpx.Walk is the loop over an explicit stack of the tree walks. Each visit of a node uses up more
-- of the fuel, 9^21, than its children ask for, so it is enough for 21 levels. Hpx.Scene is what a
-- walk runs on, Hpx.Traversal the walk of a body in hpx/src/traversal.cpp and hpx/src/energy.cpp,
-- Hpx.Forces and Hpx.Energy the functions of these two files, the energies from the flat tree on.
-- Hpx.Flatten is `flattenTree` of hpx/src/linear_octree.cpp, on fuel that is enough for the same
-- reason. Hpx.BoundingBox is hpx/src/bounding_box.cpp and `generateMortonCodes`, and Hpx.Exchange
-- the locally essential trees of hpx/src/exchange.cpp, on the map of nodes; Hpx.FullTrees is its
-- `exchangeFullTrees`.
--
-- Charm models charm/. Charm.Search is `binary_search_ge` of charm/util.h, on fuel in the length
-- of the range, which each round at least halves. Charm.KeyBits is the arithmetic of the keys of
-- tree nodes: `mssb64_pos` of charm/util.cpp, `getDepthFromKey`, `getParticleLevelKey` and
-- `getLastParticleLevelKey` of charm/Node.h. Charm.Splitters is `findSplitters` of charm/util.cpp,
-- on top of both. Charm.WalkGroups is `TreePiece::formWalkGroups` of charm/TreePiece.cpp; each of
-- its groups takes a bucket, so fuel in the number of buckets is enough. Charm.Owners is
-- `servingOwner` of charm/Descriptor.h, and Charm.Ownership is `getOwnershipFromChildren` of
-- charm/Node.h, with CkAbort as `none`.
--
-- Charm.Tree is the tree of a PE, and Charm.GravityWalk its walk, `gravityWalk` of
-- charm/Traversal_defs.h with the workers of charm/Worker.h, on as many rounds as the tree has
-- nodes: each round takes another node from the stack. The interaction lists and the DataManager
-- are the interface `Actions`. Charm.Requests fills it with the State of a PE: the counters of
-- charm/State.h, the requests of charm/Request.h and charm/DataManager.cpp with `requestNode`,
-- `requestParticles`, `recvNode` and `recvParticles`, and the handlers of charm/TreePiece.cpp
-- (Charm.Requests.Handlers, and Charm.Requests.Fetched for what a reply puts into the tree). Each
-- round of the loop over the groups takes one of those that are left, and each round of a delivery
-- one of the requestors, so their fuel is the number of these. Charm.Requests.Progress has the
-- messages as events that come in any order; what a reply holds is a premise of its event: the
-- children of the node, sound as the tree of the PE is, and none of them answered before, or at
-- least one particle, at positions that are not NaN. Charm.Reply makes such a reply, with the
-- count by which its message is allocated; Charm.Reply.Received reads it, its offsets as pointers
-- again. A tree is sound if its nodes have the depths of their keys, at most 64, and at most
-- BRANCH_FACTOR children, and each leaf is one that `gravityLeaf` accepts, whose owner can serve
-- it and whose request was not answered.
--
-- Ttg models ttg-parsec/. Ttg.Key is ttg-parsec/src/key.h: the keys of the octree, their parents
-- and children, the iteration over the children, `is_ancestor_of`, `neighbor` and `is_valid`.
-- Translations are integers, which child_at wraps to 32 bits; 8 rounds are the iteration over the
-- children. Ttg.Tree is the build of the tree, ttg-parsec/src/tree.cc, whose recursion is on the
-- levels that are left, 31 at the root.
--
-- Base holds what the parts share: Boolean tests, lists over the native numbers, integers, the
-- laws of the bitwise operations, and the interface Real of floating-point arithmetic, whose type
-- and operations are parameters with no law assumed. Base.Table is a table that fills the
-- interface HashMap, and Base.Whole fills Real with whole numbers, to run definitions.
--
-- Not modelled: input and output, the text formats, timing, the runtimes themselves, and the
-- parsers and tables of other projects that the repository carries (tinyxml2, cxxopts, robin_hood,
-- the Itoyori library under ItoyoriFBC/include). Of hpx/, the filling of the map after the build,
-- `buildTreeFromPseudoLeaves` and the time step of hpx/src/main.cpp are left out, of charm/ the
-- decomposition, the moments, the replies with particles, and the end of a step, of ttg-parsec/
-- the passes over the tree, and ItoyoriFBC/ as a whole.
pub mod Base
pub mod Charm
pub mod Hpx
pub mod Ttg
