-- ===== src/Hpx.antt =====
-- The HPX implementation (hpx/): Morton keys, the linear octree and its distribution.
pub mod Morton
pub mod Octree
pub mod LoadBalance
pub mod ShardedMap
pub mod OctreeMap
pub mod Merge
pub mod Walk
pub mod Scene
pub mod BoundingBox
pub mod Traversal
pub mod Exchange
pub mod Flatten
pub mod FullTrees
pub mod Forces
pub mod Energy
mod Examples
