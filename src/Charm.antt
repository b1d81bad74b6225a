-- ===== src/Charm.antt =====
-- The Charm++ implementation (charm/).
pub mod Search
pub mod Splitters
pub mod KeyBits
pub mod WalkGroups
pub mod Owners
pub mod Ownership
pub mod Tree
pub mod GravityWalk
pub mod Requests
pub mod Reply
mod Examples
