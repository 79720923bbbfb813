-- ===== src/Consolidation.antt =====
-- consolidation
pub mod UnionFind
pub mod Forest
pub mod Cluster
pub mod Linking
pub mod Rows
pub mod Groups
pub mod Partition
pub mod Engine
pub mod Untouched
mod Examples
