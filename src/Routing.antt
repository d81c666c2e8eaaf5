-- ===== src/Routing.antt =====
-- src/routing.rs: the buckets, the routing table over them, and the walk that finds neighbours.
pub mod Bucket
pub mod Table
pub mod Neighbors
pub mod Known
mod Tests
