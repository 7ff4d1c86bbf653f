-- ===== src/Dmt.antt =====
-- The package dmt.
pub mod SortedSlice
pub mod Peers
pub mod Merkle
pub mod Election
pub mod Forest
pub mod Guard
pub mod Log
pub mod Tree
pub mod Latency
