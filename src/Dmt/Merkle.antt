-- ===== src/Dmt/Merkle.antt =====
-- dmt/merkle.go and dmt/merkle_snapshot.go: the hash tree over key-value pairs. The snapshot of
-- the current tree is published through an atomic pointer; with no other writer the first
-- compare-and-swap of `Insert` and of `Rebuild` succeeds. SHA-256 is a parameter: the standard
-- library's digest of a byte string.
pub mod Nodes
pub mod Build
pub mod Proof
pub mod Diff
pub mod Tree
mod Tests
