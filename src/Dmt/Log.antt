-- ===== src/Dmt/Log.antt =====
-- dmt/persist.go: the write-ahead log of a tree.
pub mod Frame
pub mod Replay
pub mod Records
pub mod Store
mod Tests
