-- ===== src/Structure.antt =====
-- The rings of the structure package.
pub mod Offline
pub mod Clock
pub mod Spsc
pub mod Mpmc
pub mod ListRing
mod Tests
