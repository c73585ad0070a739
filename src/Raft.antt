-- ===== src/Raft.antt =====
-- The package raft (Lab 2/src/raft), as far as it has code: its persister and checks of its harness.
pub mod Persister
pub mod Isolation
pub mod Config
pub mod Noted
pub mod Agreement
pub mod Committed
mod Tests
