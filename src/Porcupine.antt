-- ===== src/Porcupine.antt =====
-- The package porcupine (Lab 2/src/porcupine), a checker of linearizability.
pub mod Bitset
pub mod Model
pub mod Entry
pub mod Links
pub mod Spec
pub mod Tags
pub mod Linking
pub mod Single
pub mod Laid
pub mod Parallel
pub mod Api
mod Tests
