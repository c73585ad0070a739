-- ===== src/Models.antt =====
-- The models that the tests check histories with (Lab 2/src/models).
pub mod Kv
