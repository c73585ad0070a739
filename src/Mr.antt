-- ===== src/Mr.antt =====
-- The package mr (Lab 2/src/mr): the coordinator of a MapReduce job and its workers.
pub mod Rpc
pub mod Coordinator
pub mod Worker
pub mod Sequential
