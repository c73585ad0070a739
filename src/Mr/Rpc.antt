-- ===== src/Mr/Rpc.antt =====
-- Lab 2/src/mr/rpc.go: what the coordinator and the workers exchange.
use tda596_labs.Base.{ℕ, String, Bool, false}

-- An index is a number that is not negative: the coordinator makes no other.
pub record Task : Type 0 where
  pub id : ℕ
  pub file : String
  pub task_type : String
  pub num_of_files : ℕ

-- `Task{}`
abbrev pub empty_task : Task
empty_task = record { id = 0; file = ""; task_type = ""; num_of_files = 0 }

-- A time is a number of nanoseconds since the clock's origin; the zero time is 0.
pub record TaskStatus : Type 0 where
  pub assigned : Bool
  pub worker_id : ℕ
  pub start_time : ℕ
  pub completed : Bool

-- `TaskStatus{}`
abbrev pub empty_status : TaskStatus
empty_status = record { assigned = false; worker_id = 0; start_time = 0; completed = false }
