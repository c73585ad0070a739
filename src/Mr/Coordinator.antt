-- ===== src/Mr/Coordinator.antt =====
-- Lab 2/src/mr/coordinator.go. A handler returns the new coordinator; `panic` is an index out of
-- range. Each handler holds the mutex throughout, so it is one atomic step. The log lines, which
-- print only, are left out.
pub mod Status
pub mod Assign
pub mod Growth
pub mod Report
pub mod Later
pub mod Invariant
pub mod Preserve
pub mod System
pub mod Job
pub mod Timeouts
mod Tests
use tda596_labs.Base.{
  ℕ, zero, suc, ◌+◌, ◌-◌, ◌*◌, String, Bool, true, false, not, ◌&&◌, Option, none, some, List, [],
  ◌∷◌, ltb, str_eq, if◌then◌else◌, length, get_elem?, modify, all, replicate,
}
use tda596_labs.Base.Run.{Run, ok, panic}
use tda596_labs.Mr.Rpc.{Task, empty_task, TaskStatus, empty_status}

pub record Coordinator : Type 0 where
  pub map_tasks : List Task
  pub reduce_tasks : List Task
  pub map_task_status : List TaskStatus
  pub reduce_task_status : List TaskStatus
  pub n_map : ℕ
  pub n_reduce : ℕ
  pub files : List String
  pub completed : Bool
  pub logging_enabled : Bool

-- The guard of both loops of AssignTask.
unfoldable pub is_idle : TaskStatus → Bool
is_idle s = not s.completed && not s.assigned

-- The index at which such a loop returns, if it does.
unfoldable pub first_idle : List TaskStatus → Option ℕ
unfolding is_idle
first_idle [] = none
first_idle (s ∷ ss) =
    if is_idle s then some 0 else (elim (first_idle ss) [ none ↦ none | some i ↦ some (suc i) ])

abbrev pub is_done : TaskStatus → Bool
is_done s = s.completed

unfoldable pub all_map_tasks_done : Coordinator → Bool
all_map_tasks_done c = all is_done c.map_task_status

unfoldable pub all_reduce_tasks_done : Coordinator → Bool
all_reduce_tasks_done c = all is_done c.reduce_task_status

abbrev pub mark_assigned : ℕ → TaskStatus → TaskStatus
mark_assigned now s = record s { assigned = true; start_time = now }

-- The bodies of the two loops, at the index where they return.
assign_map : (now : ℕ) → Coordinator → ℕ → Run (Coordinator × Task)
assign_map now c i = elim (get_elem? c.map_tasks i) [
  | none ↦ panic
  | some t ↦ ok (record c { map_task_status = modify c.map_task_status i (mark_assigned now) }, t)
]

assign_reduce : (now : ℕ) → Coordinator → ℕ → Run (Coordinator × Task)
assign_reduce now c i = elim (get_elem? c.reduce_tasks i) [
  | none ↦ panic
  | some t ↦
      ok (record c { reduce_task_status = modify c.reduce_task_status i (mark_assigned now) }, t)
]

-- The end of AssignTask, where no task was found.
exit_or_wait : Coordinator → Task → Run (Coordinator × Task)
unfolding all_map_tasks_done all_reduce_tasks_done
exit_or_wait c reply =
    if all_map_tasks_done c && all_reduce_tasks_done c
    then ok (c, record reply { task_type = "exit" })
    else ok (c, record reply { task_type = "wait" })

-- The second loop, which runs only once every map task is done.
assign_after_map : (now : ℕ) → Coordinator → Task → Run (Coordinator × Task)
unfolding assign_reduce exit_or_wait first_idle
assign_after_map now c reply =
    if all_map_tasks_done c
    then (elim (first_idle c.reduce_task_status) [
      | some i ↦ assign_reduce now c i
      | none ↦ exit_or_wait c reply
    ])
    else exit_or_wait c reply

-- `reply` is the caller's variable before the call; `now` is the time of the call.
unfoldable pub assign_task : (now : ℕ) → Coordinator → (reply : Task) → Run (Coordinator × Task)
unfolding assign_map assign_after_map first_idle
assign_task now c reply = elim (first_idle c.map_task_status) [
  | some i ↦ assign_map now c i
  | none ↦ assign_after_map now c reply
]

abbrev pub mark_done : TaskStatus → TaskStatus
mark_done s = record s { completed = true; assigned = false }

unfoldable pub report_task_done : Coordinator → (args : Task) → Run Coordinator
report_task_done c args =
    if str_eq args.task_type "map"
    then (if ltb args.id (length c.map_task_status)
        then ok (record c { map_task_status = modify c.map_task_status args.id mark_done })
        else panic)
    else if str_eq args.task_type "reduce"
    then (if ltb args.id (length c.reduce_task_status)
        then ok (record c { reduce_task_status = modify c.reduce_task_status args.id mark_done })
        else panic)
    else ok c

-- 10*time.Second in nanoseconds.
abbrev pub task_timeout : ℕ
task_timeout = 10 * 1000000000

-- The guard of both loops of checkTaskTimeouts, at the time `now`; `time.Since` of a later time is
-- negative in the source and 0 here, and neither is above the limit.
unfoldable pub is_late : (now : ℕ) → TaskStatus → Bool
is_late now s = s.assigned && not s.completed && ltb task_timeout (now - s.start_time)

-- One of the loops: the clock is read anew at each index.
unfoldable pub reassign : (clock : ℕ → ℕ) → ℕ → List TaskStatus → List TaskStatus
unfolding is_late
reassign clock i [] = []
reassign clock i (s ∷ ss) =
    (if is_late (clock i) s then record s { assigned = false } else s) ∷ reassign clock (suc i) ss

-- What checkTaskTimeouts does each second while it holds the lock.
unfoldable pub check_task_timeouts : (map_clock reduce_clock : ℕ → ℕ) → Coordinator → Coordinator
unfolding reassign
check_task_timeouts map_clock reduce_clock c = record c {
  map_task_status = reassign map_clock 0 c.map_task_status;
  reduce_task_status = reassign reduce_clock 0 c.reduce_task_status;
}

unfoldable pub done : Coordinator → Coordinator × Bool
unfolding all_map_tasks_done all_reduce_tasks_done
done c =
    if all_map_tasks_done c && all_reduce_tasks_done c
    then (record c { completed = true }, true)
    else (c, false)

unfoldable pub make_map_tasks : (n_reduce i : ℕ) → List String → List Task
make_map_tasks n_reduce i [] = []
make_map_tasks n_reduce i (f ∷ fs) =
    record { id = i; file = f; task_type = "map"; num_of_files = n_reduce }
    ∷ make_map_tasks n_reduce (suc i) fs

unfoldable pub make_reduce_tasks : (n_files i rest : ℕ) → List Task
make_reduce_tasks n_files i zero = []
make_reduce_tasks n_files i (suc rest) =
    record { id = i; file = ""; task_type = "reduce"; num_of_files = n_files }
    ∷ make_reduce_tasks n_files (suc i) rest

-- MakeCoordinator, less the start of the RPC server and of the timeout loop.
unfoldable pub make_coordinator : List String → ℕ → Coordinator
unfolding make_map_tasks make_reduce_tasks
make_coordinator files n_reduce = record {
  map_tasks = make_map_tasks n_reduce 0 files;
  reduce_tasks = make_reduce_tasks (length files) 0 n_reduce;
  map_task_status = replicate (length files) empty_status;
  reduce_task_status = replicate n_reduce empty_status;
  n_map = length files;
  n_reduce = n_reduce;
  files = files;
  completed = false;
  logging_enabled = false;
}
