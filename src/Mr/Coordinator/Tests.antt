-- ===== src/Mr/Coordinator/Tests.antt =====
-- Runs of coordinator.go, and its theorems at concrete states.
use tda596_labs.Base.{ℕ, ◌≡◌, ◌≢◌, refl, true, false, some, List, [], ◌∷◌, String, arith, get_elem?}
use tda596_labs.Base.Run.{ok, panic, Returns}
use tda596_labs.Mr.Rpc.{Task, empty_task, TaskStatus}
use tda596_labs.Mr.Coordinator.{
  Coordinator, make_coordinator, assign_task, report_task_done, done, check_task_timeouts,
  all_map_tasks_done,
}
use tda596_labs.Mr.Coordinator.Assign.{Outcome, assign_task-Outcome}
use tda596_labs.Mr.Coordinator.Invariant.{WellFormed}
use tda596_labs.Mr.Coordinator.Preserve.{make_coordinator-WellFormed, assign_task-WellFormed}
use tda596_labs.Mr.Coordinator.System.{
  System, Step, asks, reports, Reach, here, next, start, ask, report,
}
use tda596_labs.Mr.Coordinator.Job.{
  reduce_after_map, exit_when_done, job_never_panics, done_for_good,
}
use tda596_labs.Mr.Coordinator.Timeouts.{map_task_recovered}

abbrev two_files : List String
two_files = "a.txt" ∷ "b.txt" ∷ []

abbrev one_file : List String
one_file = "a.txt" ∷ []

first_answer :
    assign_task 5 (make_coordinator two_files 1) empty_task
    ≡ ok (
      record (make_coordinator two_files 1) {
        map_task_status =
            record { assigned = true; worker_id = 0; start_time = 5; completed = false }
            ∷ record { assigned = false; worker_id = 0; start_time = 0; completed = false }
            ∷ [];
      },
      record { id = 0; file = "a.txt"; task_type = "map"; num_of_files = 1 },
    )
unfolding assign_task make_coordinator
first_answer = refl

-- A report of an index that no task has is an index out of range.
unknown_index :
    report_task_done
      (make_coordinator one_file 1)
      (record { id = 7; file = ""; task_type = "map"; num_of_files = 1 })
    ≡ panic
unfolding report_task_done make_coordinator
unknown_index = refl

assign_task-Outcome_example :
    Outcome 5
      (make_coordinator two_files 1)
      empty_task
      (assign_task 5 (make_coordinator two_files 1) empty_task)
unfolding make_coordinator
assign_task-Outcome_example =
    assign_task-Outcome 5 (make_coordinator two_files 1) empty_task refl refl

-- A job of one file and one bucket, up to the answer "exit".
abbrev map_answer : Task
map_answer = record { id = 0; file = "a.txt"; task_type = "map"; num_of_files = 1 }

abbrev reduce_answer : Task
reduce_answer = record { id = 0; file = ""; task_type = "reduce"; num_of_files = 1 }

abbrev exit_answer : Task
exit_answer = record empty_task { task_type = "exit" }

abbrev held_at : ℕ → TaskStatus
held_at t = record { assigned = true; worker_id = 0; start_time = t; completed = false }

abbrev finished_at : ℕ → TaskStatus
finished_at t = record { assigned = false; worker_id = 0; start_time = t; completed = true }

abbrev state : List TaskStatus → List TaskStatus → List Task → System
state maps reduces handed = record {
  coordinator = record {
    map_tasks = map_answer ∷ [];
    reduce_tasks = reduce_answer ∷ [];
    map_task_status = maps;
    reduce_task_status = reduces;
    n_map = 1;
    n_reduce = 1;
    files = one_file;
    completed = false;
    logging_enabled = false;
  };
  handed = handed;
}

abbrev idle_status : TaskStatus
idle_status = record { assigned = false; worker_id = 0; start_time = 0; completed = false }

abbrev s1 : System
s1 = state (held_at 1 ∷ []) (idle_status ∷ []) (map_answer ∷ [])

abbrev s2 : System
s2 = state (finished_at 1 ∷ []) (idle_status ∷ []) (map_answer ∷ [])

abbrev s3 : System
s3 = state (finished_at 1 ∷ []) (held_at 2 ∷ []) (reduce_answer ∷ map_answer ∷ [])

abbrev s4 : System
s4 = state (finished_at 1 ∷ []) (finished_at 2 ∷ []) (reduce_answer ∷ map_answer ∷ [])

abbrev s5 : System
s5 = state (finished_at 1 ∷ []) (finished_at 2 ∷ []) (exit_answer ∷ reduce_answer ∷ map_answer ∷ [])

map_asked : Step (start one_file 1) s1
unfolding start make_coordinator ask assign_task
map_asked = asks 1 refl

map_reported : Step s1 s2
unfolding report report_task_done
map_reported = reports 0 map_answer refl refl

reduce_asked : Step s2 s3
unfolding ask assign_task
reduce_asked = asks 2 refl

reduce_reported : Step s3 s4
unfolding report report_task_done
reduce_reported = reports 0 reduce_answer refl refl

exit_asked : Step s4 s5
unfolding ask assign_task
exit_asked = asks 3 refl

to_s3 : Reach (start one_file 1) s3
to_s3 = next (next (next here map_asked) map_reported) reduce_asked

s3_to_s5 : Reach s3 s5
s3_to_s5 = next (next here reduce_reported) exit_asked

to_s5 : Reach (start one_file 1) s5
to_s5 = next (next to_s3 reduce_reported) exit_asked

reduce_after_map_example :
    (all_map_tasks_done s3.coordinator ≡ true)
    × (get_elem? s3.coordinator.reduce_tasks 0 ≡ some reduce_answer)
reduce_after_map_example = reduce_after_map one_file 1 to_s3 0 reduce_answer refl refl

exit_when_done_example : (done s5.coordinator).1 ≡ true
exit_when_done_example = exit_when_done one_file 1 to_s5 0 exit_answer refl refl

job_never_panics_example :
    ((now : ℕ) → ask now s3 ≢ panic)
    × ((k : ℕ) (t : Task) → get_elem? s3.handed k ≡ some t → report t s3 ≢ panic)
job_never_panics_example = job_never_panics one_file 1 to_s3

done_for_good_example :
    ((i : ℕ) (st : TaskStatus)
      → get_elem? s3.coordinator.map_task_status i ≡ some st
      → st.completed ≡ true
      → (st' : TaskStatus) × (get_elem? s5.coordinator.map_task_status i ≡ some st')
        × (st'.completed ≡ true))
    × ((i : ℕ) (st : TaskStatus)
        → get_elem? s3.coordinator.reduce_task_status i ≡ some st
        → st.completed ≡ true
        → (st' : TaskStatus) × (get_elem? s5.coordinator.reduce_task_status i ≡ some st')
          × (st'.completed ≡ true))
    × (s5.coordinator.map_tasks ≡ s3.coordinator.map_tasks)
    × (s5.coordinator.reduce_tasks ≡ s3.coordinator.reduce_tasks)
done_for_good_example = done_for_good one_file 1 to_s3 s3_to_s5

-- The first task was handed out at time 0 and is looked at after eleven seconds.
abbrev stuck : Coordinator
stuck = record (make_coordinator one_file 1) { map_task_status = held_at 0 ∷ [] }

stuck-WellFormed : WellFormed stuck
unfolding assign_task make_coordinator
stuck-WellFormed =
    (assign_task-WellFormed 0 (make_coordinator one_file 1) empty_task
      (make_coordinator-WellFormed one_file 1)
      (assign_task-Outcome 0 (make_coordinator one_file 1) empty_task refl refl)).0

map_task_recovered_example :
    Returns
      (λ (d, t). t.task_type ≡ "map")
      (assign_task 11000000001
        (check_task_timeouts (λ i. 11000000000) (λ i. 11000000000) stuck)
        empty_task)
unfolding make_coordinator
map_task_recovered_example =
    map_task_recovered (λ i. 11000000000) (λ i. 11000000000) stuck stuck-WellFormed 11000000001
      empty_task 0
      (record { status = held_at 0; at = refl; held = refl; open_task = refl; late = omega arith })
