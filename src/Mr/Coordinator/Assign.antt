-- ===== src/Mr/Coordinator/Assign.antt =====
-- Every branch of AssignTask in coordinator.go.
use tda596_labs.Base.{
  ℕ, ◌≡◌, inl, inr, true, Option, none, some, arith, length, get_elem?, modify, get_elem?-of_lt,
  get_elem?-eq-some-lt, Bool-cases,
}
use tda596_labs.Base.Run.{Run, ok}
use tda596_labs.Mr.Rpc.{Task}
use tda596_labs.Mr.Coordinator.{
  Coordinator, first_idle, all_map_tasks_done, all_reduce_tasks_done, mark_assigned, assign_map,
  assign_reduce, exit_or_wait, assign_after_map, assign_task,
}
use tda596_labs.Mr.Coordinator.Status.{
  IdleAt, InProgress, first_idle-IdleAt, InProgress-of_not_done,
}

-- The answers that AssignTask may give, with what holds of the coordinator in each case.
pub data Outcome (now : ℕ) (c : Coordinator) (reply : Task)
    : Run (Coordinator × Task) → Type 0 where
  map_task :
      (i : ℕ) (t : Task)
      → IdleAt c.map_task_status (some i)
      → get_elem? c.map_tasks i ≡ some t
      → Outcome now c reply
          (ok (record c { map_task_status = modify c.map_task_status i (mark_assigned now) }, t))
  reduce_task :
      (i : ℕ) (t : Task)
      → IdleAt c.map_task_status none
      → all_map_tasks_done c ≡ true
      → IdleAt c.reduce_task_status (some i)
      → get_elem? c.reduce_tasks i ≡ some t
      → Outcome now c reply (
          ok (
            record c { reduce_task_status = modify c.reduce_task_status i (mark_assigned now) },
            t,
          ))
  exit :
      all_map_tasks_done c ≡ true
      → all_reduce_tasks_done c ≡ true
      → Outcome now c reply (ok (c, record reply { task_type = "exit" }))
  wait_map :
      IdleAt c.map_task_status none
      → InProgress c.map_task_status
      → Outcome now c reply (ok (c, record reply { task_type = "wait" }))
  wait_reduce :
      IdleAt c.map_task_status none
      → all_map_tasks_done c ≡ true
      → IdleAt c.reduce_task_status none
      → InProgress c.reduce_task_status
      → Outcome now c reply (ok (c, record reply { task_type = "wait" }))

module _ (now : ℕ) (c : Coordinator) (reply : Task) where
  assign_map-Outcome :
      (i : ℕ)
      → length c.map_tasks ≡ length c.map_task_status
      → IdleAt c.map_task_status (some i)
      → Outcome now c reply (assign_map now c i)
  unfolding assign_map
  assign_map-Outcome i len ((s, at, idle), before) =
      let lt = get_elem?-eq-some-lt c.map_task_status i at in
      let (t, e) = get_elem?-of_lt c.map_tasks i (omega arith) in
      rw (e, assign_map) (map_task i t ((s, at, idle), before) e)

  assign_reduce-Outcome :
      (i : ℕ)
      → length c.reduce_tasks ≡ length c.reduce_task_status
      → IdleAt c.map_task_status none
      → all_map_tasks_done c ≡ true
      → IdleAt c.reduce_task_status (some i)
      → Outcome now c reply (assign_reduce now c i)
  unfolding assign_reduce
  assign_reduce-Outcome i len none_idle maps ((s, at, idle), before) =
      let lt = get_elem?-eq-some-lt c.reduce_task_status i at in
      let (t, e) = get_elem?-of_lt c.reduce_tasks i (omega arith) in
      rw (e, assign_reduce) (reduce_task i t none_idle maps ((s, at, idle), before) e)

  exit_or_wait-Outcome :
      IdleAt c.map_task_status none
      → all_map_tasks_done c ≡ true
      → IdleAt c.reduce_task_status none
      → Outcome now c reply (exit_or_wait c reply)
  unfolding exit_or_wait
  exit_or_wait-Outcome none_map maps idle = elim (Bool-cases (all_reduce_tasks_done c)) [
    | inl reduces ↦ rw (maps, reduces) (exit maps reduces)
    | inr more ↦
        rw (maps, more)
          (wait_reduce none_map maps idle
            (unfold all_reduce_tasks_done in InProgress-of_not_done c.reduce_task_status idle more))
  ]

  assign_after_map-Outcome :
      length c.reduce_tasks ≡ length c.reduce_task_status
      → IdleAt c.map_task_status none
      → Outcome now c reply (assign_after_map now c reply)
  unfolding assign_after_map
  assign_after_map-Outcome len idle = elim (Bool-cases (all_map_tasks_done c)) [
    | inl maps ↦
        rw maps (
          at_reduce maps (first_idle c.reduce_task_status) (first_idle-IdleAt c.reduce_task_status))
    | inr more ↦ rw more (
        wait_map idle
          (unfold all_map_tasks_done in InProgress-of_not_done c.map_task_status idle more))
  ]
    where
      at_reduce :
          all_map_tasks_done c ≡ true
          → (r : Option ℕ) → IdleAt c.reduce_task_status r
          → Outcome now c reply
              (elim r [ some i ↦ assign_reduce now c i | none ↦ exit_or_wait c reply ])
      at_reduce maps none none_idle = exit_or_wait-Outcome idle maps none_idle
      at_reduce maps (some i) found = assign_reduce-Outcome i len idle maps found

  -- Given as many statuses as tasks, AssignTask answers with the first idle map task, else, once
  -- every map task is done, with the first idle reduce task, and marks that task as assigned now.
  -- It answers "exit" only if every task is done and "wait" only while a worker holds an
  -- unfinished task of the running phase; then the coordinator is unchanged. It never panics.
  pub assign_task-Outcome :
      length c.map_tasks ≡ length c.map_task_status
      → length c.reduce_tasks ≡ length c.reduce_task_status
      → Outcome now c reply (assign_task now c reply)
  unfolding assign_task
  assign_task-Outcome maps reduces =
      at_map (first_idle c.map_task_status) (first_idle-IdleAt c.map_task_status)
    where
      at_map :
          (r : Option ℕ)
          → IdleAt c.map_task_status r
          → Outcome now c reply
              (elim r [ some i ↦ assign_map now c i | none ↦ assign_after_map now c reply ])
      at_map none none_idle = assign_after_map-Outcome reduces none_idle
      at_map (some i) found = assign_map-Outcome i maps found
