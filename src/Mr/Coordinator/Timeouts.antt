-- ===== src/Mr/Coordinator/Timeouts.antt =====
-- checkTaskTimeouts in coordinator.go gives back the tasks of workers that are gone.
use tda596_labs.Base.{
  ℕ, zero, suc, ◌+◌, ◌-◌, ◌<◌, ◌≡◌, sym, ap, ◌∙◌, true, false, none, some, List, [], ◌∷◌, arith,
  get_elem?, all-get_elem?, if◌then◌else◌,
}
use tda596_labs.Base.Run.{Run, Returns}
use tda596_labs.Mr.Rpc.{Task, TaskStatus}
use tda596_labs.Mr.Coordinator.{
  Coordinator, is_done, is_idle, is_late, task_timeout, reassign, check_task_timeouts,
  all_map_tasks_done, assign_task,
}
use tda596_labs.Mr.Coordinator.Status.{IdleAt}
use tda596_labs.Mr.Coordinator.Assign.{
  Outcome, map_task, reduce_task, exit, wait_map, wait_reduce, assign_task-Outcome,
}
use tda596_labs.Mr.Coordinator.Invariant.{WellFormed}
use tda596_labs.Mr.Coordinator.Preserve.{check_task_timeouts-WellFormed}

abbrev clear_if_late : ℕ → TaskStatus → TaskStatus
clear_if_late now s = if is_late now s then record s { assigned = false } else s

some_eq : {s t : TaskStatus} → some s ≡ some t → s ≡ t
some_eq e = cc

-- Each status is judged at the time read for its own index, and no other is looked at.
get_elem?-reassign :
    (clock : ℕ → ℕ) (i j k : ℕ) (ss : List TaskStatus) {s : TaskStatus}
    → i + j ≡ k
    → get_elem? ss j ≡ some s
    → get_elem? (reassign clock i ss) j ≡ some (clear_if_late (clock k) s)
unfolding reassign
get_elem?-reassign clock i j k [] e at = absurd (cc)
get_elem?-reassign clock i zero k (t ∷ ss) e at =
    let same : i ≡ k = omega arith in
    rw (← same) (ap (λ u. some (clear_if_late (clock i) u)) (some_eq at))
get_elem?-reassign clock i (suc j) k (t ∷ ss) e at =
    get_elem?-reassign clock (suc i) j k ss (omega arith) at

-- A task that a worker holds and has not reported for more than ten seconds.
pub record Lost (now : ℕ) (ss : List TaskStatus) (i : ℕ) : Type 0 where
  pub status : TaskStatus
  pub at : get_elem? ss i ≡ some status
  pub held : status.assigned ≡ true
  pub open_task : status.completed ≡ false
  pub late : task_timeout < now - status.start_time

Lost-idle :
    (clock : ℕ → ℕ) (ss : List TaskStatus) (i : ℕ)
    → Lost (clock i) ss i
    → (s : TaskStatus) × (get_elem? (reassign clock 0 ss) i ≡ some s) × (is_idle s ≡ true)
unfolding is_late is_idle
Lost-idle clock ss i l =
    let found = get_elem?-reassign clock 0 i i ss (omega arith) l.at in
    let is_lost : is_late (clock i) l.status ≡ true = ground (arith, l.held, l.open_task, l.late) in
    (
      record l.status { assigned = false },
      found ∙ ap (λ b. some (if b then record l.status { assigned = false } else l.status)) is_lost,
      ground (arith, l.open_task),
    )

not-idle_of_done :
    (c : Coordinator) (i : ℕ) (s : TaskStatus)
    → all_map_tasks_done c ≡ true
    → get_elem? c.map_task_status i ≡ some s
    → is_idle s ≡ true
    → ⊥
unfolding all_map_tasks_done is_idle
not-idle_of_done c i s maps at is =
    let completed = all-get_elem? is_done c.map_task_status i maps at in ground arith

module _ (map_clock reduce_clock : ℕ → ℕ) (c : Coordinator) (w : WellFormed c) (now : ℕ)
    (reply : Task) where
  abbrev checked : Coordinator
  checked = check_task_timeouts map_clock reduce_clock c

  -- In a well-formed coordinator, if a worker has held a map task for more than ten seconds when
  -- the timeout loop looks at it, then the next worker that asks after that round is given a map
  -- task: it is not told to wait or to exit, and not given a reduce task.
  pub map_task_recovered :
      (i : ℕ)
      → Lost (map_clock i) c.map_task_status i
      → Returns (λ (d, t). t.task_type ≡ "map") (assign_task now checked reply)
  map_task_recovered i l =
      answered (assign_task-Outcome now checked reply wf.map_length wf.reduce_length)
    where
      wf : WellFormed checked
      wf = check_task_timeouts-WellFormed map_clock reduce_clock c w

      idle_status :
          (s : TaskStatus) × (get_elem? checked.map_task_status i ≡ some s) × (is_idle s ≡ true)
      idle_status = unfold check_task_timeouts in Lost-idle map_clock c.map_task_status i l

      not_none : IdleAt checked.map_task_status none → ⊥
      not_none idle = let (s, at, is) = idle_status in cc (sym is ∙ idle i s at)

      answered :
          {r : Run (Coordinator × Task)}
          → Outcome now checked reply r
          → Returns (λ (d, t). t.task_type ≡ "map") r
      answered (map_task j t idle at) = (wf.map_shape j t at).1
      answered (reduce_task j t none_idle maps idle at) = absurd (not_none none_idle)
      answered (exit maps reduces) =
          let (s, at, is) = idle_status in absurd (not-idle_of_done checked i s maps at is)
      answered (wait_map idle busy) = absurd (not_none idle)
      answered (wait_reduce idle maps idle' busy) = absurd (not_none idle)
