-- ===== src/Mr/Coordinator/Job.antt =====
-- What holds in every state that a job of coordinator.go can reach.
use tda596_labs.Base.{
  ◌≢◌, str_eq, str_eq_iff, ℕ, zero, suc, ◌≡◌, refl, true, some, List, [], ◌∷◌, String, get_elem?,
  All,
}
use mathlib.Core.Path.{subst, sym}
use tda596_labs.Base.Run.{Run, ok, panic, ◌>>=◌, Returns, of_Returns}
use tda596_labs.Mr.Rpc.{Task, empty_task, TaskStatus}
use tda596_labs.Mr.Coordinator.{Coordinator, all_map_tasks_done, done}
use tda596_labs.Mr.Coordinator.Assign.{assign_task-Outcome}
use tda596_labs.Mr.Coordinator.Report.{report_task_done-Reported}
use tda596_labs.Mr.Coordinator.Later.{
  Later, Later-refl, Later-trans, Later-check_task_timeouts, Later-done,
}
use tda596_labs.Mr.Coordinator.Growth.{get_elem?-Grow}
use tda596_labs.Mr.Coordinator.Invariant.{
  WellFormed, Handed, All-Handed-Later, map_handed, reduce_handed, exit_handed, wait_handed,
}
use tda596_labs.Mr.Coordinator.Preserve.{
  other_phase, assign_task-WellFormed, report_task_done-WellFormed, check_task_timeouts-WellFormed,
  done-WellFormed, make_coordinator-WellFormed,
}
use tda596_labs.Mr.Coordinator.System.{
  System, ask, report, tick, poll, Step, asks, reports, ticks, polls, Reach, here, next, start,
}

pub record Inv (s : System) : Type 0 where
  pub well_formed : WellFormed s.coordinator
  pub handed : All (Handed s.coordinator) s.handed

some_eq : {t u : Task} → some u ≡ some t → u ≡ t
some_eq e = cc

All-get_elem? :
    {c : Coordinator} (h : List Task) (k : ℕ) {t : Task}
    → All (Handed c) h
    → get_elem? h k ≡ some t
    → Handed c t
All-get_elem? [] k a e = absurd (cc)
All-get_elem? {c} (u ∷ h) zero a e = subst (Handed c) (some_eq e) a.0
All-get_elem? (u ∷ h) (suc k) a e = All-get_elem? h k a.1 e

-- A step returns a later state in which the invariant holds.
abbrev Good : System → System → Type 0
Good s s' = Inv s' × Later s.coordinator s'.coordinator

-- In a state where the invariant holds a worker that asks is answered.
pub ask-Inv : (now : ℕ) (s : System) → Inv s → Returns (Good s) (ask now s)
unfolding ask
ask-Inv now s v = answered _ (
    assign_task-WellFormed now s.coordinator empty_task v.well_formed (
      assign_task-Outcome now s.coordinator empty_task v.well_formed.map_length
        v.well_formed.reduce_length))
  where
    answered :
        (r : Run (Coordinator × Task))
        → Returns (λ (d, t). WellFormed d × Later s.coordinator d × Handed d t) r
        → Returns (Good s) (r >>= λ (c, t). ok (record { coordinator = c; handed = t ∷ s.handed }))
    answered (ok (d, t)) (w, l, h) =
        (record { well_formed = w; handed = (h, All-Handed-Later s.handed l v.handed) }, l)
    answered panic none_such = none_such

-- So is one that reports a task that it was given.
pub report-Inv :
    (t : Task) (s : System) → Inv s → Handed s.coordinator t → Returns (Good s) (report t s)
unfolding report
report-Inv t s v h = accepted _ (
    report_task_done-WellFormed s.coordinator t v.well_formed h
      (report_task_done-Reported s.coordinator t))
  where
    accepted :
        (r : Run Coordinator)
        → Returns (λ d. WellFormed d × Later s.coordinator d) r
        → Returns (Good s) (r >>= λ c. ok (record s { coordinator = c }))
    accepted (ok d) (w, l) =
        (record { well_formed = w; handed = All-Handed-Later s.handed l v.handed }, l)
    accepted panic none_such = none_such

Step-Good : {s s' : System} → Step s s' → Inv s → Good s s'
unfolding tick poll
Step-Good {s} (asks now e) v = of_Returns (Good s) (ask-Inv now s v) e
Step-Good {s} (reports k t at e) v =
    of_Returns (Good s) (report-Inv t s v (All-get_elem? s.handed k v.handed at)) e
Step-Good {s} (ticks m r e) v =
    let l = Later-check_task_timeouts s.coordinator m r in
    subst (Good s) (sym e) (
      record {
        well_formed = check_task_timeouts-WellFormed m r s.coordinator v.well_formed;
        handed = All-Handed-Later s.handed l v.handed;
      },
      l,
    )
Step-Good {s} (polls e) v =
    let l = Later-done s.coordinator in
    subst (Good s) (sym e) (
      record {
        well_formed = done-WellFormed s.coordinator v.well_formed;
        handed = All-Handed-Later s.handed l v.handed;
      },
      l,
    )

Reach-Good : {s s' : System} → Inv s → Reach s s' → Good s s'
Reach-Good {s} v here = (v, Later-refl s.coordinator)
Reach-Good {s} {s'} v (next {t} path step) =
    let (v', l) = Reach-Good v path in
    let (v'', l') = Step-Good step v' in
    (v'', Later-trans s.coordinator t.coordinator s'.coordinator l l')

start-Inv : (files : List String) (n_reduce : ℕ) → Inv (start files n_reduce)
unfolding start
start-Inv files n_reduce = record {
  well_formed = make_coordinator-WellFormed files n_reduce;
  handed = tt;
}

module _ (files : List String) (n_reduce : ℕ) {s : System}
    (path : Reach (start files n_reduce) s) where
  Reach-Inv : Inv s
  Reach-Inv = (Reach-Good (start-Inv files n_reduce) path).0

  Reach-Handed : (k : ℕ) {t : Task} → get_elem? s.handed k ≡ some t → Handed s.coordinator t
  Reach-Handed k at = All-get_elem? s.handed k Reach-Inv.handed at

  -- In every state that a job can reach, a reduce task was handed to some worker only if every map
  -- task is done, and that answer is the task with its index in the list of reduce tasks.
  pub reduce_after_map :
      (k : ℕ) (t : Task)
      → get_elem? s.handed k ≡ some t
      → t.task_type ≡ "reduce"
      → (all_map_tasks_done s.coordinator ≡ true)
        × (get_elem? s.coordinator.reduce_tasks t.id ≡ some t)
  reduce_after_map k t at phase = as_reduce (Reach-Handed k at)
    where
      is_reduce : str_eq t.task_type "reduce" ≡ true
      is_reduce = (str_eq_iff t.task_type "reduce").1 phase

      as_reduce :
          Handed s.coordinator t
          → (all_map_tasks_done s.coordinator ≡ true)
            × (get_elem? s.coordinator.reduce_tasks t.id ≡ some t)
      as_reduce (map_handed e here_at) = absurd (other_phase "map" "reduce" e refl is_reduce)
      as_reduce (reduce_handed e here_at maps) = (maps, here_at)
      as_reduce (exit_handed e maps reduces) = absurd (other_phase "exit" "reduce" e refl is_reduce)
      as_reduce (wait_handed e) = absurd (other_phase "wait" "reduce" e refl is_reduce)

  -- In every state that a job can reach, if some worker was ever told to exit, then Done answers
  -- true.
  pub exit_when_done :
      (k : ℕ) (t : Task)
      → get_elem? s.handed k ≡ some t
      → t.task_type ≡ "exit"
      → (done s.coordinator).1 ≡ true
  unfolding done
  exit_when_done k t at phase = as_exit (Reach-Handed k at)
    where
      is_exit : str_eq t.task_type "exit" ≡ true
      is_exit = (str_eq_iff t.task_type "exit").1 phase

      as_exit : Handed s.coordinator t → (done s.coordinator).1 ≡ true
      as_exit (map_handed e here_at) = absurd (other_phase "map" "exit" e refl is_exit)
      as_exit (reduce_handed e here_at maps) = absurd (other_phase "reduce" "exit" e refl is_exit)
      as_exit (exit_handed e maps reduces) = rw (maps, reduces)
      as_exit (wait_handed e) = absurd (other_phase "wait" "exit" e refl is_exit)

  -- In every state that a job can reach no handler panics: a worker that asks is answered, and the
  -- report of any task that was handed out is accepted, however late or often it comes.
  pub job_never_panics :
      ((now : ℕ) → ask now s ≢ panic)
      × ((k : ℕ) (t : Task) → get_elem? s.handed k ≡ some t → report t s ≢ panic)
  job_never_panics = (
    λ now e. subst (Returns (Good s)) e (ask-Inv now s Reach-Inv),
    λ k t at e. subst (Returns (Good s)) e (report-Inv t s Reach-Inv (Reach-Handed k at)),
  )

  -- From every state that a job can reach, a map or reduce task that is done stays done whatever
  -- happens next, and the lists of tasks stay the same.
  pub done_for_good :
      {s' : System}
      → Reach s s'
      → ((i : ℕ) (st : TaskStatus)
          → get_elem? s.coordinator.map_task_status i ≡ some st
          → st.completed ≡ true
          → (st' : TaskStatus) × (get_elem? s'.coordinator.map_task_status i ≡ some st')
            × (st'.completed ≡ true))
        × ((i : ℕ) (st : TaskStatus)
            → get_elem? s.coordinator.reduce_task_status i ≡ some st
            → st.completed ≡ true
            → (st' : TaskStatus) × (get_elem? s'.coordinator.reduce_task_status i ≡ some st')
              × (st'.completed ≡ true))
        × (s'.coordinator.map_tasks ≡ s.coordinator.map_tasks)
        × (s'.coordinator.reduce_tasks ≡ s.coordinator.reduce_tasks)
  done_for_good {s'} onward =
      let l = (Reach-Good Reach-Inv onward).1 in
      (
        λ i st.
            get_elem?-Grow s.coordinator.map_task_status s'.coordinator.map_task_status i
              l.map_grow,
        λ i st.
            get_elem?-Grow s.coordinator.reduce_task_status s'.coordinator.reduce_task_status i
              l.reduce_grow,
        l.map_same,
        l.reduce_same,
      )
