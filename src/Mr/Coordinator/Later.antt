-- ===== src/Mr/Coordinator/Later.antt =====
-- What no operation of coordinator.go undoes: the tasks stay, and a task that is done stays done.
use tda596_labs.Base.{ℕ, ◌≡◌, refl, ◌∙◌, ◌≢◌, inl, inr, true, ◌&&◌, modify, Bool-cases}
use tda596_labs.Base.Run.{Run, panic, Returns}
use tda596_labs.Mr.Rpc.{Task, TaskStatus}
use tda596_labs.Mr.Coordinator.{
  Coordinator, mark_done, all_map_tasks_done, all_reduce_tasks_done, check_task_timeouts, done,
}
use tda596_labs.Mr.Coordinator.Assign.{Outcome, map_task, reduce_task, exit, wait_map, wait_reduce}
use tda596_labs.Mr.Coordinator.Report.{
  Reported, map_done, map_missing, reduce_done, reduce_missing, ignored,
}
use tda596_labs.Mr.Coordinator.Growth.{
  Grow, Grow-refl, Grow-trans, Grow-modify, Grow-reassign, all_done-Grow,
}

-- One list of statuses only grows, and the tasks stay.
pub record Later (c d : Coordinator) : Type 0 where
  pub map_same : d.map_tasks ≡ c.map_tasks
  pub reduce_same : d.reduce_tasks ≡ c.reduce_tasks
  pub map_grow : Grow c.map_task_status d.map_task_status
  pub reduce_grow : Grow c.reduce_task_status d.reduce_task_status

module _ {c d : Coordinator} (l : Later c d) where
  pub all_map_tasks_done-Later : all_map_tasks_done c ≡ true → all_map_tasks_done d ≡ true
  unfolding all_map_tasks_done
  all_map_tasks_done-Later = all_done-Grow c.map_task_status d.map_task_status l.map_grow

  pub all_reduce_tasks_done-Later : all_reduce_tasks_done c ≡ true → all_reduce_tasks_done d ≡ true
  unfolding all_reduce_tasks_done
  all_reduce_tasks_done-Later =
      all_done-Grow c.reduce_task_status d.reduce_task_status l.reduce_grow

pub Later-refl : (c : Coordinator) → Later c c
Later-refl c = record {
  map_same = refl;
  reduce_same = refl;
  map_grow = Grow-refl c.map_task_status;
  reduce_grow = Grow-refl c.reduce_task_status;
}

pub Later-trans : (a b c : Coordinator) → Later a b → Later b c → Later a c
Later-trans a b c l m = record {
  map_same = m.map_same ∙ l.map_same;
  reduce_same = m.reduce_same ∙ l.reduce_same;
  map_grow = Grow-trans a.map_task_status b.map_task_status c.map_task_status l.map_grow m.map_grow;
  reduce_grow =
      Grow-trans a.reduce_task_status b.reduce_task_status c.reduce_task_status l.reduce_grow
        m.reduce_grow;
}

-- Each operation takes a coordinator to a later one.
module _ (c : Coordinator) where
  Later-modify_map :
      (i : ℕ) (f : TaskStatus → TaskStatus)
      → ((s : TaskStatus) → s.completed ≡ true → (f s).completed ≡ true)
      → Later c (record c { map_task_status = modify c.map_task_status i f })
  Later-modify_map i f keep = record {
    map_same = refl;
    reduce_same = refl;
    map_grow = Grow-modify c.map_task_status i f keep;
    reduce_grow = Grow-refl c.reduce_task_status;
  }

  Later-modify_reduce :
      (i : ℕ) (f : TaskStatus → TaskStatus)
      → ((s : TaskStatus) → s.completed ≡ true → (f s).completed ≡ true)
      → Later c (record c { reduce_task_status = modify c.reduce_task_status i f })
  Later-modify_reduce i f keep = record {
    map_same = refl;
    reduce_same = refl;
    map_grow = Grow-refl c.map_task_status;
    reduce_grow = Grow-modify c.reduce_task_status i f keep;
  }

  pub Later-assign_task :
      (now : ℕ) (reply : Task) {r : Run (Coordinator × Task)}
      → Outcome now c reply r
      → Returns (λ (d, t). Later c d) r
  Later-assign_task now reply (map_task i t idle at) = Later-modify_map i _ (λ s h. h)
  Later-assign_task now reply (reduce_task i t none_idle maps idle at) =
      Later-modify_reduce i _ (λ s h. h)
  Later-assign_task now reply (exit maps reduces) = Later-refl c
  Later-assign_task now reply (wait_map idle busy) = Later-refl c
  Later-assign_task now reply (wait_reduce idle maps idle' busy) = Later-refl c

  pub Later-check_task_timeouts : (m r : ℕ → ℕ) → Later c (check_task_timeouts m r c)
  unfolding check_task_timeouts
  Later-check_task_timeouts m r = record {
    map_same = refl;
    reduce_same = refl;
    map_grow = Grow-reassign m 0 c.map_task_status;
    reduce_grow = Grow-reassign r 0 c.reduce_task_status;
  }

  pub Later-done : Later c (done c).0
  unfolding done
  Later-done = elim (Bool-cases (all_map_tasks_done c && all_reduce_tasks_done c)) [
    | inl e ↦ rw e (record {
      map_same = refl;
      reduce_same = refl;
      map_grow = Grow-refl c.map_task_status;
      reduce_grow = Grow-refl c.reduce_task_status;
    })
    | inr e ↦ rw e (Later-refl c)
  ]

  pub Later-report_task_done :
      (t : Task) {r : Run Coordinator} → Reported c t r → r ≢ panic → Returns (Later c) r
  Later-report_task_done t (map_done is_map lt) ne = Later-modify_map t.id mark_done (λ s h. refl)
  Later-report_task_done t (map_missing is_map ge) ne = ne refl
  Later-report_task_done t (reduce_done not_map is_reduce lt) ne =
      Later-modify_reduce t.id mark_done (λ s h. refl)
  Later-report_task_done t (reduce_missing not_map is_reduce ge) ne = ne refl
  Later-report_task_done t (ignored not_map neither) ne = Later-refl c
