-- ===== src/Mr/Coordinator/System.antt =====
-- A job of coordinator.go together with its workers, as a transition system. A worker may ask for a
-- task at any time, may report a task that it was given at any time and as often as it likes, late
-- or never (it has crashed); the timeout loop and the poll of main/mrcoordinator.go run at any time.
use tda596_labs.Base.{ℕ, ◌≡◌, some, List, [], ◌∷◌, String, get_elem?}
use tda596_labs.Base.Run.{Run, ok, ◌>>=◌}
use tda596_labs.Mr.Rpc.{Task, empty_task}
use tda596_labs.Mr.Coordinator.{
  Coordinator, assign_task, report_task_done, check_task_timeouts, done, make_coordinator,
}

-- The coordinator, and every answer that a worker was ever given, the latest first.
pub record System : Type 0 where
  pub coordinator : Coordinator
  pub handed : List Task

-- RequestTask in worker.go: the reply starts out as `Task{}`.
unfoldable pub ask : (now : ℕ) → System → Run System
ask now s = do
  (c, t) ← assign_task now s.coordinator empty_task
  ok (record { coordinator = c; handed = t ∷ s.handed })

unfoldable pub report : Task → System → Run System
report t s = do c ← report_task_done s.coordinator t; ok (record s { coordinator = c })

unfoldable pub tick : (map_clock reduce_clock : ℕ → ℕ) → System → System
tick m r s = record s { coordinator = check_task_timeouts m r s.coordinator }

unfoldable pub poll : System → System
poll s = record s { coordinator = (done s.coordinator).0 }

pub data Step (s s' : System) : Type 0 where
  asks : (now : ℕ) → ask now s ≡ ok s' → Step s s'
  reports : (k : ℕ) (t : Task) → get_elem? s.handed k ≡ some t → report t s ≡ ok s' → Step s s'
  ticks : (m r : ℕ → ℕ) → s' ≡ tick m r s → Step s s'
  polls : s' ≡ poll s → Step s s'

pub data Reach (s : System) : System → Type 0 where
  here : Reach s s
  next : {t u : System} → Reach s t → Step t u → Reach s u

unfoldable pub start : List String → ℕ → System
start files n_reduce = record { coordinator = make_coordinator files n_reduce; handed = [] }
