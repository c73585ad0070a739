-- ===== src/Mr/Worker/Complete.antt =====
-- The whole job of coordinator.go and worker.go with one worker: it ends, and its files are right.
use mathlib.Core.Path.{subst}
use tda596_labs.Base.{
  ℕ, zero, suc, ◌<◌, ◌≡◌, refl, sym, ◌∙◌, Bool, true, false, some, List, arith, all, str_eq,
  GoEq-string, get_elem?-of_lt, all-get_elem?,
}
use tda596_labs.Base.Dict.{lookup}
use tda596_labs.Base.Run.{Run, ok, ◌>>=◌, Returns, Returns-bind}
use tda596_labs.Mr.Rpc.{Task, TaskStatus, empty_task}
use tda596_labs.Mr.Coordinator.{
  Coordinator, is_done, all_map_tasks_done, all_reduce_tasks_done, done,
}
use tda596_labs.Mr.Coordinator.Status.{InProgress}
use tda596_labs.Mr.Coordinator.Assign.{
  Outcome, map_task, reduce_task, exit, wait_map, wait_reduce, assign_task-Outcome,
}
use tda596_labs.Mr.Worker.{KeyValue, Store, Host, World, execute, worker}
use tda596_labs.Mr.Worker.Laws.{HostLaws}
use tda596_labs.Mr.Worker.ReduceTask.{reduced}
use tda596_labs.Mr.Worker.Round.{is_free, not-assigned_of_free}
use tda596_labs.Mr.Worker.Sound.{Sound, remaining, Advanced}
use tda596_labs.Mr.Worker.MapRound.{execute-map}
use tda596_labs.Mr.Worker.ReduceRound.{execute-reduce}

module _ (h : Host) (m n : ℕ) (emitted : ℕ → List KeyValue) where
  -- The loop has returned, Done answers true, and each reduce task has its output file.
  abbrev pub Finished : Bool × World → Type 0
  Finished (returned, w) =
      (returned ≡ true)
      × ((done w.coordinator).1 ≡ true)
      × ((r : ℕ) → r < n → lookup (h.output_name r) w.store ≡ some (reduced h m n r emitted))

module _ (h : Host) (laws : HostLaws h) (m n : ℕ) (emitted : ℕ → List KeyValue) (pos : 0 < n) where
  not-InProgress : (ss : List TaskStatus) → all is_free ss ≡ true → InProgress ss → ⊥
  not-InProgress ss free (j, st, at, busy, open_task) =
      cc (sym busy ∙ not-assigned_of_free ss j st free at)

  Finished-of_done :
      (w : World)
      → Sound h m n emitted w
      → all_map_tasks_done w.coordinator ≡ true
      → all_reduce_tasks_done w.coordinator ≡ true
      → Finished h m n emitted (true, w)
  unfolding done all_reduce_tasks_done
  Finished-of_done w s maps reduces = (
    refl,
    rw (maps, reduces),
    λ r lt.
        let (st, at) =
          get_elem?-of_lt w.coordinator.reduce_task_status r
            (omega (arith, s.reduce_count, s.well_formed.reduce_length)) in
        s.reduced_to r st at (all-get_elem? is_done w.coordinator.reduce_task_status r reduces at),
  )

  -- What follows the answer in a round.
  abbrev continue : (f : ℕ) → (ℕ → ℕ) → Store → Coordinator × Task → Run (Bool × World)
  continue f now store (c, task) =
      execute h task (record { coordinator = c; store = store }) >>= λ w'.
      elim (str_eq task.task_type "exit") [ true ↦ ok (true, w') | false ↦ worker h f now w' ]

  module _ (f : ℕ) (now : ℕ → ℕ) (w : World) (s : Sound h m n emitted w)
      (again : (w' : World)
        → Advanced h m n emitted w w'
        → Returns (Finished h m n emitted) (worker h f now w')) where
    -- A task that is no "exit" is executed, and the loop goes on.
    go_on :
        (c : Coordinator) (t : Task)
        → str_eq t.task_type "exit" ≡ false
        → Returns
            (Advanced h m n emitted w)
            (execute h t (record { coordinator = c; store = w.store }))
        → Returns (Finished h m n emitted) (continue f now w.store (c, t))
    go_on c t not_exit executed =
        Returns-bind (Advanced h m n emitted w) (Finished h m n emitted)
          (execute h t (record { coordinator = c; store = w.store })) _ executed
          λ w' advanced. rw not_exit (again w' advanced)

    round :
        {r : Run (Coordinator × Task)}
        → Outcome (now f) w.coordinator empty_task r
        → Returns (Finished h m n emitted) (r >>= continue f now w.store)
    unfolding execute
    round (map_task i t idle at) =
        go_on _ t
          (subst (λ x. str_eq x "exit" ≡ false) (sym (s.well_formed.map_shape i t at).1) refl)
          (execute-map h laws m n emitted pos w s (now f) i t idle at)
    round (reduce_task i t none_idle maps idle at) =
        go_on _ t
          (subst (λ x. str_eq x "exit" ≡ false) (sym (s.well_formed.reduce_shape i t at).1) refl)
          (execute-reduce h laws m n emitted w s (now f) i t none_idle maps idle at)
    round (exit maps reduces) = Finished-of_done w s maps reduces
    round (wait_map idle busy) =
        absurd (not-InProgress w.coordinator.map_task_status s.map_free busy)
    round (wait_reduce idle maps idle' busy) =
        absurd (not-InProgress w.coordinator.reduce_task_status s.reduce_free busy)

  -- From a sound state a worker that is alone, with more rounds than tasks are left, finishes.
  pub worker-Finished :
      (f : ℕ) (now : ℕ → ℕ) (w : World)
      → Sound h m n emitted w
      → remaining w < f
      → Returns (Finished h m n emitted) (worker h f now w)
  unfolding worker
  worker-Finished zero now w s lt = absurd (omega arith)
  worker-Finished (suc f) now w s lt =
      round f now w s (λ w' (s', fewer). worker-Finished f now w' s' (omega arith))
        (assign_task-Outcome (now f) w.coordinator empty_task s.well_formed.map_length
          s.well_formed.reduce_length)
