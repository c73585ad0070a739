-- ===== src/Mr/Coordinator/Invariant.antt =====
-- What holds of the coordinator of coordinator.go and of its answers between two calls.
use tda596_labs.Base.{
  ℕ, ◌≡◌, sym, ap, ◌∙◌, ◌⊎◌, inl, inr, Bool, true, not, ◌&&◌, some, List, [], ◌∷◌, String, length,
  get_elem?, all, All,
}
use mathlib.Core.Path.{subst}
use tda596_labs.Mr.Rpc.{Task, TaskStatus}
use tda596_labs.Mr.Coordinator.{Coordinator, is_idle, all_map_tasks_done, all_reduce_tasks_done}
use tda596_labs.Mr.Coordinator.Growth.{length-Grow}
use tda596_labs.Mr.Coordinator.Later.{Later, all_map_tasks_done-Later, all_reduce_tasks_done-Later}

-- Each task carries its own index and its phase.
abbrev pub Shape : String → List Task → Type 0
Shape phase tasks =
    (i : ℕ) (t : Task) → get_elem? tasks i ≡ some t → (t.id ≡ i) × (t.task_type ≡ phase)

-- A task that is done is held by no worker.
abbrev pub is_settled : TaskStatus → Bool
is_settled s = not (s.completed && s.assigned)

pub record WellFormed (c : Coordinator) : Type 0 where
  pub map_length : length c.map_tasks ≡ length c.map_task_status
  pub reduce_length : length c.reduce_tasks ≡ length c.reduce_task_status
  pub map_shape : Shape "map" c.map_tasks
  pub reduce_shape : Shape "reduce" c.reduce_tasks
  pub map_settled : all is_settled c.map_task_status ≡ true
  pub reduce_settled : all is_settled c.reduce_task_status ≡ true
  -- No reduce task was touched before the last map task was done.
  pub barrier : (all is_idle c.reduce_task_status ≡ true) ⊎ (all_map_tasks_done c ≡ true)
  pub finished :
      c.completed ≡ true → (all_map_tasks_done c ≡ true) × (all_reduce_tasks_done c ≡ true)

-- What an answer to a worker says of the coordinator, then and later.
pub data Handed (c : Coordinator) (t : Task) : Type 0 where
  map_handed : t.task_type ≡ "map" → get_elem? c.map_tasks t.id ≡ some t → Handed c t
  reduce_handed :
      t.task_type ≡ "reduce"
      → get_elem? c.reduce_tasks t.id ≡ some t
      → all_map_tasks_done c ≡ true
      → Handed c t
  exit_handed :
      t.task_type ≡ "exit"
      → all_map_tasks_done c ≡ true
      → all_reduce_tasks_done c ≡ true
      → Handed c t
  wait_handed : t.task_type ≡ "wait" → Handed c t

pub Handed-Later : {c d : Coordinator} (t : Task) → Later c d → Handed c t → Handed d t
Handed-Later t l (map_handed e at) = map_handed e (rw l.map_same at)
Handed-Later t l (reduce_handed e at maps) =
    reduce_handed e (rw l.reduce_same at) (all_map_tasks_done-Later l maps)
Handed-Later t l (exit_handed e maps reduces) =
    exit_handed e (all_map_tasks_done-Later l maps) (all_reduce_tasks_done-Later l reduces)
Handed-Later t l (wait_handed e) = wait_handed e

pub All-Handed-Later :
    {c d : Coordinator} (h : List Task) → Later c d → All (Handed c) h → All (Handed d) h
All-Handed-Later [] l a = tt
All-Handed-Later (t ∷ h) l a = (Handed-Later t l a.0, All-Handed-Later h l a.1)

-- A coordinator that is later than a well-formed one is well formed, given what is particular to
-- the operation.
pub WellFormed-Later :
    {c d : Coordinator}
    → WellFormed c
    → Later c d
    → all is_settled d.map_task_status ≡ true
    → all is_settled d.reduce_task_status ≡ true
    → (all is_idle d.reduce_task_status ≡ true) ⊎ (all_map_tasks_done d ≡ true)
    → (d.completed ≡ true → c.completed ≡ true)
    → WellFormed d
WellFormed-Later {c} {d} w l settled settled' barrier flag = record {
  map_length = ap length l.map_same ∙ w.map_length ∙ sym (length-Grow _ _ l.map_grow);
  reduce_length = ap length l.reduce_same ∙ w.reduce_length ∙ sym (length-Grow _ _ l.reduce_grow);
  map_shape = subst (Shape "map") (sym l.map_same) w.map_shape;
  reduce_shape = subst (Shape "reduce") (sym l.reduce_same) w.reduce_shape;
  map_settled = settled;
  reduce_settled = settled';
  barrier = barrier;
  finished = λ e.
      let (maps, reduces) = w.finished (flag e) in
      (all_map_tasks_done-Later l maps, all_reduce_tasks_done-Later l reduces);
}

-- An untouched reduce phase stays so, or the map phase stays over.
pub barrier_same :
    {c d : Coordinator}
    → WellFormed c
    → Later c d
    → d.reduce_task_status ≡ c.reduce_task_status
    → (all is_idle d.reduce_task_status ≡ true) ⊎ (all_map_tasks_done d ≡ true)
barrier_same w l same = elim w.barrier [
  | inl idle ↦ inl (rw same idle)
  | inr maps ↦ inr (all_map_tasks_done-Later l maps)
]
