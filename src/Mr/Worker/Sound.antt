-- ===== src/Mr/Worker/Sound.antt =====
-- What holds of the coordinator and the file system between two rounds of the only worker.
use tda596_labs.Base.{
  ℕ, suc, ◌+◌, ◌<◌, ◌≡◌, ◌≢◌, String, true, some, List, arith, length, get_elem?, all, GoEq-string,
  get_elem?-of_lt, all-get_elem?,
}
use tda596_labs.Base.Dict.{lookup}
use tda596_labs.Mr.Rpc.{Task, TaskStatus}
use tda596_labs.Mr.Coordinator.{is_done, all_map_tasks_done}
use tda596_labs.Mr.Coordinator.Invariant.{WellFormed}
use tda596_labs.Mr.Worker.{KeyValue, Bytes, Store, Host, World}
use tda596_labs.Mr.Worker.MapTask.{MapDone}
use tda596_labs.Mr.Worker.ReduceTask.{reduced}
use tda596_labs.Mr.Worker.Round.{undone, is_free}

abbrev pub remaining : World → ℕ
remaining w = undone w.coordinator.map_task_status + undone w.coordinator.reduce_task_status

module _ (h : Host) where
  -- A name that no task writes to.
  pub record IsInput (q : String) : Type 0 where
    pub ne_intermediate : (i b : ℕ) → q ≢ h.intermediate_name i b
    pub ne_output : (r : ℕ) → q ≢ h.output_name r

module _ (h : Host) (m n : ℕ) (emitted : ℕ → List KeyValue) where
  -- Map task i reads a file on which Map emits the pairs `emitted i`.
  pub record Reads (store : Store) (i : ℕ) (t : Task) : Type 0 where
    pub buckets : t.num_of_files ≡ n
    pub content : Bytes
    pub there : lookup t.file store ≡ some content
    pub emits : h.map_f t.file (h.to_string content) ≡ emitted i
    pub input : IsInput h t.file

  pub record Sound (w : World) : Type 0 where
    pub well_formed : WellFormed w.coordinator
    pub map_free : all is_free w.coordinator.map_task_status ≡ true
    pub reduce_free : all is_free w.coordinator.reduce_task_status ≡ true
    pub map_count : length w.coordinator.map_tasks ≡ m
    pub reduce_count : length w.coordinator.reduce_tasks ≡ n
    pub reads :
        (i : ℕ) (t : Task) → get_elem? w.coordinator.map_tasks i ≡ some t → Reads w.store i t
    pub inputs :
        (r : ℕ) (t : Task) → get_elem? w.coordinator.reduce_tasks r ≡ some t → t.num_of_files ≡ m
    pub mapped :
        (i : ℕ) (st : TaskStatus)
        → get_elem? w.coordinator.map_task_status i ≡ some st
        → st.completed ≡ true
        → MapDone h i n (emitted i) w.store
    pub reduced_to :
        (r : ℕ) (st : TaskStatus)
        → get_elem? w.coordinator.reduce_task_status r ≡ some st
        → st.completed ≡ true
        → lookup (h.output_name r) w.store ≡ some (reduced h m n r emitted)

  -- One task fewer is left, and all is well.
  abbrev pub Advanced : World → World → Type 0
  Advanced w w' = Sound w' × (suc (remaining w') ≡ remaining w)

  -- Once every map task is done, all their files are there.
  pub all_mapped :
      (w : World)
      → Sound w
      → all_map_tasks_done w.coordinator ≡ true
      → (i : ℕ) → i < m
      → MapDone h i n (emitted i) w.store
  unfolding all_map_tasks_done
  all_mapped w s maps i lt =
      let (st, at) =
        get_elem?-of_lt w.coordinator.map_task_status i
          (omega (arith, s.map_count, s.well_formed.map_length)) in
      s.mapped i st at (all-get_elem? is_done w.coordinator.map_task_status i maps at)
