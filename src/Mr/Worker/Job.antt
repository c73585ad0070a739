-- ===== src/Mr/Worker/Job.antt =====
-- A job of coordinator.go and worker.go from MakeCoordinator to its output files.
use tda596_labs.Base.{
  ℕ, zero, suc, ◌+◌, ◌<◌, ◌≡◌, refl, String, Bool, true, none, some, List, [], ◌∷◌, arith, length,
  get_elem?, all, GoEq-string, replicate,
}
use tda596_labs.Base.Dict.{lookup}
use tda596_labs.Base.Run.{Returns, Returns-mono}
use tda596_labs.Mr.Rpc.{Task, TaskStatus, empty_status}
use tda596_labs.Mr.Coordinator.{make_coordinator, make_map_tasks, make_reduce_tasks, done}
use tda596_labs.Mr.Coordinator.Preserve.{
  make_coordinator-WellFormed, length-make_map_tasks, length-make_reduce_tasks,
}
use tda596_labs.Mr.Worker.{KeyValue, Bytes, Store, Host, World, worker}
use tda596_labs.Mr.Worker.Laws.{HostLaws}
use tda596_labs.Mr.Worker.Outputs.{IsReduced, reduced-IsReduced}
use tda596_labs.Mr.Worker.Round.{undone, is_free}
use tda596_labs.Mr.Worker.Sound.{IsInput, Reads}
use tda596_labs.Mr.Worker.Complete.{Finished, worker-Finished}

make_map_tasks-file :
    (n i : ℕ) (fs : List String) (j : ℕ) (t : Task)
    → get_elem? (make_map_tasks n i fs) j ≡ some t
    → (get_elem? fs j ≡ some t.file) × (t.num_of_files ≡ n)
unfolding make_map_tasks
make_map_tasks-file n i [] j t e = absurd (cc)
make_map_tasks-file n i (f ∷ fs) zero t e = ground arith
make_map_tasks-file n i (f ∷ fs) (suc j) t e = make_map_tasks-file n (suc i) fs j t e

make_reduce_tasks-inputs :
    (m i rest r : ℕ) (t : Task)
    → get_elem? (make_reduce_tasks m i rest) r ≡ some t
    → t.num_of_files ≡ m
unfolding make_reduce_tasks
make_reduce_tasks-inputs m i zero r t e = absurd (cc)
make_reduce_tasks-inputs m i (suc rest) zero t e = ground arith
make_reduce_tasks-inputs m i (suc rest) (suc r) t e = make_reduce_tasks-inputs m (suc i) rest r t e

-- At the start no task is done and none is held.
all_free-replicate : (n : ℕ) → all is_free (replicate n empty_status) ≡ true
all_free-replicate zero = refl
all_free-replicate (suc n) = all_free-replicate n

undone-replicate : (n : ℕ) → undone (replicate n empty_status) ≡ n
undone-replicate zero = refl
undone-replicate (suc n) = omega (arith, undone-replicate n)

not_completed {ℓ} :
    {A : Type ℓ} (n i : ℕ) (st : TaskStatus)
    → get_elem? (replicate n empty_status) i ≡ some st
    → st.completed ≡ true
    → A
not_completed zero i st at c = absurd (cc)
not_completed (suc n) zero st at c = absurd (ground arith)
not_completed (suc n) (suc i) st at c = not_completed n i st at c

module _ (h : Host) where
  -- Map of the i-th file, in the store at the start.
  unfoldable pub emitted_by : List String → Store → ℕ → List KeyValue
  emitted_by files store i = elim (get_elem? files i) [
    | none ↦ []
    | some f ↦ elim (lookup f store) [ none ↦ [] | some c ↦ h.map_f f (h.to_string c) ]
  ]

  -- The input file exists, and no task writes to it.
  pub record IsThere (store : Store) (q : String) : Type 0 where
    pub content : Bytes
    pub there : lookup q store ≡ some content
    pub input : IsInput h q

  start-Reads :
      (files : List String) (n : ℕ) (store : Store)
      → ((i : ℕ) (q : String) → get_elem? files i ≡ some q → IsThere store q)
      → (i : ℕ) (t : Task) → get_elem? (make_map_tasks n 0 files) i ≡ some t
      → Reads h (length files) n (emitted_by files store) store i t
  unfolding emitted_by
  start-Reads files n store there i t at =
      let (at_file, buckets) = make_map_tasks-file n 0 files i t at in
      let is = there i t.file at_file in
      record {
        buckets = buckets;
        content = is.content;
        there = is.there;
        emits = rw (at_file, is.there, emitted_by);
        input = is.input;
      }

  -- The loop has returned, Done answers true, and each reduce task has its output file.
  abbrev pub Completed : List String → ℕ → Store → Bool × World → Type 0
  Completed files n store (returned, w) =
      (returned ≡ true)
      × ((done w.coordinator).1 ≡ true)
      × ((r : ℕ) → r < n → IsReduced h (length files) n r (emitted_by files store) w.store)

  -- A job with at least one bucket whose input files exist, none of them named like a file that
  -- the job writes, run by one worker with more rounds of fuel than there are tasks: the worker
  -- returns, Done then answers true, and output file r of each reduce task holds, in some order, one
  -- line for each key of bucket r that Map emitted for some input file, made by Reduce from all the
  -- values that Map emitted for the key, in the order of the input files and of their pairs. Every
  -- os.Create and every write succeeds, and the packages behave as documented.
  pub job_completes :
      (laws : HostLaws h) (files : List String) (n : ℕ) (store : Store) (now : ℕ → ℕ) (fuel : ℕ)
      → 0 < n
      → ((i : ℕ) (q : String) → get_elem? files i ≡ some q → IsThere store q)
      → length files + n < fuel
      → Returns
          (Completed files n store)
          (worker h fuel now (record { coordinator = make_coordinator files n; store = store }))
  unfolding make_coordinator
  job_completes laws files n store now fuel pos there lt =
      Returns-mono (Finished h (length files) n (emitted_by files store)) (Completed files n store)
        (worker h fuel now (record { coordinator = make_coordinator files n; store = store }))
        (worker-Finished h laws (length files) n (emitted_by files store) pos fuel now
          (record { coordinator = make_coordinator files n; store = store })
          (record {
            well_formed = make_coordinator-WellFormed files n;
            map_free = all_free-replicate (length files);
            reduce_free = all_free-replicate n;
            map_count = length-make_map_tasks n 0 files;
            reduce_count = length-make_reduce_tasks (length files) 0 n;
            reads = start-Reads files n store there;
            inputs = λ r t. make_reduce_tasks-inputs (length files) 0 n r t;
            mapped = λ i st at. not_completed (length files) i st at;
            reduced_to = λ r st at. not_completed n r st at;
          })
          (omega (arith, undone-replicate (length files), undone-replicate n)))
        λ (returned, w) (stopped, all_done, files_of). (
          stopped,
          all_done,
          λ r lt.
              reduced-IsReduced h laws (length files) n r (emitted_by files store) w.store
                (files_of r lt),
        )
