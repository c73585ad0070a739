-- ===== src/Mr/Worker/Tests.antt =====
-- A whole job of worker.go on the sample host, and the theorems at it.
use tda596_labs.Base.{
  ℕ, ◌≡◌, refl, List, some, [], ◌∷◌, String, arith, get_elem?, zero, suc, GoEq-string,
}
use mathlib.Core.Path.{subst}
use tda596_labs.Base.Dict.{lookup}
use tda596_labs.Base.Run.{Returns}
use tda596_labs.Mr.Rpc.{Task}
use tda596_labs.Mr.Coordinator.{make_coordinator}
use tda596_labs.Mr.Worker.{KeyValue, Bytes, Store, worker, execute_map_task}
use tda596_labs.Mr.Worker.MapTask.{Mapped, execute_map_task_lem}
use tda596_labs.Mr.Worker.Job.{IsThere, Completed, job_completes}
use tda596_labs.Mr.Worker.Laws.{bucket, encode_all}
use tda596_labs.Mr.Worker.Sample.{sample, sample-HostLaws, sample-IsInput}

-- "in1" holds the letters x y x.
abbrev store : Store
store = ("in1", 120 ∷ 121 ∷ 120 ∷ []) ∷ []

abbrev map_task : Task
map_task = record { id = 0; file = "in1"; task_type = "map"; num_of_files = 2 }

execute_map_task_lem_example :
    Returns
      (Mapped sample map_task (120 ∷ 121 ∷ 120 ∷ []) store)
      (execute_map_task sample map_task store)
unfolding lookup
execute_map_task_lem_example =
    execute_map_task_lem sample sample-HostLaws map_task store (120 ∷ 121 ∷ 120 ∷ []) (omega arith)
      refl

same_text : {q r : String} → some q ≡ some r → q ≡ r
same_text e = cc

inputs-IsThere : (i : ℕ) (q : String) → get_elem? ("in1" ∷ []) i ≡ some q → IsThere sample store q
unfolding lookup
inputs-IsThere zero q e =
    subst (IsThere sample store) (same_text e)
      (record { content = 120 ∷ 121 ∷ 120 ∷ []; there = refl; input = sample-IsInput "n1" })
inputs-IsThere (suc i) q e = absurd (cc)

job_completes_example : Returns (Completed sample ("in1" ∷ []) 2 store) (
    worker sample 4
      (λ f. f)
      (record { coordinator = make_coordinator ("in1" ∷ []) 2; store = store }))
job_completes_example =
    job_completes sample sample-HostLaws ("in1" ∷ []) 2 store (λ f. f) 4 (omega arith)
      inputs-IsThere (omega arith)

-- Two map tasks have emitted the same three pairs into two buckets.
abbrev pairs : ℕ → List KeyValue
pairs i =
    record { key = "x"; value = "1" }
    ∷ record { key = "xy"; value = "2" }
    ∷ record { key = "x"; value = "3" }
    ∷ []

abbrev file_of : ℕ → ℕ → String × Bytes
file_of i b = (sample.intermediate_name i b, encode_all sample (bucket sample 2 b (pairs i)))

abbrev mapped : Store
mapped = file_of 0 0 ∷ file_of 0 1 ∷ file_of 1 0 ∷ file_of 1 1 ∷ []

abbrev reduce_one : Task
reduce_one = record { id = 1; file = ""; task_type = "reduce"; num_of_files = 2 }
