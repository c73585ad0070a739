-- ===== src/Mr/Worker.antt =====
-- Lab 2/src/mr/worker.go. The store maps a file's name to its bytes. `panic` is log.Fatal or a
-- run-time panic. What is not in the repository (encoding/json, hash/fnv, fmt, the file system, the
-- plug-in's Map and Reduce, the order of a map range) is the parameter `Host`.
pub mod Laws
pub mod MapTask
pub mod ReduceTask
pub mod Round
pub mod Sound
pub mod MapRound
pub mod ReduceRound
pub mod Complete
pub mod Groups
pub mod Outputs
pub mod Job
pub mod Sample
mod Tests
use Prim.Native.Nat.{bit_and}
use tda596_labs.Base.{
  GoEq-string, ℕ, zero, suc, ◌%◌, String, Bool, true, false, Option, none, some, List, [], ◌∷◌,
  ◌++◌, nat_eq, str_eq, if◌then◌else◌, length,
}
use tda596_labs.Base.Dict.{lookup, insert}
use tda596_labs.Base.Run.{Run, ok, panic, ◌>>=◌, ◌>>◌, expect}
use tda596_labs.Mr.Rpc.{Task, empty_task}
use tda596_labs.Mr.Coordinator.{Coordinator, assign_task, report_task_done}

pub record KeyValue : Type 0 where
  pub key : String
  pub value : String

abbrev pub Bytes : Type 0
Bytes = List ℕ

abbrev pub Store : Type 0
Store = List (String × Bytes)

abbrev pub Groups : Type 0
Groups = List (String × List String)

-- A missing key of a Go map reads as the nil slice.
abbrev pub values_or_nil : Option (List String) → List String
values_or_nil none = []
values_or_nil (some vs) = vs

abbrev pub written_or : Store → Run Store → Store
written_or store (ok store') = store'
written_or store panic = store

pub record Host : Type 0 where
  -- the plug-in
  pub map_f : String → String → List KeyValue
  pub reduce_f : String → List String → String
  -- string(content)
  pub to_string : Bytes → String
  -- json.Encoder.Encode writes these bytes; json.Decoder.Decode reads one value off the front
  pub encode : KeyValue → Bytes
  pub decode : Bytes → Option (KeyValue × Bytes)
  -- fnv.New32a over the key's bytes
  pub sum32 : String → ℕ
  -- the names and lines that fmt makes by "mr-%d-%d", "mr-out-%d" and "%v %v\n"
  pub intermediate_name : ℕ → ℕ → String
  pub output_name : ℕ → String
  pub line : String → String → Bytes
  -- whether os.Create and a write to the file succeed
  pub can_create : String → Bool
  pub can_write : String → Bool
  -- the order in which `range` visits a map
  pub range_order : List (String × List String) → List (String × List String)

module _ (h : Host) where
  open h use {
    map_f, reduce_f, to_string, encode, decode, sum32, intermediate_name, output_name, line,
    can_create, can_write, range_order,
  }

  unfoldable pub ihash : String → ℕ
  ihash key = bit_and (sum32 key) 0x7fffffff

  -- os.Create: the file is there and empty.
  unfoldable pub create : String → Store → Run Store
  create name store = if can_create name then ok (insert name [] store) else panic

  -- A write through the handle of a file that was created.
  unfoldable pub write : String → Bytes → Store → Run Store
  write name bytes store =
      if can_write name
      then (elim (lookup name store) [
        | none ↦ panic
        | some old ↦ ok (insert name (old ++ bytes) store)
      ])
      else panic

  -- The loop that creates the intermediate files, from the i-th on.
  unfoldable pub create_all : (id i rest : ℕ) → Store → Run Store
  create_all id i zero store = ok store
  create_all id i (suc rest) store =
      create (intermediate_name id i) store >>= create_all id (suc i) rest

  -- `ihash(kv.Key) % task.NumOfFiles`, which panics if there is no file.
  unfoldable pub bucket_of : ℕ → KeyValue → Run ℕ
  bucket_of n kv = if nat_eq n 0 then panic else ok (ihash kv.key % n)

  -- The loop that writes the pairs.
  unfoldable pub write_all : (id n : ℕ) → List KeyValue → Store → Run Store
  write_all id n [] store = ok store
  write_all id n (kv ∷ kva) store = do
    b ← bucket_of n kv
    store' ← write (intermediate_name id b) (encode kv) store
    write_all id n kva store'

  -- ExecuteMapTask up to its call of NotifyTaskDone.
  unfoldable pub execute_map_task : Task → Store → Run Store
  execute_map_task task store = do
    content ← expect (lookup task.file store)
    created ← create_all task.id 0 task.num_of_files store
    write_all task.id task.num_of_files (map_f task.file (to_string content)) created

  -- `intermediate[kv.Key] = append(intermediate[kv.Key], kv.Value)`
  unfoldable pub add_value : KeyValue → Groups → Groups
  add_value kv groups = insert kv.key (values_or_nil (lookup kv.key groups) ++ kv.value ∷ []) groups

  -- The loop over one decoder. Each value takes a byte at least, so the length is fuel enough.
  unfoldable pub decode_file : (fuel : ℕ) → Bytes → Groups → Groups
  decode_file zero bytes groups = groups
  decode_file (suc fuel) bytes groups = elim (decode bytes) [
    | none ↦ groups
    | some (kv, rest) ↦ decode_file fuel rest (add_value kv groups)
  ]

  -- The loop over the intermediate files of reduce task `id`, from the i-th on.
  unfoldable pub collect : (id i rest : ℕ) → Store → Groups → Run Groups
  collect id i zero store groups = ok groups
  collect id i (suc rest) store groups = do
    bytes ← expect (lookup (intermediate_name i id) store)
    collect id (suc i) rest store (decode_file (suc (length bytes)) bytes groups)

  -- The loop over the keys; Fprintf's error is ignored, and a failed write leaves the file as it is.
  unfoldable pub output : String → Groups → Store → Store
  output name [] store = store
  output name ((key, values) ∷ groups) store =
      output name groups (written_or store (write name (line key (reduce_f key values)) store))

  -- ExecuteReduceTask up to its call of NotifyTaskDone.
  unfoldable pub execute_reduce_task : Task → Store → Run Store
  execute_reduce_task task store = do
    groups ← collect task.id 0 task.num_of_files store []
    created ← create (output_name task.id) store
    ok (output (output_name task.id) (range_order groups) created)

-- The coordinator's state and the shared file system, as one worker changes them.
pub record World : Type 0 where
  pub coordinator : Coordinator
  pub store : Store

module _ (h : Host) where
  -- NotifyTaskDone: the report as a call of the coordinator's handler.
  unfoldable pub notify_task_done : Task → World → Run World
  notify_task_done task w = do
    c ← report_task_done w.coordinator task
    ok (record w { coordinator = c })

  -- The cases "map" and "reduce" of the loop's switch; any other type changes nothing.
  unfoldable pub execute : Task → World → Run World
  execute task w =
      if str_eq task.task_type "map"
      then (do s ← execute_map_task h task w.store; notify_task_done task (record w { store = s }))
      else if str_eq task.task_type "reduce"
      then (do
        s ← execute_reduce_task h task w.store
        notify_task_done task (record w { store = s }))
      else ok w

  -- Worker, on fuel; the answer says whether the loop has returned. `now` gives the time of the
  -- call that has `f` rounds left.
  unfoldable pub worker : (fuel : ℕ) → (now : ℕ → ℕ) → World → Run (Bool × World)
  worker zero now w = ok (false, w)
  worker (suc f) now w = do
    (c, task) ← assign_task (now f) w.coordinator empty_task
    w' ← execute task (record w { coordinator = c })
    elim (str_eq task.task_type "exit") [ true ↦ ok (true, w') | false ↦ worker f now w' ]
