-- ===== src/Mr/Worker/ReduceTask.antt =====
-- What ExecuteReduceTask in worker.go collects.
use mathlib.Core.List.{append-nil, append_assoc}
use tda596_labs.Base.{
  ℕ, zero, suc, ◌+◌, ◌<◌, ◌≤◌, ◌≡◌, ◌≢◌, refl, ap, sym, ◌∙◌, String, some, List, [], ◌∷◌, ◌++◌,
  GoEq-string, length, length-append, arith,
}
use tda596_labs.Base.Dict.{lookup, insert}
use tda596_labs.Base.Run.{ok, Returns}
use tda596_labs.Mr.Worker.{
  KeyValue, Bytes, Store, Groups, Host, add_value, decode_file, collect, create, write, output,
  execute_reduce_task,
}
use tda596_labs.Mr.Rpc.{Task}
use tda596_labs.Mr.Worker.MapTask.{MapDone, insert_self, insert_other}
use tda596_labs.Mr.Worker.Laws.{HostLaws, bucket, encode_all}

-- The pairs of the files i, i + 1, …, in order.
unfoldable pub concat_from : (ℕ → List KeyValue) → (i rest : ℕ) → List KeyValue
concat_from f i zero = []
concat_from f i (suc rest) = f i ++ concat_from f (suc i) rest

module _ (h : Host) where
  -- The map after these pairs were appended one by one.
  unfoldable pub add_all : List KeyValue → Groups → Groups
  add_all [] groups = groups
  add_all (kv ∷ kva) groups = add_all kva (add_value h kv groups)

  pub add_all-append :
      (xs ys : List KeyValue) (groups : Groups)
      → add_all (xs ++ ys) groups ≡ add_all ys (add_all xs groups)
  unfolding add_all
  add_all-append [] ys groups = refl
  add_all-append (x ∷ xs) ys groups = add_all-append xs ys (add_value h x groups)

  -- The lines that the loop over the keys prints, in the order in which it visits them.
  unfoldable pub lines : Groups → Bytes
  lines [] = []
  lines ((k, vs) ∷ groups) = h.line k (h.reduce_f k vs) ++ lines groups

  -- What output file r holds once reduce task r is done, given the pairs of the map tasks 0, …,
  -- m - 1.
  abbrev pub reduced : (m n r : ℕ) → (ℕ → List KeyValue) → Bytes
  reduced m n r emitted =
      lines (h.range_order (add_all (concat_from (λ i. bucket h n r (emitted i)) 0 m) []))

  module _ (laws : HostLaws h) where
    -- With enough fuel the loop reads back all the pairs of a file.
    decode_file_lem :
        (fuel : ℕ) (kva : List KeyValue) (groups : Groups)
        → length (encode_all h kva) < fuel
        → decode_file h fuel (encode_all h kva) groups ≡ add_all kva groups
    unfolding decode_file encode_all add_all
    decode_file_lem zero kva groups lt = absurd (omega arith)
    decode_file_lem (suc fuel) [] groups lt = rw (laws.decode-nil, decode_file)
    decode_file_lem (suc fuel) (kv ∷ kva) groups lt =
        rw (laws.decode-encode kv (encode_all h kva), decode_file)
          (decode_file_lem fuel kva (add_value h kv groups)
            (omega (arith, length-append (h.encode kv) (encode_all h kva), laws.encode_pos kv)))

    -- If the files hold these pairs, the loop over them appends all of their pairs, in order.
    pub collect_lem :
        (id : ℕ) (f : ℕ → List KeyValue) (i rest : ℕ) (store : Store) (groups : Groups)
        → ((j : ℕ)
            → i ≤ j
            → j < i + rest
            → lookup (h.intermediate_name j id) store ≡ some (encode_all h (f j)))
        → collect h id i rest store groups ≡ ok (add_all (concat_from f i rest) groups)
    unfolding collect concat_from
    collect_lem id f i zero store groups holds = unfold add_all in refl
    collect_lem id f i (suc rest) store groups holds =
        let read = decode_file_lem (suc (length (encode_all h (f i)))) (f i) groups (omega arith) in
        rw
          (
            holds i (omega arith) (omega arith),
            read,
            add_all-append (f i) (concat_from f (suc i) rest) groups,
          )
          (collect_lem id f (suc i) rest store (add_all (f i) groups)
            (λ j le lt. holds j (omega arith) (omega arith)))

    -- The loop over the keys appends those lines to its file, and changes no other file.
    pub output_lem :
        (name : String) (groups : Groups) (store : Store) (old : Bytes)
        → lookup name store ≡ some old
        → (lookup name (output h name groups store) ≡ some (old ++ lines groups))
          × ((q : String) → q ≢ name → lookup q (output h name groups store) ≡ lookup q store)
    unfolding output lines write
    output_lem name [] store old at = (at ∙ ap some (sym (append-nil old)), λ q ne. refl)
    output_lem name ((k, vs) ∷ groups) store old at =
        let bytes = h.line k (h.reduce_f k vs) in
        let (mine, others) =
          output_lem name groups (insert name (old ++ bytes) store) (old ++ bytes)
            (insert_self h laws name (old ++ bytes) store) in
        rw (laws.written name, at)
          (
            mine ∙ ap some (append_assoc old bytes (lines groups)),
            λ q ne. others q ne ∙ insert_other h laws name q (old ++ bytes) store ne,
          )

    -- ExecuteReduceTask, once the map tasks are done, writes to its output file the line of each
    -- key that the pairs of its bucket have, in the order of the range, and changes no other file.
    pub execute_reduce_task_lem :
        (task : Task) (n : ℕ) (emitted : ℕ → List KeyValue) (store : Store)
        → task.id < n
        → ((i : ℕ) → i < task.num_of_files → MapDone h i n (emitted i) store)
        → Returns
            (λ s.
              (lookup (h.output_name task.id) s
                ≡ some (reduced task.num_of_files n task.id emitted))
              × ((q : String) → q ≢ h.output_name task.id → lookup q s ≡ lookup q store))
            (execute_reduce_task h task store)
    unfolding execute_reduce_task create
    execute_reduce_task_lem task n emitted store lt maps =
        let name = h.output_name task.id in
        let groups =
          add_all (concat_from (λ i. bucket h n task.id (emitted i)) 0 task.num_of_files) [] in
        let (mine, others) =
          output_lem name (h.range_order groups) (insert name [] store) []
            (insert_self h laws name [] store) in
        rw
          (
            collect_lem task.id (λ i. bucket h n task.id (emitted i)) 0 task.num_of_files store []
                (λ j le l. maps j (omega arith) task.id lt),
            laws.created name,
          )
          (mine, λ q ne. others q ne ∙ insert_other h laws name q [] store ne)
