-- ===== src/Mr/Worker/MapTask.antt =====
-- What ExecuteMapTask in worker.go leaves in the intermediate files.
use mathlib.Core.List.{append-nil, append_assoc}
use tda596_labs.Base.{
  ℕ, zero, suc, ◌+◌, ◌%◌, ◌<◌, ◌≤◌, ◌≡◌, ◌≢◌, refl, ap, sym, ◌∙◌, inl, inr, String, false, some,
  List, [], ◌∷◌, ◌++◌, nat_eq, nat_eq_iff, str_eq_iff, GoEq-string, if◌then◌else◌, arith,
  Bool-cases,
}
use mathlib.Core.Path.{subst}
use native.Mathlib.Nat.{mod-lt}
use tda596_labs.Base.Dict.{lookup, insert, lookup-insert}
use tda596_labs.Base.Run.{Returns, Returns-mono, Returns-bind}
use tda596_labs.Mr.Rpc.{Task}
use tda596_labs.Mr.Worker.{
  KeyValue, Bytes, Store, Host, ihash, create, write, create_all, bucket_of, write_all,
  execute_map_task,
}
use tda596_labs.Mr.Worker.Laws.{HostLaws, bucket, encode_all}

module _ (h : Host) where
  open h use {intermediate_name}

  -- `q` is none of the `n` intermediate files of map task `id`.
  abbrev pub Apart : (id n : ℕ) → String → Type 0
  Apart id n q = (b : ℕ) → b < n → q ≢ intermediate_name id b

  -- The files of the task hold the encodings of its pairs, each bucket in its own file and in order.
  abbrev pub MapDone : (id n : ℕ) → List KeyValue → Store → Type 0
  MapDone id n kva s =
      (b : ℕ) → b < n → lookup (intermediate_name id b) s ≡ some (encode_all h (bucket h n b kva))

  -- The task is done, and no file but its own has changed.
  abbrev pub Mapped : Task → Bytes → Store → Store → Type 0
  Mapped task content store s =
      MapDone task.id task.num_of_files (h.map_f task.file (h.to_string content)) s
      × ((q : String) → Apart task.id task.num_of_files q → lookup q s ≡ lookup q store)

module _ (h : Host) (laws : HostLaws h) where
  open h use {intermediate_name}

  pub insert_other :
      (k q : String) (v : Bytes) (store : Store)
      → q ≢ k
      → lookup q (insert k v store) ≡ lookup q store
  insert_other k q v store ne = ground (arith, lookup-insert k q v store, str_eq_iff k q)

  pub insert_self : (k : String) (v : Bytes) (store : Store) → lookup k (insert k v store) ≡ some v
  insert_self k v store = ground (arith, lookup-insert k k v store, str_eq_iff k k)

  name-ne : (id i j : ℕ) → i ≢ j → intermediate_name id i ≢ intermediate_name id j
  name-ne id i j ne e = ne (laws.intermediate_name_inj id i id j e).1

  -- The files i, …, i + rest - 1 are empty, and no other file has changed.
  abbrev Created : (id i rest : ℕ) → Store → Store → Type 0
  Created id i rest store s =
      ((b : ℕ) → i ≤ b → b < i + rest → lookup (intermediate_name id b) s ≡ some [])
      × ((q : String)
          → ((b : ℕ) → i ≤ b → b < i + rest → q ≢ intermediate_name id b)
          → lookup q s ≡ lookup q store)

  create_all_lem :
      (id i rest : ℕ) (store : Store)
      → Returns (Created id i rest store) (create_all h id i rest store)
  unfolding create_all create
  create_all_lem id i zero store = (λ b le lt. absurd (omega arith), λ q out. refl)
  create_all_lem id i (suc rest) store = rw (laws.created (intermediate_name id i)) (
      Returns-mono (Created id (suc i) rest made) (Created id i (suc rest) store)
        (create_all h id (suc i) rest made) (create_all_lem id (suc i) rest made)
        λ s (inside, outside). (
          λ b le lt. elim (Bool-cases (nat_eq i b)) [
            | inl same ↦
                let e : i ≡ b = (nat_eq_iff i b).0 same in
                subst (λ k. lookup (intermediate_name id k) s ≡ some []) e
                  (outside (intermediate_name id i) (λ c le' lt'. name-ne id i c (omega arith))
                    ∙ insert_self (intermediate_name id i) [] store)
            | inr other ↦ inside b (ground arith) (omega arith)
          ],
          λ q out.
              outside q (λ c le' lt'. out c (omega arith) (omega arith))
              ∙ insert_other (intermediate_name id i) q [] store
                  (out i (omega arith) (omega arith)),
        ))
    where
      made : Store
      made = insert (intermediate_name id i) [] store

  module _ (id n : ℕ) (pos : 0 < n) where
    -- What the n files of the task hold.
    abbrev pub Holds : (ℕ → Bytes) → Store → Type 0
    Holds contents store =
        (b : ℕ) → b < n → lookup (intermediate_name id b) store ≡ some (contents b)

    Holds-insert :
        (contents : ℕ → Bytes) (b : ℕ) (more : Bytes) (store : Store)
        → Holds contents store
        → Holds
            (λ c. if nat_eq b c then contents c ++ more else contents c)
            (insert (intermediate_name id b) (contents b ++ more) store)
    Holds-insert contents b more store holds c lt = elim (Bool-cases (nat_eq b c)) [
      | inl same ↦
          let e : b ≡ c = (nat_eq_iff b c).0 same in
          rw same (
            subst
              (λ k.
                lookup (intermediate_name id k)
                  (insert (intermediate_name id b) (contents b ++ more) store)
                ≡ some (contents k ++ more))
              e (insert_self (intermediate_name id b) (contents b ++ more) store))
      | inr other ↦ rw other (
          insert_other (intermediate_name id b) (intermediate_name id c) (contents b ++ more) store
            (name-ne id c b (ground arith))
          ∙ holds c lt)
    ]

    -- Each file has grown by the pairs of its bucket, and no other file has changed.
    abbrev Written : List KeyValue → (ℕ → Bytes) → Store → Store → Type 0
    Written kva contents store s =
        Holds (λ b. contents b ++ encode_all h (bucket h n b kva)) s
        × ((q : String) → Apart h id n q → lookup q s ≡ lookup q store)

    -- One pair more in front.
    Written-cons :
        (kv : KeyValue) (kva : List KeyValue) (contents : ℕ → Bytes) (store : Store)
        → let b = ihash h kv.key % n in
          (s : Store)
          → Written kva
              (λ c. if nat_eq b c then contents c ++ h.encode kv else contents c)
              (insert (intermediate_name id b) (contents b ++ h.encode kv) store)
              s
          → Written (kv ∷ kva) contents store s
    unfolding bucket encode_all
    Written-cons kv kva contents store s (holds, same) = (
      λ c lt. elim (Bool-cases (nat_eq (ihash h kv.key % n) c)) [
        | inl e ↦ rw (e, ← append_assoc (contents c) (h.encode kv) _) (rw e at (holds c lt))
        | inr e ↦ rw e (rw e at (holds c lt))
      ],
      λ q out. same q out ∙ insert_other _ q _ store (out _ (mod-lt (ihash h kv.key) pos)),
    )

    write_all_lem :
        (kva : List KeyValue) (contents : ℕ → Bytes) (store : Store)
        → Holds contents store
        → Returns (Written kva contents store) (write_all h id n kva store)
    unfolding write_all bucket encode_all bucket_of write
    write_all_lem [] contents store holds =
        (λ b lt. holds b lt ∙ ap some (sym (append-nil (contents b))), λ q out. refl)
    write_all_lem (kv ∷ kva) contents store holds =
        let b = ihash h kv.key % n in
        let some_files : nat_eq n 0 ≡ false = ground arith in
        rw
          (some_files, laws.written (intermediate_name id b), holds b (mod-lt (ihash h kv.key) pos))
          (Returns-mono _ _ _
            (write_all_lem kva _ _ (Holds-insert contents b (h.encode kv) store holds))
            (Written-cons kv kva contents store))

  -- ExecuteMapTask on an input that exists, with at least one bucket, ends well, if every os.Create and
  -- every write succeeds and the packages behave as documented: bucket b of the pairs that Map emits, in
  -- order, is what file (id, b) holds, whatever it held before, and no other file has changed.
  pub execute_map_task_lem :
      (task : Task) (store : Store) (content : Bytes)
      → 0 < task.num_of_files
      → lookup task.file store ≡ some content
      → Returns (Mapped h task content store) (execute_map_task h task store)
  unfolding execute_map_task
  execute_map_task_lem task store content pos input = rw input (
      Returns-bind (Created task.id 0 task.num_of_files store) (Mapped h task content store)
        (create_all h task.id 0 task.num_of_files store)
        (write_all h task.id task.num_of_files (h.map_f task.file (h.to_string content)))
        (create_all_lem task.id 0 task.num_of_files store)
        λ made (empty, same).
          let kva = h.map_f task.file (h.to_string content) in
          Returns-mono (Written task.id task.num_of_files pos kva (λ b. []) made)
            (Mapped h task content store) (write_all h task.id task.num_of_files kva made)
            (write_all_lem task.id task.num_of_files pos kva (λ b. []) made
              (λ b lt. empty b (omega arith) (omega arith)))
            λ s (holds, rest).
              (holds, λ q out. rest q out ∙ same q (λ b le lt. out b (omega arith))))
