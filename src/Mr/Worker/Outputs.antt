-- ===== src/Mr/Worker/Outputs.antt =====
-- The output files of ExecuteReduceTask in worker.go, described by the pairs that Map emitted.
use mathlib.Core.List.{append-nil, append_assoc}
use tda596_labs.Base.{
  ℕ, zero, suc, ◌%◌, ◌≡◌, refl, ap, sym, ◌∙◌, inl, inr, String, Option, none, some, List, [], ◌∷◌,
  ◌++◌, nat_eq, str_eq, str_eq_iff, GoEq-string, if◌then◌else◌, arith, Bool-cases,
}
use tda596_labs.Base.Dict.{lookup, lookup-insert}
use tda596_labs.Mr.Worker.{KeyValue, Store, Groups, Host, values_or_nil, add_value, ihash}
use tda596_labs.Mr.Worker.Laws.{HostLaws, bucket, values_of, some_values, IsOnce}
use tda596_labs.Mr.Worker.ReduceTask.{add_all, concat_from, lines, reduced}
use tda596_labs.Mr.Worker.Groups.{IsOnce-insert, IsOnce-Perm, lookup-Perm}

-- These values behind the ones that there were.
abbrev joined : Option (List String) → List String → Option (List String)
joined none vs = some_values vs
joined (some old) vs = some (old ++ vs)

joined-nil : (o : Option (List String)) → joined o [] ≡ o
joined-nil none = refl
joined-nil (some old) = ap some (append-nil old)

joined-cons :
    (o : Option (List String)) (v : String) (vs : List String)
    → joined (some (values_or_nil o ++ v ∷ [])) vs ≡ joined o (v ∷ vs)
joined-cons none v vs = refl
joined-cons (some old) v vs = ap some (append_assoc old (v ∷ []) vs)

values_of-append :
    (k : String) (xs ys : List KeyValue) → values_of k (xs ++ ys) ≡ values_of k xs ++ values_of k ys
unfolding values_of
values_of-append k [] ys = refl
values_of-append k (x ∷ xs) ys = ground (arith, values_of-append k xs ys)

module _ (h : Host) where
  joined-add_value :
      (key : String) (kv : KeyValue) (groups : Groups) (vs : List String)
      → joined (lookup key (add_value h kv groups)) vs
        ≡ joined (lookup key groups) (if str_eq kv.key key then kv.value ∷ vs else vs)
  unfolding add_value
  joined-add_value key kv groups vs =
      let found =
        lookup-insert kv.key key (values_or_nil (lookup kv.key groups) ++ kv.value ∷ []) groups in
      elim (Bool-cases (str_eq kv.key key)) [
        | inl same ↦
            rw (found, same, (str_eq_iff kv.key key).0 same)
              (joined-cons (lookup key groups) kv.value vs)
        | inr other ↦ rw (found, other) refl
      ]

  -- Appending pairs to a map adds to the values of a key those that the pairs give it, in order.
  lookup-add_all :
      (key : String) (kva : List KeyValue) (groups : Groups)
      → lookup key (add_all h kva groups) ≡ joined (lookup key groups) (values_of key kva)
  unfolding add_all values_of
  lookup-add_all key [] groups = sym (joined-nil (lookup key groups))
  lookup-add_all key (kv ∷ kva) groups =
      lookup-add_all key kva (add_value h kv groups)
      ∙ joined-add_value key kv groups (values_of key kva)

  IsOnce-add_all :
      (kva : List KeyValue) (groups : Groups) → IsOnce groups → IsOnce (add_all h kva groups)
  unfolding add_all add_value
  IsOnce-add_all [] groups once = once
  IsOnce-add_all (kv ∷ kva) groups once =
      IsOnce-add_all kva (add_value h kv groups) (IsOnce-insert kv.key _ groups once)

  values_of-bucket :
      (k : String) (n r : ℕ) (kva : List KeyValue)
      → values_of k (bucket h n r kva) ≡ (if nat_eq (ihash h k % n) r then values_of k kva else [])
  unfolding values_of bucket
  values_of-bucket k n r [] = ground arith
  values_of-bucket k n r (kv ∷ kva) =
      let ih = values_of-bucket k n r kva in
      elim (Bool-cases (str_eq kv.key k)) [
        | inl same ↦
            let e : kv.key ≡ k = (str_eq_iff kv.key k).0 same in
            let hash = ap (λ x. nat_eq (ihash h x % n) r) e in ground (arith, ih, hash)
        | inr other ↦ ground (arith, ih)
      ]

  values_of-concat_from :
      (k : String) (n r : ℕ) (emitted : ℕ → List KeyValue) (i rest : ℕ)
      → values_of k (concat_from (λ j. bucket h n r (emitted j)) i rest)
        ≡ (if nat_eq (ihash h k % n) r then values_of k (concat_from emitted i rest) else [])
  unfolding concat_from values_of
  values_of-concat_from k n r emitted i zero = elim (Bool-cases (nat_eq (ihash h k % n) r)) [
    | inl mine ↦ rw mine
    | inr other ↦ rw other
  ]
  values_of-concat_from k n r emitted i (suc rest) =
      values_of-append k (bucket h n r (emitted i))
        (concat_from (λ j. bucket h n r (emitted j)) (suc i) rest)
      ∙ ground (
        arith,
        values_of-bucket k n r (emitted i),
        values_of-concat_from k n r emitted (suc i) rest,
        values_of-append k (emitted i) (concat_from emitted (suc i) rest),
      )

  -- What output file r of n holds, given the pairs that the map tasks 0, …, m - 1 emitted: the lines of
  -- groups with one group for each key of bucket r that was emitted, which has all the values that were
  -- emitted for the key, in the order of the tasks and of their pairs.
  pub record IsReduced (m n r : ℕ) (emitted : ℕ → List KeyValue) (store : Store) : Type 0 where
    pub groups : Groups
    pub file : lookup (h.output_name r) store ≡ some (lines h groups)
    pub once : IsOnce groups
    pub values :
        (key : String)
        → lookup key groups
          ≡ some_values
              (if nat_eq (ihash h key % n) r then values_of key (concat_from emitted 0 m) else [])

  module _ (laws : HostLaws h) where
    pub reduced-IsReduced :
        (m n r : ℕ) (emitted : ℕ → List KeyValue) (store : Store)
        → lookup (h.output_name r) store ≡ some (reduced h m n r emitted)
        → IsReduced m n r emitted store
    unfolding lookup
    reduced-IsReduced m n r emitted store at =
        let kva = concat_from (λ i. bucket h n r (emitted i)) 0 m in
        let visits = laws.visits-Perm (add_all h kva []) in
        let once = IsOnce-add_all kva [] tt in
        record {
          groups = h.range_order (add_all h kva []);
          file = at;
          once = IsOnce-Perm visits once;
          values = λ key.
              lookup-Perm key visits once
              ∙ lookup-add_all key kva []
              ∙ ap some_values (values_of-concat_from key n r emitted 0 m);
        }
