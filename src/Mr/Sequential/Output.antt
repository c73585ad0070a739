-- ===== src/Mr/Sequential/Output.antt =====
-- What Lab 2/src/main/mrsequential.go leaves in its output file.
use mathlib.Core.List.{Permᴰ}
use mathlib.Core.Path.{subst}
use tda596_labs.Base.{
  GoEq-string, ◌<◌, ◌≡◌, ◌≢◌, refl, ◌∙◌, arith, String, none, some, List, [], ◌∷◌, ◌++◌, All,
  length, str_eq, if◌then◌else◌, Bool-cases, inl, inr,
}
use tda596_labs.Base.Dict.{lookup, insert}
use tda596_labs.Base.Run.{ok}
use tda596_labs.Mr.Worker.{KeyValue, Bytes, Store, Groups, Host, create, output}
use tda596_labs.Mr.Worker.Laws.{HostLaws, values_of, some_values, IsOnce}
use tda596_labs.Mr.Worker.MapTask.{insert_self, insert_other}
use tda596_labs.Mr.Worker.ReduceTask.{lines, output_lem}
use tda596_labs.Mr.Sequential.{group, read_all, sequential}
use tda596_labs.Mr.Sequential.Grouping.{IsSorted, group_lem}

-- Documented behaviour of sort.Sort on these pairs: the same ones in another order, none before one
-- that is less.
pub record SortLaws (sort : List KeyValue → List KeyValue) (kva : List KeyValue) : Type 0 where
  pub sorted : IsSorted (sort kva)
  pub same_elements : Permᴰ (sort kva) kva

refl_of : (vs : List String) → Permᴰ vs vs
refl_of [] = Permᴰ.nil
refl_of (v ∷ vs) = Permᴰ.cons refl (refl_of vs)

-- The same pairs in another order give a key the same values in another order.
one_more :
    (key : String) (a : KeyValue) (vs ws : List String)
    → Permᴰ vs ws
    → Permᴰ
        (if str_eq a.key key then a.value ∷ vs else vs)
        (if str_eq a.key key then a.value ∷ ws else ws)
one_more key a vs ws p = elim (Bool-cases (str_eq a.key key)) [
  | inl same ↦ rw (same) (Permᴰ.cons refl p)
  | inr other ↦ rw (other) p
]

two_more :
    (key : String) (a b : KeyValue) (vs : List String)
    → Permᴰ
        (if str_eq a.key key
          then a.value ∷ (if str_eq b.key key then b.value ∷ vs else vs)
          else if str_eq b.key key
          then b.value ∷ vs
          else vs)
        (if str_eq b.key key
          then b.value ∷ (if str_eq a.key key then a.value ∷ vs else vs)
          else if str_eq a.key key
          then a.value ∷ vs
          else vs)
two_more key a b vs = elim (Bool-cases (str_eq a.key key)) [
  | inl same ↦ elim (Bool-cases (str_eq b.key key)) [
    | inl same' ↦ rw (same, same') (Permᴰ.swap refl refl)
    | inr other' ↦ rw (same, other') (refl_of (a.value ∷ vs))
  ]
  | inr other ↦ elim (Bool-cases (str_eq b.key key)) [
    | inl same' ↦ rw (other, same') (refl_of (b.value ∷ vs))
    | inr other' ↦ rw (other, other') (refl_of vs)
  ]
]

values_of-Perm :
    (key : String) {kva kvb : List KeyValue}
    → Permᴰ kva kvb
    → Permᴰ (values_of key kva) (values_of key kvb)
unfolding values_of
values_of-Perm key Permᴰ.nil = Permᴰ.nil
values_of-Perm key (Permᴰ.cons {a = a} {b = b} {l₁ = l} {l₂ = l'} same p) =
    subst (λ q. Permᴰ (values_of key (a ∷ l)) (values_of key (q ∷ l'))) same
      (one_more key a (values_of key l) (values_of key l') (values_of-Perm key p))
values_of-Perm key (Permᴰ.swap {a = a} {b = b} {a' = a'} {b' = b'} {l = l} same same') =
    subst (λ q. Permᴰ (values_of key (a ∷ b ∷ l)) (values_of key (q ∷ b' ∷ l))) same'
      (subst (λ q. Permᴰ (values_of key (a ∷ b ∷ l)) (values_of key (b ∷ q ∷ l))) same
        (two_more key a b (values_of key l)))
values_of-Perm key (Permᴰ.trans p q) = Permᴰ.trans (values_of-Perm key p) (values_of-Perm key q)

module _ (h : Host) where
  -- What Map makes of the files, in the order of the arguments.
  unfoldable pub emitted : List String → Store → List KeyValue
  emitted [] store = []
  emitted (filename ∷ files) store = elim (lookup filename store) [
    | none ↦ emitted files store
    | some content ↦ h.map_f filename (h.to_string content) ++ emitted files store
  ]

  abbrev pub IsThere : Store → String → Type 0
  IsThere store filename = (content : Bytes) × (lookup filename store ≡ some content)

  read_all_lem :
      (sort : List KeyValue → List KeyValue) (files : List String) (store : Store)
      → All (IsThere store) files
      → read_all h sort files store ≡ ok (emitted files store)
  unfolding read_all emitted
  read_all_lem sort [] store a = refl
  read_all_lem sort (filename ∷ files) store ((content, at), a) =
      rw (at, emitted, read_all_lem sort files store a) refl

  -- The output of a run: `groups` are the groups whose lines are in the file.
  pub record IsOutput (kva : List KeyValue) (groups : Groups) : Type 0 where
    pub once : IsOnce groups
    pub values :
        (key : String)
        → (vs : List String) × Permᴰ vs (values_of key kva) × (lookup key groups ≡ some_values vs)

  module _ (laws : HostLaws h) (sort : List KeyValue → List KeyValue) where
    -- mrsequential with at least one input file ends well, if the input files exist and os.Create and every
    -- write succeed. Its output file then has one line for each key that Map emitted, and that line is
    -- made by Reduce from all the values that Map emitted for the key over all the files, in some
    -- order. No other file is changed. The packages behave as documented, and so does sort.Sort on
    -- the pairs of these files.
    pub sequential_lem :
        (files : List String) (store : Store)
        → 0 < length files
        → All (IsThere store) files
        → SortLaws sort (emitted files store)
        → (groups : Groups) × (last : Store) × IsOutput (emitted files store) groups
          × (sequential h sort files store ≡ ok last)
          × (lookup "mr-out-0" last ≡ some (lines h groups))
          × ((q : String) → q ≢ "mr-out-0" → lookup q last ≡ lookup q store)
    unfolding sequential create
    sequential_lem [] store some_file there sorts = absurd (omega arith)
    sequential_lem (filename ∷ files) store some_file there sorts =
        let kva = emitted (filename ∷ files) store in
        let groups = group (length (sort kva)) (sort kva) in
        let (found, absent, once) =
          group_lem (length (sort kva)) (sort kva) sorts.sorted (omega arith) in
        let (mine, others) =
          output_lem h laws "mr-out-0" groups (insert "mr-out-0" [] store) []
            (insert_self h laws "mr-out-0" [] store) in
        (
          groups,
          output h "mr-out-0" groups (insert "mr-out-0" [] store),
          record {
            once = once;
            values = λ key.
                (values_of key (sort kva), values_of-Perm key sorts.same_elements, found key);
          },
          rw (read_all_lem sort (filename ∷ files) store there, laws.created "mr-out-0") refl,
          mine,
          λ q ne. others q ne ∙ insert_other h laws "mr-out-0" q [] store ne,
        )
