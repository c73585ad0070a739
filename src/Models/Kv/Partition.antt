-- ===== src/Models/Kv/Partition.antt =====
-- Partition of Lab 2/src/models/kv.go splits a history by key.
use mathlib.Core.Path.{fun_ext}
use mathlib.Core.List.{append_assoc, append-nil}
use tda596_labs.Base.{
  GoEq-string, String, ◌≡◌, ◌≢◌, ◌↔◌, ◌⊎◌, inl, inr, refl, sym, ap, ◌∙◌, List, [], ◌∷◌, ◌++◌, map,
  str_eq, str_eq_iff, if◌then◌else◌, Bool-cases, All,
}
use tda596_labs.Base.Dict.{lookup, insert, lookup-insert}
use tda596_labs.Base.Run.{ok}
use tda596_labs.Porcupine.Model.{Operation}
use tda596_labs.Models.Kv.{KvValue, or_empty, partition_map, kv_partition}
use tda596_labs.Models.Kv.Store.{KvOperation, as_operation, with_key}

abbrev pub In : String → List String → Type 0
In k [] = ⊥
In k (x ∷ xs) = (k ≡ x) ⊎ In k xs

abbrev pub IsDistinct : List String → Type 0
IsDistinct [] = Unit
IsDistinct (x ∷ xs) = All (λ y. x ≢ y) xs × IsDistinct xs

abbrev Groups : Type 0
Groups = List (String × List (Operation KvValue))

abbrev keys : Groups → List String
keys = map (λ e. e.0)

-- What the map has for a key, `m[k]`.
abbrev at : String → Groups → List (Operation KvValue)
at k m = or_empty (lookup k m)

-- The map has each of its keys once, and for some operations.
abbrev IsGrouped : Groups → Type 0
IsGrouped m = IsDistinct (keys m) × All (λ e. e.1 ≢ []) m

Absent-insert :
    (x k : String) (new : List (Operation KvValue)) (m : Groups)
    → x ≢ k
    → All (λ y. x ≢ y) (keys m)
    → All (λ y. x ≢ y) (keys (insert k new m))
unfolding insert
Absent-insert x k new [] ne h = (ne, tt)
Absent-insert x k new ((own, old) ∷ m) ne h = elim (Bool-cases (str_eq k own)) [
  | inl same ↦ rw (same) h
  | inr other ↦ rw (other) (h.0, Absent-insert x k new m ne h.1)
]

insert-IsGrouped :
    (k : String) (new : List (Operation KvValue)) (m : Groups)
    → new ≢ []
    → IsGrouped m
    → IsGrouped (insert k new m)
unfolding insert
insert-IsGrouped k new [] some_new h = ((tt, tt), (some_new, tt))
insert-IsGrouped k new ((own, old) ∷ m) some_new h = elim (Bool-cases (str_eq k own)) [
  | inl same ↦ rw (same) (h.0, (some_new, h.1.1))
  | inr other ↦
      let (distinct, filled) = insert-IsGrouped k new m some_new (h.0.1, h.1.1) in
      let ne : own ≢ k = λ e. let yes_same = (str_eq_iff k own).1 (sym e) in absurd (cc) in
      rw (other) ((Absent-insert own k new m ne h.0.0, distinct), (h.1.0, filled))
]

-- What insert leaves at a key, with a group that has one operation more.
at-insert :
    (k asked : String) (v : Operation KvValue) (m : Groups)
    → at asked (insert k (at k m ++ v ∷ []) m)
      ≡ at asked m ++ (if str_eq k asked then v ∷ [] else [])
at-insert k asked v m = elim (Bool-cases (str_eq k asked)) [
  | inl same ↦
      ap or_empty (lookup-insert k asked (at k m ++ v ∷ []) m)
      ∙ rw (same) (ap (λ q. at q m ++ v ∷ []) ((str_eq_iff k asked).0 same))
  | inr other ↦
      ap or_empty (lookup-insert k asked (at k m ++ v ∷ []) m)
      ∙ rw (other) (sym (append-nil (at asked m)))
]

-- The loop adds to each key's group the operations on the key.
partition_map_lem :
    (m : Groups) (history : List KvOperation)
    → IsGrouped m
    → (m' : Groups) × (partition_map m (map as_operation history) ≡ ok m')
      × IsGrouped m'
      × ((k : String) → at k m' ≡ at k m ++ map as_operation (with_key k history))
unfolding partition_map
partition_map_lem m [] h = (m, refl, h, λ k. sym (append-nil (at k m)))
partition_map_lem m (v ∷ history) h =
    let key = v.input.key in
    let grown = insert key (at key m ++ as_operation v ∷ []) m in
    let (m', eq, grouped, groups) =
      partition_map_lem grown history
        (insert-IsGrouped key (at key m ++ as_operation v ∷ []) m (not_nil (at key m)) h) in
    (
      m',
      eq,
      grouped,
      λ k.
          groups k
          ∙ ap (λ q. q ++ map as_operation (with_key k history))
              (at-insert key k (as_operation v) m)
          ∙ regroup k,
    )
  where
    not_nil : (xs : List (Operation KvValue)) → xs ++ as_operation v ∷ [] ≢ []
    not_nil [] e = absurd (cc)
    not_nil (x ∷ xs) e = absurd (cc)

    regroup :
        (k : String)
        → (at k m ++ (if str_eq v.input.key k then as_operation v ∷ [] else []))
            ++ map as_operation (with_key k history)
          ≡ at k m ++ map as_operation (with_key k (v ∷ history))
    regroup k = elim (Bool-cases (str_eq v.input.key k)) [
      | inl same ↦
          rw (same)
            (append_assoc (at k m) (as_operation v ∷ []) (map as_operation (with_key k history)))
      | inr other ↦
          rw (other) (ap (λ q. q ++ map as_operation (with_key k history)) (append-nil (at k m)))
    ]

-- A key that the map lacks has no group.
In-keys : (k : String) (m : Groups) → In k (keys m) ⊎ (at k m ≡ [])
unfolding lookup
In-keys k [] = inr refl
In-keys k ((own, ops) ∷ m) = elim (Bool-cases (str_eq own k)) [
  | inl same ↦ inl (inl (sym ((str_eq_iff own k).0 same)))
  | inr other ↦ elim (In-keys k m) [ inl i ↦ inl (inr i) | inr empty ↦ inr (rw (other) empty) ]
]

In-filled : (k : String) (m : Groups) → All (λ e. e.1 ≢ []) m → In k (keys m) → at k m ≢ []
unfolding lookup
In-filled k [] h i = absurd i
In-filled k ((own, ops) ∷ m) h i = elim (Bool-cases (str_eq own k)) [
  | inl same ↦ rw (same) h.0
  | inr other ↦ elim i [
    | inl here ↦ let yes_same = (str_eq_iff own k).1 (sym here) in absurd (cc)
    | inr i' ↦ rw (other) (In-filled k m h.1 i')
  ]
]

map-nil : (ops : List KvOperation) → map as_operation ops ≡ [] → ops ≡ []
map-nil [] e = refl
map-nil (v ∷ ops) e = absurd (cc)

-- Partition splits a history with values of the right types by key: there is one part for each key that
-- an operation has, in the order in which sort.Strings puts these keys, and the part has the operations
-- on the key in the order of the history.
pub kv_partition_lem :
    (sort : List String → List String) (history : List KvOperation)
    → (ks : List String) × (kv_partition sort (map as_operation history)
        ≡ ok (map (λ k. map as_operation (with_key k history)) (sort ks)))
      × IsDistinct ks
      × ((k : String) → In k ks ↔ (with_key k history ≢ []))
unfolding kv_partition lookup
kv_partition_lem sort history =
    let (m, eq, grouped, groups) = partition_map_lem [] history (tt, tt) in
    (
      keys m,
      rw (eq) (ap (λ f. ok (map f (sort (keys m)))) (fun_ext groups)),
      grouped.0,
      λ k. (
        λ i none_here. In-filled k m grouped.1 i (groups k ∙ ap (map as_operation) none_here),
        λ some_here. elim (In-keys k m) [
          | inl i ↦ i
          | inr empty ↦ absurd (some_here (map-nil (with_key k history) (sym (groups k) ∙ empty)))
        ],
      ),
    )
