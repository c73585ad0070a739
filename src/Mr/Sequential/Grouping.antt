-- ===== src/Mr/Sequential/Grouping.antt =====
-- The loops of Lab 2/src/main/mrsequential.go that gather the values of each key.
use Prim.Native.Char.{code}
use text.Mathlib.TextEquality.{Char-path}
use tda596_labs.Base.{
  GoEq-string, ℕ, zero, suc, ◌≤◌, String, false, some, List, [], ◌∷◌, ◌≡◌, ◌≢◌, refl, inl, inr, sym,
  ap, ◌∙◌, arith, All, str_eq, str_eq_iff, length, Bool-cases,
}
use tda596_labs.Base.Dict.{lookup}
use tda596_labs.Mr.Worker.{KeyValue}
use tda596_labs.Mr.Worker.Laws.{values_of, some_values, Without, IsOnce}
use tda596_labs.Mr.Sequential.{less, key_less, same_key, group}

-- Two strings of which neither is less are equal.
less_total : (a b : String) → less a b ≡ false → less b a ≡ false → a ≡ b
unfolding less
less_total String.[] String.[] e e' = refl
less_total String.[] (String.◌∷◌ d t) e e' = absurd (cc)
less_total (String.◌∷◌ c s) String.[] e e' = absurd (cc)
less_total (String.◌∷◌ c s) (String.◌∷◌ d t) e e' =
    let same : code c ≡ code d = grind (arith, e, e') in
    let rest : (less s t ≡ false) × (less t s ≡ false) =
      (grind (arith, e, same), grind (arith, e', same)) in
    rw (Char-path c d same, less_total s t rest.0 rest.1) refl

-- No pair comes before one that is less.
abbrev pub IsSorted : List KeyValue → Type 0
IsSorted [] = Unit
IsSorted (kv ∷ kva) = All (λ other. key_less other kv ≡ false) kva × IsSorted kva

-- The pairs do not have this key.
abbrev Lacks : String → List KeyValue → Type 0
Lacks key = All (λ kv. kv.key ≢ key)

values_of-Lacks : (key : String) (kva : List KeyValue) → Lacks key kva → values_of key kva ≡ []
unfolding values_of
values_of-Lacks key [] a = refl
values_of-Lacks key (kv ∷ kva) a =
    grind (arith, a.0, str_eq_iff kv.key key, values_of-Lacks key kva a.1)

values_of-skip :
    (key : String) (kv : KeyValue) (kva : List KeyValue)
    → kv.key ≢ key
    → values_of key (kv ∷ kva) ≡ values_of key kva
unfolding values_of
values_of-skip key kv kva ne = grind (arith, ne, str_eq_iff kv.key key)

-- What follows a larger key in a sorted list has no smaller one.
Lacks-of_larger :
    (key own : String) (kva : List KeyValue)
    → own ≢ key
    → less own key ≡ false
    → All (λ other. less other.key own ≡ false) kva
    → Lacks key kva
Lacks-of_larger key own [] ne le a = tt
Lacks-of_larger key own (kv ∷ kva) ne le a =
    (λ same. ne (less_total own key le rw (same) at a.0), Lacks-of_larger key own kva ne le a.1)

-- The inner loop on a sorted list whose keys are not less than this one.
same_key_lem :
    (key : String) (kva : List KeyValue)
    → IsSorted kva
    → All (λ other. less other.key key ≡ false) kva
    → ((same_key key kva).0 ≡ values_of key kva)
      × Lacks key (same_key key kva).1
      × IsSorted (same_key key kva).1
      × (length (same_key key kva).1 ≤ length kva)
      × ((k : String) → k ≢ key → values_of k (same_key key kva).1 ≡ values_of k kva)
unfolding same_key values_of
same_key_lem key [] s a = (refl, tt, tt, omega arith, λ k ne. refl)
same_key_lem key (kv ∷ kva) s a = elim (Bool-cases (str_eq kv.key key)) [
  | inl same ↦
      let (values, lacks, sorted, short, others) = same_key_lem key kva s.1 a.1 in
      rw (same, same_key, values_of)
        (
          ap (λ vs. kv.value ∷ vs) values,
          lacks,
          sorted,
          omega (arith, short),
          λ k ne.
              others k ne
              ∙ sym (values_of-skip k kv kva (λ e. ne (sym e ∙ (str_eq_iff kv.key key).0 same))),
        )
  | inr other ↦
      let ne : kv.key ≢ key = (λ e. absurd (grind (arith, str_eq_iff kv.key key, e, other))) in
      let lacks : Lacks key (kv ∷ kva) = (ne, Lacks-of_larger key kv.key kva ne a.0 s.0) in
      rw (other, same_key)
        (sym (values_of-Lacks key kva lacks.1), lacks, s, omega arith, λ k ne'. refl)
]

Lacks-same_key :
    (key own : String) (kva : List KeyValue) → Lacks key kva → Lacks key (same_key own kva).1
unfolding same_key
Lacks-same_key key own [] a = tt
Lacks-same_key key own (kv ∷ kva) a = elim (Bool-cases (str_eq kv.key own)) [
  | inl same ↦ rw (same, same_key) (Lacks-same_key key own kva a.1)
  | inr other ↦ rw (other, same_key) a
]

-- The groups of a sorted list: the values of each key, in order, and no key twice.
pub group_lem :
    (fuel : ℕ) (kva : List KeyValue)
    → IsSorted kva
    → length kva ≤ fuel
    → ((key : String) → lookup key (group fuel kva) ≡ some_values (values_of key kva))
      × ((key : String) → Lacks key kva → Without key (group fuel kva))
      × IsOnce (group fuel kva)
unfolding group lookup values_of
group_lem zero [] s enough = (λ key. refl, λ key lacks. tt, tt)
group_lem zero (kv ∷ kva) s enough = elim enough [ ]
group_lem (suc fuel) [] s enough = (λ key. refl, λ key lacks. tt, tt)
group_lem (suc fuel) (kv ∷ kva) s enough =
    let (values, lacks, sorted, short, others) = same_key_lem kv.key kva s.1 s.0 in
    let (found, absent, once) = group_lem fuel (same_key kv.key kva).1 sorted (omega arith) in
    (
      λ key. elim (Bool-cases (str_eq kv.key key)) [
        | inl same ↦ rw (same) (
            ap (λ vs. some (kv.value ∷ vs))
              (values ∙ ap (λ q. values_of q kva) ((str_eq_iff kv.key key).0 same)))
        | inr other ↦ rw (other) (
            found key
            ∙ ap some_values
                (others key (λ e. absurd (grind (arith, str_eq_iff kv.key key, e, other)))))
      ],
      λ key none_has. (none_has.0, absent key (Lacks-same_key key kv.key kva none_has.1)),
      (absent kv.key lacks, once),
    )
