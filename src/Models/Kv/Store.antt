-- ===== src/Models/Kv/Store.antt =====
-- Lab 2/src/models/kv.go against a store of all keys.
use Prim.Native.String.{◌++◌ as str_append}
use mathlib.Core.Path.{subst}
use tda596_labs.Base.{
  GoEq-string, ℕ, String, ◌≡◌, ◌↔◌, inl, inr, refl, sym, Bool, true, false, List, [], ◌∷◌, nat_eq,
  str_eq, str_eq_iff, if◌then◌else◌, Bool-cases, equal_self,
}
use tda596_labs.Base.Run.{Run, ok, ◌>>=◌}
use tda596_labs.Porcupine.Model.{Operation}
use tda596_labs.Models.Kv.{KvInput, KvOutput, KvValue, kv_input, kv_output, kv_step}

-- An operation whose values have the types that the model asserts.
pub record KvOperation : Type 0 where
  pub client_id : ℕ
  pub input : KvInput
  pub call : ℕ
  pub output : KvOutput
  pub return : ℕ

abbrev pub as_operation : KvOperation → Operation KvValue
as_operation v = record {
  client_id = v.client_id;
  input = kv_input v.input;
  call = v.call;
  output = kv_output v.output;
  return = v.return;
}

-- The operations on a key, in their order.
abbrev pub with_key : String → List KvOperation → List KvOperation
with_key k [] = []
with_key k (v ∷ history) =
    if str_eq v.input.key k then v ∷ with_key k history else with_key k history

-- The model takes a step with each operation in turn.
abbrev pub accepts : String → List KvOperation → Run Bool
accepts state [] = ok true
accepts state (v ∷ history) = kv_step state (kv_input v.input) (kv_output v.output) >>= λ next.
    if next.0 then accepts next.1 history else ok false

-- A store of all keys, in which Get answers the key's value, Put replaces it and any other operation
-- appends to it.
abbrev pub KvStore : Type 0
KvStore = String → String

abbrev pub value_after : KvInput → String → String
value_after inp old =
    if nat_eq inp.op 0 then old else if nat_eq inp.op 1 then inp.value else str_append old inp.value

abbrev pub store_after : KvInput → KvStore → KvStore
store_after inp store k = if str_eq inp.key k then value_after inp (store k) else store k

abbrev pub IsAnswerIf : Bool → String → String → Type 0
IsAnswerIf true value expected = value ≡ expected
IsAnswerIf false value expected = Unit

-- The answer of Get is the value; the answer of any other operation may be anything.
abbrev pub IsAnswer : String → KvOperation → Type 0
IsAnswer expected v = IsAnswerIf (nat_eq v.input.op 0) v.output.value expected

abbrev pub Serves : KvStore → List KvOperation → Type 0
Serves store [] = Unit
Serves store (v ∷ history) =
    IsAnswer (store v.input.key) v × Serves (store_after v.input store) history

-- What the model answers to one operation on its key.
kv_step_lem :
    (state : String) (v : KvOperation)
    → kv_step state (kv_input v.input) (kv_output v.output)
      ≡ ok (
        (if nat_eq v.input.op 0 then str_eq v.output.value state else true),
        value_after v.input state,
      )
unfolding kv_step
kv_step_lem state v = elim (Bool-cases (nat_eq v.input.op 0)) [
  | inl is_get ↦ rw (is_get) refl
  | inr not_get ↦ elim (Bool-cases (nat_eq v.input.op 1)) [
    | inl is_put ↦ rw (not_get, is_put) refl
    | inr not_put ↦ rw (not_get, not_put) refl
  ]
]

answer_step :
    (is_get : Bool) (value expected : String) (r : Run Bool)
    → ((if (if is_get then str_eq value expected else true) then r else ok false) ≡ ok true)
      ↔ (IsAnswerIf is_get value expected × (r ≡ ok true))
answer_step false value expected r = ((λ h. (tt, h)), (λ h. h.1))
answer_step true value expected r = elim (Bool-cases (str_eq value expected)) [
  | inl same ↦ rw (same) ((λ h. ((str_eq_iff value expected).0 same, h)), (λ h. h.1))
  | inr other ↦
      rw (other)
        ((λ h. absurd (cc)), (λ h. let right = (str_eq_iff value expected).1 h.0 in absurd (cc)))
]

-- The model goes on behind an operation exactly if its answer is right.
accepts-IsAnswer :
    (state : String) (v : KvOperation) (history : List KvOperation)
    → (accepts state (v ∷ history) ≡ ok true)
      ↔ (IsAnswer state v × (accepts (value_after v.input state) history ≡ ok true))
accepts-IsAnswer state v history = rw (kv_step_lem state v) (
    answer_step (nat_eq v.input.op 0) v.output.value state
      (accepts (value_after v.input state) history))

-- The operations on a key, if this operation comes first.
with_key-own :
    (v : KvOperation) (history : List KvOperation)
    → with_key v.input.key (v ∷ history) ≡ v ∷ with_key v.input.key history
with_key-own v history = rw (equal_self v.input.key) refl

with_key-other :
    (k : String) (v : KvOperation) (history : List KvOperation)
    → str_eq v.input.key k ≡ false
    → with_key k (v ∷ history) ≡ with_key k history
with_key-other k v history other = rw (other) refl

store_after-own :
    (inp : KvInput) (store : KvStore)
    → store_after inp store inp.key ≡ value_after inp (store inp.key)
store_after-own inp store = rw (equal_self inp.key) refl

store_after-other :
    (inp : KvInput) (store : KvStore) (k : String)
    → str_eq inp.key k ≡ false
    → store_after inp store k ≡ store k
store_after-other inp store k other = rw (other) refl

module _ (store : KvStore) (v : KvOperation) (history : List KvOperation) where
  Accepted : KvStore → List KvOperation → String → Type 0
  Accepted st ops k = accepts (st k) (with_key k ops) ≡ ok true

  -- On the operation's own key, and on the others.
  own_key :
      Accepted store (v ∷ history) v.input.key
      ↔ (IsAnswer (store v.input.key) v × Accepted (store_after v.input store) history v.input.key)
  unfolding Accepted
  own_key =
      rw (with_key-own v history, store_after-own v.input store)
        (accepts-IsAnswer (store v.input.key) v (with_key v.input.key history))

  other_key :
      (k : String)
      → str_eq v.input.key k ≡ false
      → Accepted store (v ∷ history) k ≡ Accepted (store_after v.input store) history k
  unfolding Accepted
  other_key k other =
      rw (with_key-other k v history other, store_after-other v.input store k other) refl

  all_keys :
      (IsAnswer (store v.input.key) v
        × ((k : String) → Accepted (store_after v.input store) history k))
      ↔ ((k : String) → Accepted store (v ∷ history) k)
  all_keys = (
    λ h k. elim (Bool-cases (str_eq v.input.key k)) [
      | inl same ↦
          subst (Accepted store (v ∷ history)) ((str_eq_iff v.input.key k).0 same)
            (own_key.1 (h.0, h.1 v.input.key))
      | inr other ↦ subst (λ t. t) (sym (other_key k other)) (h.1 k)
    ],
    λ h. (
      (own_key.0 (h v.input.key)).0,
      λ k. elim (Bool-cases (str_eq v.input.key k)) [
        | inl same ↦
            subst (Accepted (store_after v.input store) history) ((str_eq_iff v.input.key k).0 same)
              (own_key.0 (h v.input.key)).1
        | inr other ↦ subst (λ t. t) (other_key k other) (h k)
      ],
    ),
  )

-- A history is one of a store of all keys, in which Get answers the key's value, Put replaces it and any
-- other operation appends to it, if and only if, for each key, the model takes a step with each operation
-- on this key in turn, from what the store has for it.
pub accepts_iff :
    (store : KvStore) (history : List KvOperation)
    → Serves store history ↔ ((k : String) → accepts (store k) (with_key k history) ≡ ok true)
unfolding Accepted
accepts_iff store [] = ((λ h k. refl), λ h. tt)
accepts_iff store (v ∷ history) =
    let rest = accepts_iff (store_after v.input store) history in
    let keys = all_keys store v history in
    (
      (λ h. keys.0 (h.0, rest.0 h.1)),
      (λ h. let (answer, others) = keys.1 h in (answer, rest.1 others)),
    )
