-- ===== src/Porcupine/Tests.antt =====
-- Concrete histories for the checker of Lab 2/src/porcupine, with the model of Lab 2/src/models/kv.go.
use mathlib.Core.List.{Permᴰ}
use mathlib.Core.List.Permᴰ
use tda596_labs.Base.{
  ◌<◌, GoEq-string, GoEq-nat, ℕ, String, ◌≡◌, refl, arith, Bool, true, false, none, some, List, [],
  ◌∷◌, if◌then◌else◌,
}
use tda596_labs.Base.Dict.{lookup, insert}
use tda596_labs.Base.Run.{ok, Returns}
use tda596_labs.Porcupine.Bitset.{
  new_bitset, set_bit, clear_bit, hash, xor_all, equals, same_words, popcnt, ones_count,
}
use tda596_labs.Porcupine.Model.{Operation, Model, fill_default}
use tda596_labs.Porcupine.Entry.{Entry, call_entry, return_entry, less, entries_from, make_entries}
use tda596_labs.Porcupine.Links.{
  insert_before, count_from, lift, lift_entry, lift_match, unlift, unlift_entry, unlift_match,
  link_entry, make_linked_entries,
}
use tda596_labs.Porcupine.Single.{
  same_entry, contains, cache_contains, cache_add, take_call, try_call, ids_of, note_longest,
  note_partial, put_back, backtrack, round, search_loop, check_single,
}
use tda596_labs.Porcupine.Parallel.{
  CheckResult, Arrival, arrived, wait, check_parallel, check_operations,
}
use tda596_labs.Porcupine.Parallel.Operations.{IsExplained, IsChecked, check_operations-IsChecked}
use tda596_labs.Porcupine.Api
use tda596_labs.Porcupine.Parallel.Ends.{check_parallel_ends}
use tda596_labs.Porcupine.Parallel.Sound.{no_parts_no_answer}
use tda596_labs.Porcupine.Single.Budget.{most_rounds}
use tda596_labs.Porcupine.Single.Sound.{IsSound, check_single-IsSound}
use mathlib.Core.Path.{subst}
use tda596_labs.Models.Kv.{
  KvValue, kv_input, kv_output, partition_map, kv_partition, kv_step, kv_model,
}

-- Insertion sort of the entries.
place : Entry KvValue → List (Entry KvValue) → List (Entry KvValue)
place e [] = e ∷ []
place e (f ∷ fs) = let rest = place e fs in if less f e then f ∷ rest else e ∷ f ∷ fs

sort : List (Entry KvValue) → List (Entry KvValue)
sort [] = []
sort (e ∷ es) = place e (sort es)

place-Perm : (e : Entry KvValue) (fs : List (Entry KvValue)) → Permᴰ (place e fs) (e ∷ fs)
unfolding place
place-Perm e [] = Permᴰ.refl (e ∷ [])
place-Perm e (f ∷ fs) = first_two (less f e) (place-Perm e fs)
  where
    first_two :
        (b : Bool)
        → Permᴰ (place e fs) (e ∷ fs)
        → Permᴰ (if b then f ∷ place e fs else e ∷ f ∷ fs) (e ∷ f ∷ fs)
    first_two true p = Permᴰ.trans (Permᴰ.cons refl p) (Permᴰ.swap refl refl)
    first_two false p = Permᴰ.refl (e ∷ f ∷ fs)

sort-Perm : (es : List (Entry KvValue)) → Permᴰ (sort es) es
unfolding sort
sort-Perm [] = Permᴰ.nil
sort-Perm (e ∷ es) = Permᴰ.trans (place-Perm e (sort es)) (Permᴰ.cons refl (sort-Perm es))

abbrev keys_sort : List String → List String
keys_sort ks = ks

abbrev kv : Model String KvValue
kv = kv_model keys_sort

-- Put of "a" under "k" by client 0, from time 1 to time 4.
abbrev put : Operation KvValue
put = record {
  client_id = 0;
  input = kv_input (record { op = 1; key = "k"; value = "a" });
  call = 1;
  output = kv_output (record { value = "" });
  return = 4;
}

-- Get of "k" by client 1.
abbrev get : ℕ → ℕ → String → Operation KvValue
get call return value = record {
  client_id = 1;
  input = kv_input (record { op = 0; key = "k"; value = "" });
  call = call;
  output = kv_output (record { value = value });
  return = return;
}

-- Get runs while Put does, and answers what Put has written.
abbrev overlapping : List (Operation KvValue)
overlapping = get 2 3 "a" ∷ put ∷ []

-- Get is called after Put has returned, and answers what was there before.
abbrev stale : List (Operation KvValue)
stale = put ∷ get 5 6 "" ∷ []

abbrev one_result : List Arrival
one_result = arrived 0 (λ f. false) ∷ []

overlapping_lem : Api.check_operations kv 10 sort overlapping one_result ≡ ok (some true)
unfolding Api.check_operations check_operations check_parallel wait check_single search_loop round
    backtrack put_back note_partial note_longest ids_of try_call take_call cache_add cache_contains
    contains same_entry make_linked_entries link_entry lift lift_entry lift_match unlift
    unlift_entry unlift_match count_from insert_before make_entries entries_from less sort place
    fill_default kv_model kv_step kv_partition partition_map lookup insert new_bitset set_bit
    clear_bit hash xor_all equals same_words popcnt ones_count
overlapping_lem = refl

stale_lem : Api.check_operations kv 10 sort stale one_result ≡ ok (some false)
unfolding Api.check_operations check_operations check_parallel wait check_single search_loop round
    backtrack put_back note_partial note_longest ids_of try_call take_call cache_add cache_contains
    contains same_entry make_linked_entries link_entry lift lift_entry lift_match unlift
    unlift_entry unlift_match count_from insert_before make_entries entries_from less sort place
    fill_default kv_model kv_step kv_partition partition_map lookup insert new_bitset set_bit
    clear_bit hash xor_all equals same_words popcnt ones_count
stale_lem = refl

abbrev call_of_put : Entry KvValue
call_of_put = record { kind = call_entry; value = put.input; id = 0; time = 1; client_id = 0 }

abbrev return_of_put : Entry KvValue
return_of_put = record { kind = return_entry; value = put.output; id = 0; time = 4; client_id = 0 }

abbrev IsInput : KvValue → Type 0
IsInput (kv_input inp) = Unit
IsInput (kv_output out) = ⊥

abbrev IsOutput : KvValue → Type 0
IsOutput (kv_input inp) = ⊥
IsOutput (kv_output out) = Unit

kv_step-Returns :
    (s : String) (i o : KvValue) → IsInput i → IsOutput o → Returns (λ q. Unit) (kv_step s i o)
unfolding kv_step
kv_step-Returns s (kv_input inp) (kv_output out) is_input is_output = tt
kv_step-Returns s (kv_output inp) o is_input is_output = absurd is_input
kv_step-Returns s (kv_input inp) (kv_input out) is_input is_output = absurd is_output

kv_total :
    (s : String) (i o : KvValue) → IsInput i → IsOutput o → Returns (λ q. Unit) (kv.step s i o)
unfolding kv_model
kv_total = kv_step-Returns

overlapping_parts : (fill_default kv).partition overlapping ≡ ok (overlapping ∷ [])
unfolding fill_default kv_model kv_partition partition_map lookup insert
overlapping_parts = refl

check_operations-IsChecked_example :
    Returns
      (IsChecked (IsExplained kv sort) (overlapping ∷ []))
      (Api.check_operations kv 10 sort overlapping one_result)
check_operations-IsChecked_example =
    check_operations-IsChecked kv sort IsInput IsOutput 10 overlapping one_result (overlapping ∷ [])
      kv_total sort-Perm overlapping_parts (((tt, tt), ((tt, tt), tt)), tt)

abbrev IsTyped : Entry KvValue → Type 0
IsTyped e = elim e.kind [ call_entry ↦ IsInput e.value | return_entry ↦ IsOutput e.value ]

kv_can_step :
    (s : String) (c r : Entry KvValue)
    → IsTyped c
    → IsTyped r
    → c.kind ≡ call_entry
    → r.kind ≡ return_entry
    → Returns (λ q. Unit) ((fill_default kv).step s c.value r.value)
unfolding fill_default
kv_can_step s c r typed_c typed_r is_call is_return =
    kv_total s c.value r.value
      (subst (λ k. elim k [ call_entry ↦ IsInput c.value | return_entry ↦ IsOutput c.value ])
        is_call typed_c)
      (subst (λ k. elim k [ call_entry ↦ IsInput r.value | return_entry ↦ IsOutput r.value ])
        is_return typed_r)

check_single-IsSound_example :
    Returns
      (IsSound (fill_default kv) (call_of_put ∷ return_of_put ∷ []) 1 (10 < most_rounds 2))
      (check_single (fill_default kv) 10 (call_of_put ∷ return_of_put ∷ []) true (λ f. false))
check_single-IsSound_example =
    check_single-IsSound (fill_default kv) IsTyped kv_can_step 10 (call_of_put ∷ return_of_put ∷ [])
      true (λ f. false) (((λ x y. absurd (cc)), tt), (tt, tt)) (omega arith, (omega arith, tt))
      (tt, (tt, tt))

no_parts_no_answer_example : check_parallel (fill_default kv) 10 false 0 [] one_result ≡ ok none
no_parts_no_answer_example = no_parts_no_answer (fill_default kv) 10 false one_result

check_parallel_ends_example :
    (result : CheckResult) × (check_parallel
        (fill_default kv)
        10
        false
        0
        ((call_of_put ∷ return_of_put ∷ []) ∷ [])
        one_result
      ≡ ok (some result))
check_parallel_ends_example =
    check_parallel_ends (fill_default kv) IsTyped kv_can_step 10 false 0
      ((call_of_put ∷ return_of_put ∷ []) ∷ []) one_result (omega arith)
      (
        record {
          once = (((λ x y. absurd (cc)), tt), (tt, tt));
          small = (omega arith, (omega arith, tt));
          typed = (tt, (tt, tt));
        },
        tt,
      )
      (omega arith, tt) (omega arith, tt)
