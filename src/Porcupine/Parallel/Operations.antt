-- ===== src/Porcupine/Parallel/Operations.antt =====
-- CheckOperations of Lab 2/src/porcupine/porcupine.go, from the operations to the answer.
use mathlib.Core.Path.{subst}
use mathlib.Core.List.{Permᴰ}
use tda596_labs.Base.{
  GoEq, ℕ, ◌/◌, ◌<◌, ◌≡◌, sym, arith, Bool, true, false, Option, none, some, List, [], ◌∷◌, map,
  All, length,
}
use tda596_labs.Base.Run.{ok, Returns, Returns-bind}
use tda596_labs.Porcupine.Model.{Operation, Model, fill_default}
use tda596_labs.Porcupine.Entry.{Entry, call_entry, return_entry, entries_from, make_entries}
use tda596_labs.Porcupine.Spec.{Linearizes}
use tda596_labs.Porcupine.Parallel.{
  CheckResult, check_unknown, check_ok, check_illegal, Arrival, check_parallel,
}
use tda596_labs.Porcupine.Parallel
use tda596_labs.Porcupine.Parallel.Sound.{IsComplete, IsRight, check_parallel-IsRight}
use tda596_labs.Porcupine.Api.{is_ok_of, check_operations}
use tda596_labs.Porcupine.Entry.Numbers.{
  All-Perm, length-Perm, IsCalledOnce-Perm, entries_from-bounds, entries_from-IsCalledOnce,
  length-entries_from, zero_low, entries_from-IsTyped, IsTyped, IsTypedOperation,
}

-- What CheckOperations answers true to.
abbrev pub IsChecked :
    {V : Type 0} → (List (Operation V) → Type 0) → List (List (Operation V)) → Option Bool → Type 0
IsChecked P parts none = Unit
IsChecked P parts (some true) = All P parts
IsChecked P parts (some false) = Unit

module _ {S V : Type 0} (model : Model S V) (sort : List (Entry V) → List (Entry V)) where
  -- The operations of a part, with entries in the order of sort.Sort, can take effect one at a time.
  abbrev pub IsExplained : List (Operation V) → Type 0
  IsExplained part = (ids : List ℕ) × Linearizes model.step model.init (make_entries sort part) ids

module _ {S V : Type 0} (model : Model S V) (sort : List (Entry V) → List (Entry V))
    (IsInput IsOutput : V → Type 0) where
  can_step :
      ((s : S) (i o : V) → IsInput i → IsOutput o → Returns (λ q. Unit) (model.step s i o))
      → (s : S) (c r : Entry V) → IsTyped IsInput IsOutput c
      → IsTyped IsInput IsOutput r
      → c.kind ≡ call_entry
      → r.kind ≡ return_entry
      → Returns (λ q. Unit) (model.step s c.value r.value)
  can_step total s c r typed_c typed_r is_call is_return =
      total s c.value r.value
        (subst (λ k. elim k [ call_entry ↦ IsInput c.value | return_entry ↦ IsOutput c.value ])
          is_call typed_c)
        (subst (λ k. elim k [ call_entry ↦ IsInput r.value | return_entry ↦ IsOutput r.value ])
          is_return typed_r)

  module _
      (total : (s : S) (i o : V) → IsInput i → IsOutput o → Returns (λ q. Unit) (model.step s i o))
      (same : (es : List (Entry V)) → Permᴰ (sort es) es) where
    abbrev Complete : List (Entry V) → Type 0
    Complete = IsComplete (IsTyped IsInput IsOutput)

    make_entries-Complete :
        (part : List (Operation V))
        → All (IsTypedOperation IsInput IsOutput) part
        → Complete (make_entries sort part)
    unfolding make_entries
    make_entries-Complete part typed =
        let sorted = same (entries_from 0 part) in
        let half : length (sort (entries_from 0 part)) / 2 ≡ length part =
          omega (arith, length-Perm sorted, length-entries_from 0 part) in
        record {
          once = IsCalledOnce-Perm sorted (entries_from-IsCalledOnce 0 part);
          small =
              subst (λ n. All (λ e. e.id < n) (sort (entries_from 0 part))) (sym half)
                (All-Perm (λ e. e.id < length part) sorted
                  (zero_low (length part) (entries_from 0 part) (entries_from-bounds 0 part)));
          typed =
              All-Perm (IsTyped IsInput IsOutput) sorted
                (entries_from-IsTyped IsInput IsOutput 0 part typed);
        }

    All-Complete :
        (parts : List (List (Operation V)))
        → All (All (IsTypedOperation IsInput IsOutput)) parts
        → All Complete (map (make_entries sort) parts)
    All-Complete [] h = tt
    All-Complete (part ∷ parts) h = (make_entries-Complete part h.0, All-Complete parts h.1)

    explained :
        (parts : List (List (Operation V)))
        → All
            (λ sub. (ids : List ℕ) × Linearizes model.step model.init sub ids)
            (map (make_entries sort) parts)
        → All (IsExplained model sort) parts
    explained [] h = tt
    explained (part ∷ parts) h = (h.0, explained parts h.1)

    is_ok-IsChecked :
        ⦃e : GoEq S⦄ (parts : List (List (Operation V))) (result : Option CheckResult)
        → IsRight (fill_default model) (map (make_entries sort) parts) result
        → IsChecked (IsExplained model sort) parts (is_ok_of result)
    unfolding fill_default
    is_ok-IsChecked parts none h = tt
    is_ok-IsChecked parts (some check_unknown) h = tt
    is_ok-IsChecked parts (some check_ok) h = explained parts h
    is_ok-IsChecked parts (some check_illegal) h = tt

-- CheckOperations does not panic, if Partition splits the history into parts whose inputs and outputs are
-- ones with which the model can step without a panic, and sort.Sort gives the same entries in another
-- order. The results may arrive in any order, and some may never do. If CheckOperations answers true, the
-- operations of each part, with their calls and returns in the order of sort.Sort, are linearizable. That
-- it answers at all is not said.
pub check_operations-IsChecked :
    {S V : Type 0} ⦃e : GoEq S⦄ (model : Model S V) (sort : List (Entry V) → List (Entry V))
    (IsInput IsOutput : V → Type 0) (fuel : ℕ) (history : List (Operation V))
    (arrivals : List Arrival) (parts : List (List (Operation V)))
    → ((s : S) (i o : V) → IsInput i → IsOutput o → Returns (λ q. Unit) (model.step s i o))
    → ((es : List (Entry V)) → Permᴰ (sort es) es)
    → (fill_default model).partition history ≡ ok parts
    → All (All (IsTypedOperation IsInput IsOutput)) parts
    → Returns
        (IsChecked (IsExplained model sort) parts)
        (check_operations model fuel sort history arrivals)
unfolding check_operations Parallel.check_operations fill_default
check_operations-IsChecked {S} {V} ⦃e⦄ model sort IsInput IsOutput fuel history arrivals parts total
      same eq typed =
    rw (eq) (
      Returns-bind (IsRight (fill_default model) (map (make_entries sort) parts))
        (IsChecked (IsExplained model sort) parts)
        (check_parallel (fill_default model) fuel false 0 (map (make_entries sort) parts) arrivals)
        _
        (check_parallel-IsRight (fill_default model) (IsTyped IsInput IsOutput)
          (can_step model sort IsInput IsOutput total) fuel false 0 (map (make_entries sort) parts)
          arrivals (All-Complete model sort IsInput IsOutput total same parts typed))
        (is_ok-IsChecked model sort IsInput IsOutput total same parts))
