-- ===== src/Porcupine/Parallel.antt =====
-- Lab 2/src/porcupine/checker.go: checkParallel, checkEvents and checkOperations. What the loop of checkParallel takes from its channels is a list:
-- the result of one of the goroutines that have not been heard of yet, with what that goroutine has read
-- from the flag `kill`, or the timeout. A result is there only if the fuel was enough for the goroutine,
-- and a timeout only if there is one. Where the list ends the loop waits on: the answer is `none`. The
-- information for the web page is left out.
pub mod Sound
pub mod Operations
pub mod Ends
use tda596_labs.Base.{
  GoEq, ℕ, zero, suc, Bool, true, false, ◌&&◌, not, Option, none, some, List, [], ◌∷◌, map, nat_eq,
  leb, ltb, if◌then◌else◌, length,
}
use tda596_labs.Base.Run.{Run, ok, panic, ◌>>=◌}
use tda596_labs.Porcupine.Model.{Operation, Event, Model, Filled, fill_default}
use tda596_labs.Porcupine.Entry.{Entry, make_entries, renumber, convert_entries}
use tda596_labs.Porcupine.Single.{Verdict, answer, out_of_fuel, check_single}

pub data CheckResult : Type 0 where
  check_unknown : CheckResult
  check_ok : CheckResult
  check_illegal : CheckResult

pub data Arrival : Type 0 where
  arrived : (p : ℕ) (kill : ℕ → Bool) → Arrival
  timed_out : Arrival

abbrev pub take_at : {A : Type 0} → ℕ → List A → Option (A × List A)
take_at p [] = none
take_at zero (x ∷ xs) = some (x, xs)
take_at (suc p) (x ∷ xs) = elim (take_at p xs) [
  | none ↦ none
  | some taken ↦ some (taken.0, x ∷ taken.1)
]

abbrev pub result_of : Bool → Bool → CheckResult
result_of false timed = check_illegal
result_of true true = check_unknown
result_of true false = check_ok

module _ {S V : Type 0} (model : Filled S V) (fuel : ℕ) (compute_info : Bool) (timeout : ℕ) where
  -- The loop: the goroutines that have not been heard of, and the variables count and ok.
  unfoldable pub wait :
      (total : ℕ) → List Arrival → List (List (Entry V)) → ℕ → Bool → Run (Option CheckResult)
  wait total [] pending count all_ok = ok none
  wait total (timed_out ∷ arrivals) pending count all_ok = elim (ltb 0 timeout) [
    | true ↦ ok (some (result_of all_ok true))
    | false ↦ wait total arrivals pending count all_ok
  ]
  wait total (arrived p kill ∷ arrivals) pending count all_ok = elim (take_at p pending) [
    | none ↦ wait total arrivals pending count all_ok
    | some (subhistory, others) ↦ do
      verdict ← check_single model fuel subhistory compute_info kill
      elim verdict [
        | out_of_fuel ↦ wait total arrivals pending count all_ok
        | answer result longest ↦ elim (not (all_ok && result) && not compute_info) [
          | true ↦ ok (some (result_of (all_ok && result) false))
          | false ↦ elim (leb total (suc count)) [
            | true ↦ ok (some (result_of (all_ok && result) false))
            | false ↦ wait total arrivals others (suc count) (all_ok && result)
          ]
        ]
      ]
  ]

  unfoldable pub check_parallel : List (List (Entry V)) → List Arrival → Run (Option CheckResult)
  check_parallel history arrivals = wait (length history) arrivals history 0 true

module _ {S V : Type 0} ⦃e : GoEq S⦄ (model : Model S V) (fuel : ℕ) where
  unfoldable pub check_events : List (Event V) → Bool → ℕ → List Arrival → Run (Option CheckResult)
  check_events history verbose timeout arrivals = do
    let filled = fill_default model
    partitions ← filled.partition_event history
    check_parallel filled fuel verbose timeout
        (map (λ sub. convert_entries (renumber sub)) partitions) arrivals

  module _ (sort : List (Entry V) → List (Entry V)) where
    unfoldable pub check_operations :
        List (Operation V) → Bool → ℕ → List Arrival → Run (Option CheckResult)
    check_operations history verbose timeout arrivals = do
      let filled = fill_default model
      partitions ← filled.partition history
      check_parallel filled fuel verbose timeout (map (make_entries sort) partitions) arrivals
