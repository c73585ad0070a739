-- ===== src/Porcupine/Api.antt =====
-- Lab 2/src/porcupine/porcupine.go: the package's functions, which check without a timeout, with one, or
-- with the information for the web page. `none` stands for a call that does not return.
use tda596_labs.Base.{GoEq, ℕ, Bool, true, false, Option, none, some, List}
use tda596_labs.Base.Run.{Run, ok, ◌>>=◌}
use tda596_labs.Porcupine.Model.{Operation, Event, Model}
use tda596_labs.Porcupine.Entry.{Entry}
use tda596_labs.Porcupine.Parallel.{CheckResult, check_unknown, check_ok, check_illegal, Arrival}
use tda596_labs.Porcupine.Parallel

-- `res == Ok`
abbrev pub is_ok : CheckResult → Bool
is_ok check_ok = true
is_ok check_unknown = false
is_ok check_illegal = false

abbrev pub is_ok_of : Option CheckResult → Option Bool
is_ok_of none = none
is_ok_of (some result) = some (is_ok result)

module _ {S V : Type 0} ⦃e : GoEq S⦄ (model : Model S V) (fuel : ℕ) where
  unfoldable pub check_events : List (Event V) → List Arrival → Run (Option Bool)
  check_events history arrivals = do
    result ← Parallel.check_events model fuel history false 0 arrivals
    ok (is_ok_of result)

  abbrev pub check_events_timeout : List (Event V) → ℕ → List Arrival → Run (Option CheckResult)
  check_events_timeout history timeout arrivals =
      Parallel.check_events model fuel history false timeout arrivals

  abbrev pub check_events_verbose : List (Event V) → ℕ → List Arrival → Run (Option CheckResult)
  check_events_verbose history timeout arrivals =
      Parallel.check_events model fuel history true timeout arrivals

  module _ (sort : List (Entry V) → List (Entry V)) where
    unfoldable pub check_operations : List (Operation V) → List Arrival → Run (Option Bool)
    check_operations history arrivals = do
      result ← Parallel.check_operations model fuel sort history false 0 arrivals
      ok (is_ok_of result)

    abbrev pub check_operations_timeout :
        List (Operation V) → ℕ → List Arrival → Run (Option CheckResult)
    check_operations_timeout history timeout arrivals =
        Parallel.check_operations model fuel sort history false timeout arrivals

    abbrev pub check_operations_verbose :
        List (Operation V) → ℕ → List Arrival → Run (Option CheckResult)
    check_operations_verbose history timeout arrivals =
        Parallel.check_operations model fuel sort history true timeout arrivals
