-- ===== src/Porcupine/Single/Ends.antt =====
-- Lab 2/src/porcupine/checker.go: checkSingle ends.
use tda596_labs.Base.{ℕ, ◌/◌, ◌≤◌, ◌<◌, ◌≡◌, refl, ap, ◌∙◌, arith, Bool, List, All, length}
use tda596_labs.Base.Run.{ok, Returns, Returns-cases}
use tda596_labs.Porcupine.Model.{Filled}
use tda596_labs.Porcupine.Entry.{Entry, call_entry, return_entry}
use tda596_labs.Porcupine.Spec.{IsCalledOnce}
use tda596_labs.Porcupine.Single.{Verdict, answer, out_of_fuel, Longest, check_single}
use tda596_labs.Porcupine.Single.Budget.{most_rounds}
use tda596_labs.Porcupine.Single.Sound.{IsSound, check_single-IsSound}

module _ {S V : Type 0} (model : Filled S V) (good : Entry V → Type 0)
    (can_step : (s : S) (c r : Entry V)
      → good c
      → good r
      → c.kind ≡ call_entry
      → r.kind ≡ return_entry
      → Returns (λ q. Unit) (model.step s c.value r.value)) where
  enough_fuel :
      (history : List (Entry V)) (n fuel bound : ℕ) (v : Verdict)
      → bound ≤ fuel
      → IsSound model history n (fuel < bound) v
      → (result : Bool) × (longest : Longest) × (v ≡ answer result longest)
  enough_fuel history n fuel bound (answer result longest) enough h = (result, longest, refl)
  enough_fuel history n fuel bound out_of_fuel enough h = absurd (omega arith)

  -- What the fuel bound of check_single-IsSound means for a run with enough fuel.
  pub check_single_ends :
      (fuel : ℕ) (history : List (Entry V)) (compute_partial : Bool) (kill : ℕ → Bool)
      → IsCalledOnce history
      → All (λ e. e.id < length history / 2) history
      → All good history
      → most_rounds (length history) ≤ fuel
      → (result : Bool) × (longest : Longest) × (check_single model fuel history compute_partial
            kill
          ≡ ok (answer result longest))
  check_single_ends fuel history compute_partial kill once small typed enough =
      let (verdict, eq, sound) =
        Returns-cases
          (IsSound model history (length history / 2) (fuel < most_rounds (length history)))
          (check_single model fuel history compute_partial kill)
          (check_single-IsSound model good can_step fuel history compute_partial kill once small
            typed) in
      let (result, longest, same) =
        enough_fuel history (length history / 2) fuel (most_rounds (length history)) verdict enough
          sound in
      (result, longest, eq ∙ ap ok same)
