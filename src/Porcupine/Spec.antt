-- ===== src/Porcupine/Spec.antt =====
-- What it means that a history is linearizable.
use tda596_labs.Base.{ℕ, ◌≡◌, ◌≢◌, Bool, true, List, [], ◌∷◌, ◌++◌, All}
use tda596_labs.Base.Run.{Run, ok}
use tda596_labs.Porcupine.Entry.{Entry, call_entry, return_entry}

abbrev pub IsCall : {V : Type 0} → Entry V → Type 0
IsCall e = e.kind ≡ call_entry

-- No two calls of the history have the same number.
abbrev pub IsCalledOnce : {V : Type 0} → List (Entry V) → Type 0
IsCalledOnce [] = Unit
IsCalledOnce (e ∷ es) = All (λ f. IsCall e → IsCall f → f.id ≢ e.id) es × IsCalledOnce es

-- The operations of the entries, which are in the order of time, can take effect one at a time, from a
-- state, in the order of these numbers. An operation that takes effect is called before any of those
-- that are left has returned, and the model can take a step with its input and its output.
pub data Linearizes {S V : Type 0} (step : S → V → V → Run (Bool × S))
    : S → List (Entry V) → List ℕ → Type 0 where
  done : {s : S} → Linearizes step s [] []
  effect :
      {s : S} (s' : S) (before mid after : List (Entry V)) (c r : Entry V) {ids : List ℕ}
      → All IsCall before
      → c.kind ≡ call_entry
      → r.kind ≡ return_entry
      → r.id ≡ c.id
      → step s c.value r.value ≡ ok (true, s')
      → Linearizes step s' ((before ++ mid) ++ after) ids
      → Linearizes step s (before ++ c ∷ (mid ++ r ∷ after)) (c.id ∷ ids)
