-- ===== src/Porcupine/Model.antt =====
-- Lab 2/src/porcupine/model.go, and fillDefault of checker.go. The values of the interface type are of
-- one type V, and the states of one type S. A nil function is `none`.
use tda596_labs.Base.{ℕ, Bool, Option, none, some, List, [], ◌∷◌, GoEq, ◌==◌}
use tda596_labs.Base.Run.{Run, ok}

pub record Operation (V : Type 0) : Type 0 where
  pub client_id : ℕ
  pub input : V
  pub call : ℕ
  pub output : V
  pub return : ℕ

pub data EventKind : Type 0 where
  call_event : EventKind
  return_event : EventKind

pub record Event (V : Type 0) : Type 0 where
  pub client_id : ℕ
  pub kind : EventKind
  pub value : V
  pub id : ℕ

pub record Model (S V : Type 0) : Type 0 where
  pub partition : Option (List (Operation V) → Run (List (List (Operation V))))
  pub partition_event : Option (List (Event V) → Run (List (List (Event V))))
  pub init : S
  pub step : S → V → V → Run (Bool × S)
  pub equal : Option (S → S → Bool)

-- A model none of whose functions is nil.
pub record Filled (S V : Type 0) : Type 0 where
  pub partition : List (Operation V) → Run (List (List (Operation V)))
  pub partition_event : List (Event V) → Run (List (List (Event V)))
  pub init : S
  pub step : S → V → V → Run (Bool × S)
  pub equal : S → S → Bool

module _ {V : Type 0} where
  abbrev pub no_partition : List (Operation V) → Run (List (List (Operation V)))
  no_partition history = ok (history ∷ [])

  abbrev pub no_partition_event : List (Event V) → Run (List (List (Event V)))
  no_partition_event history = ok (history ∷ [])

abbrev pub shallow_equal : {S : Type 0} ⦃e : GoEq S⦄ → S → S → Bool
shallow_equal state1 state2 = state1 == state2

abbrev pub or_default : {A : Type 0} → Option A → A → A
or_default none d = d
or_default (some f) d = f

-- The functions that describe a state or an operation are for the web page only and are left out.
unfoldable pub fill_default : {S V : Type 0} ⦃e : GoEq S⦄ → Model S V → Filled S V
fill_default model = record {
  partition = or_default model.partition no_partition;
  partition_event = or_default model.partition_event no_partition_event;
  init = model.init;
  step = model.step;
  equal = or_default model.equal shallow_equal;
}
