-- ===== src/Models/Kv.antt =====
-- Lab 2/src/models/kv.go. The values of the interface type are inputs and outputs of the store; a type
-- assertion on the wrong one panics. sort.Strings is a parameter. Go ranges over the keys of a map in any
-- order; they are taken in the order in which they came in, and are then sorted.
pub mod Store
pub mod Partition
mod Tests
use Prim.Native.String.{◌++◌ as str_append}
use tda596_labs.Base.{
  GoEq-string, ℕ, String, Bool, true, false, Option, none, some, List, [], ◌∷◌, ◌++◌, map, nat_eq,
  str_eq, if◌then◌else◌,
}
use tda596_labs.Base.Dict.{lookup, insert}
use tda596_labs.Base.Run.{Run, ok, panic, ◌>>=◌}
use tda596_labs.Porcupine.Model.{Operation, Model}

pub record KvInput : Type 0 where
  pub op : ℕ
  pub key : String
  pub value : String

pub record KvOutput : Type 0 where
  pub value : String

pub data KvValue : Type 0 where
  kv_input : KvInput → KvValue
  kv_output : KvOutput → KvValue

abbrev pub as_input : KvValue → Run KvInput
as_input (kv_input inp) = ok inp
as_input (kv_output out) = panic

abbrev pub as_output : KvValue → Run KvOutput
as_output (kv_input inp) = panic
as_output (kv_output out) = ok out

abbrev Operations : Type 0
Operations = List (Operation KvValue)

abbrev pub or_empty : Option Operations → Operations
or_empty none = []
or_empty (some history) = history

-- The first loop of Partition.
unfoldable pub partition_map :
    List (String × Operations) → Operations → Run (List (String × Operations))
partition_map m [] = ok m
partition_map m (v ∷ history) = do
  inp ← as_input v.input
  partition_map (insert inp.key (or_empty (lookup inp.key m) ++ v ∷ []) m) history

unfoldable pub kv_partition : (List String → List String) → Operations → Run (List Operations)
kv_partition sort history = do
  m ← partition_map [] history
  ok (map (λ k. or_empty (lookup k m)) (sort (map (λ e. e.0) m)))

unfoldable pub kv_step : String → KvValue → KvValue → Run (Bool × String)
kv_step state input output = do
  inp ← as_input input
  out ← as_output output
  ok (
      if nat_eq inp.op 0
      then (str_eq out.value state, state)
      else if nat_eq inp.op 1
      then (true, inp.value)
      else (true, str_append state inp.value))

unfoldable pub kv_model : (List String → List String) → Model String KvValue
kv_model sort = record {
  partition = some (kv_partition sort);
  partition_event = none;
  init = "";
  step = kv_step;
  equal = none;
}
