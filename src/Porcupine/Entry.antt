-- ===== src/Porcupine/Entry.antt =====
-- Lab 2/src/porcupine/checker.go: entries, and how operations and events become entries.
pub mod Numbers
pub mod Renumber
mod Tests
use tda596_labs.Base.{
  GoEq-nat, ℕ, suc, Bool, true, false, ◌&&◌, not, none, some, List, [], ◌∷◌, nat_eq, ltb,
  if◌then◌else◌,
}
use tda596_labs.Base.Dict.{lookup, insert}
use tda596_labs.Porcupine.Model.{Operation, Event, EventKind, call_event, return_event}

pub data EntryKind : Type 0 where
  call_entry : EntryKind
  return_entry : EntryKind

pub record Entry (V : Type 0) : Type 0 where
  pub kind : EntryKind
  pub value : V
  pub id : ℕ
  pub time : ℕ
  pub client_id : ℕ

abbrev pub is_call : EntryKind → Bool
is_call call_entry = true
is_call return_entry = false

abbrev pub kind_of : EventKind → EntryKind
kind_of call_event = call_entry
kind_of return_event = return_entry

module _ {V : Type 0} where
  -- byTime.Less
  unfoldable pub less : Entry V → Entry V → Bool
  less a b =
      if not (nat_eq a.time b.time)
      then ltb a.time b.time
      else is_call a.kind && not (is_call b.kind)

  -- The loop of makeEntries.
  unfoldable pub entries_from : ℕ → List (Operation V) → List (Entry V)
  entries_from id [] = []
  entries_from id (elem ∷ history) =
      record {
        kind = call_entry;
        value = elem.input;
        id = id;
        time = elem.call;
        client_id = elem.client_id;
      }
      ∷ record {
        kind = return_entry;
        value = elem.output;
        id = id;
        time = elem.return;
        client_id = elem.client_id;
      }
      ∷ entries_from (suc id) history

  -- makeEntries; sort.Sort(byTime(...)) is a parameter.
  unfoldable pub make_entries :
      (List (Entry V) → List (Entry V)) → List (Operation V) → List (Entry V)
  make_entries sort history = sort (entries_from 0 history)

  -- The loop of renumber, with its map and the next number.
  unfoldable pub renumber_from : List (ℕ × ℕ) → ℕ → List (Event V) → List (Event V)
  renumber_from m id [] = []
  renumber_from m id (v ∷ events) = elim (lookup v.id m) [
    | some r ↦ record v { id = r } ∷ renumber_from m id events
    | none ↦ record v { id = id } ∷ renumber_from (insert v.id id m) (suc id) events
  ]

  unfoldable pub renumber : List (Event V) → List (Event V)
  renumber events = renumber_from [] 0 events

  -- The loop of convertEntries; the index is the time.
  unfoldable pub convert_from : ℕ → List (Event V) → List (Entry V)
  convert_from i [] = []
  convert_from i (elem ∷ events) =
      record {
        kind = kind_of elem.kind;
        value = elem.value;
        id = elem.id;
        time = i;
        client_id = elem.client_id;
      }
      ∷ convert_from (suc i) events

  unfoldable pub convert_entries : List (Event V) → List (Entry V)
  convert_entries events = convert_from 0 events
