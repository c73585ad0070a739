-- ===== src/Porcupine/Entry/Tests.antt =====
-- Concrete events of Lab 2/src/porcupine/checker.go.
use tda596_labs.Base.{GoEq-nat, ℕ, ◌≡◌, ◌↔◌, refl, List, [], ◌∷◌, All}
use tda596_labs.Base.Dict.{lookup, insert}
use tda596_labs.Porcupine.Model.{Event, EventKind, call_event, return_event}
use tda596_labs.Porcupine.Entry.{renumber_from, renumber}
use tda596_labs.Porcupine.Entry.Renumber.{with_ids, renumber_lem}

abbrev event : EventKind → ℕ → Event ℕ
event kind id = record { client_id = 0; kind = kind; value = 4; id = id }

abbrev some_events : List (Event ℕ)
some_events =
    event call_event 7 ∷ event call_event 9 ∷ event return_event 7 ∷ event return_event 9 ∷ []

renumber_run :
    renumber some_events
    ≡ event call_event 0 ∷ event call_event 1 ∷ event return_event 0 ∷ event return_event 1 ∷ []
unfolding renumber renumber_from lookup insert
renumber_run = refl

renumber_lem_example :
    (f : ℕ → ℕ) × (renumber some_events ≡ with_ids f some_events)
    × All (λ v. All (λ w. (f v.id ≡ f w.id) ↔ (v.id ≡ w.id)) some_events) some_events
renumber_lem_example = renumber_lem some_events
