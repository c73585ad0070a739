-- ===== src/Mr/Sequential/Tests.antt =====
-- A concrete run of Lab 2/src/main/mrsequential.go.
use mathlib.Core.List.{Permᴰ}
use tda596_labs.Base.{
  GoEq-string, arith, ◌≡◌, ◌≢◌, refl, String, some, List, [], ◌∷◌, if◌then◌else◌,
}
use tda596_labs.Base.Dict.{lookup}
use tda596_labs.Base.Run.{ok}
use tda596_labs.Mr.Worker.{KeyValue, Store, Groups}
use tda596_labs.Mr.Worker.ReduceTask.{lines}
use tda596_labs.Mr.Worker.Sample.{sample, sample-HostLaws}
use tda596_labs.Mr.Sequential.{less, key_less, sequential}
use tda596_labs.Mr.Sequential.Output.{SortLaws, IsThere, IsOutput, emitted, sequential_lem}

-- Insertion sort.
place : KeyValue → List KeyValue → List KeyValue
unfolding less
place kv [] = kv ∷ []
place kv (other ∷ kva) =
    let rest = place kv kva in if key_less other kv then other ∷ rest else kv ∷ other ∷ kva

sort : List KeyValue → List KeyValue
unfolding place
sort [] = []
sort (kv ∷ kva) = place kv (sort kva)

abbrev store : Store
store = ("in1", 121 ∷ 120 ∷ []) ∷ []

in1-IsThere : IsThere sample store "in1"
unfolding lookup
in1-IsThere = (121 ∷ 120 ∷ [], refl)

sort-SortLaws : SortLaws sort (emitted sample ("in1" ∷ []) store)
unfolding sort place less emitted sample lookup
sort-SortLaws = record { sorted = ((refl, tt), (tt, tt)); same_elements = Permᴰ.swap refl refl }

sequential_lem_example :
    (groups : Groups) × (last : Store) × IsOutput sample (emitted sample ("in1" ∷ []) store) groups
    × (sequential sample sort ("in1" ∷ []) store ≡ ok last)
    × (lookup "mr-out-0" last ≡ some (lines sample groups))
    × ((q : String) → q ≢ "mr-out-0" → lookup q last ≡ lookup q store)
sequential_lem_example =
    sequential_lem sample sample-HostLaws sort ("in1" ∷ []) store (omega arith) (in1-IsThere, tt)
      sort-SortLaws
