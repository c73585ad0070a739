-- ===== src/Mr/Sequential.antt =====
-- Lab 2/src/main/mrsequential.go, over the store and the host of the worker. sort.Sort(ByKey(...))
-- is a parameter.
pub mod Grouping
pub mod Output
mod Tests
use Prim.Native.Char.{code}
use tda596_labs.Base.{
  GoEq-string, ℕ, zero, suc, String, Bool, true, false, Option, none, some, List, [], ◌∷◌, ◌++◌,
  str_eq, ltb, if◌then◌else◌, length,
}
use tda596_labs.Base.Dict.{lookup}
use tda596_labs.Base.Run.{Run, ok, panic, ◌>>=◌, expect}
use tda596_labs.Mr.Worker.{KeyValue, Bytes, Store, Groups, Host, create, output}

-- Go's `<` on strings: the bytes of UTF-8 are in the order of the code points.
unfoldable pub less : String → String → Bool
less String.[] String.[] = false
less String.[] (String.◌∷◌ d t) = true
less (String.◌∷◌ c s) String.[] = false
less (String.◌∷◌ c s) (String.◌∷◌ d t) =
    let rest = less s t in
    if ltb (code c) (code d) then true else if ltb (code d) (code c) then false else rest

-- ByKey.Less
abbrev pub key_less : KeyValue → KeyValue → Bool
key_less a b = less a.key b.key

-- The inner loop: the values up to the first pair with another key, and the pairs from there on.
unfoldable pub same_key : String → List KeyValue → List String × List KeyValue
same_key key [] = ([], [])
same_key key (kv ∷ kva) =
    let (values, rest) = same_key key kva in
    if str_eq kv.key key then (kv.value ∷ values, rest) else ([], kv ∷ kva)

-- The outer loop, on fuel: each round takes a pair at least.
unfoldable pub group : (fuel : ℕ) → List KeyValue → Groups
group zero kva = []
group (suc fuel) [] = []
group (suc fuel) (kv ∷ kva) =
    let (values, rest) = same_key kv.key kva in (kv.key, kv.value ∷ values) ∷ group fuel rest

module _ (h : Host) (sort : List KeyValue → List KeyValue) where
  open h use {map_f, to_string}

  -- The loop over the input files.
  unfoldable pub read_all : List String → Store → Run (List KeyValue)
  read_all [] store = ok []
  read_all (filename ∷ files) store = do
    content ← expect (lookup filename store)
    kva ← read_all files store
    ok (map_f filename (to_string content) ++ kva)

  -- main, less the loading of the plug-in. Without an input file it prints the usage and exits with
  -- status 1. The error of os.Create is not looked at: the writes go to a nil file then and do nothing.
  unfoldable pub sequential : List String → Store → Run Store
  sequential [] store = panic
  sequential (filename ∷ files) store = do
    intermediate ← read_all (filename ∷ files) store
    let sorted = sort intermediate
    elim (create h "mr-out-0" store) [
      | panic ↦ ok store
      | ok created ↦ ok (output h "mr-out-0" (group (length sorted) sorted) created)
    ]
