-- ===== src/Mr/Worker/Laws.antt =====
-- What worker.go relies on in the packages that it calls, and the words in which its results are
-- described.
use mathlib.Core.List.{Permᴰ}
use tda596_labs.Base.{
  Option, All, ℕ, ◌%◌, ◌<◌, ◌≡◌, ◌≢◌, String, true, none, some, List, [], ◌∷◌, ◌++◌, nat_eq, str_eq,
  if◌then◌else◌, length,
}
use tda596_labs.Mr.Worker.{KeyValue, Bytes, Groups, Host, ihash}

-- Documented behaviour of encoding/json (a decoder reads back what an encoder wrote, and reports
-- io.EOF at the end), of fmt's verb %d (different numbers print differently) and of a range over a map
-- (it visits each entry once, in any order), and a file system in which every os.Create and every
-- write succeeds.
pub record HostLaws (h : Host) : Type 0 where
  pub decode-encode :
      (kv : KeyValue) (rest : Bytes) → h.decode (h.encode kv ++ rest) ≡ some (kv, rest)
  pub decode-nil : h.decode [] ≡ none
  pub encode_pos : (kv : KeyValue) → 0 < length (h.encode kv)
  pub intermediate_name_inj :
      (i j k l : ℕ) → h.intermediate_name i j ≡ h.intermediate_name k l → (i ≡ k) × (j ≡ l)
  pub output_name_inj : (i j : ℕ) → h.output_name i ≡ h.output_name j → i ≡ j
  pub output-ne-intermediate : (i j k : ℕ) → h.output_name i ≢ h.intermediate_name j k
  pub created : (name : String) → h.can_create name ≡ true
  pub written : (name : String) → h.can_write name ≡ true
  pub visits-Perm : (groups : Groups) → Permᴰ groups (h.range_order groups)

module _ (h : Host) where
  -- The pairs that belong to bucket `b` of `n`, in order.
  unfoldable pub bucket : (n b : ℕ) → List KeyValue → List KeyValue
  bucket n b [] = []
  bucket n b (kv ∷ kva) =
      if nat_eq (ihash h kv.key % n) b then kv ∷ bucket n b kva else bucket n b kva

  -- The bytes of a file that holds these pairs.
  unfoldable pub encode_all : List KeyValue → Bytes
  encode_all [] = []
  encode_all (kv ∷ kva) = h.encode kv ++ encode_all kva

-- The values that the pairs give to a key, in order.
unfoldable pub values_of : String → List KeyValue → List String
values_of k [] = []
values_of k (kv ∷ kva) = if str_eq kv.key k then kv.value ∷ values_of k kva else values_of k kva

-- A key without values has no group.
abbrev pub some_values : List String → Option (List String)
some_values [] = none
some_values (v ∷ vs) = some (v ∷ vs)

-- No group has this key.
abbrev pub Without : String → Groups → Type 0
Without key = All (λ g. g.0 ≢ key)

-- Each key has one group.
abbrev pub IsOnce : Groups → Type 0
IsOnce [] = Unit
IsOnce ((key, values) ∷ groups) = Without key groups × IsOnce groups
