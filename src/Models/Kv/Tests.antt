-- ===== src/Models/Kv/Tests.antt =====
-- Concrete histories of Lab 2/src/models/kv.go.
use tda596_labs.Base.{ℕ, String, ◌≡◌, ◌≢◌, ◌↔◌, true, List, [], ◌∷◌, map}
use tda596_labs.Base.Run.{ok}
use tda596_labs.Models.Kv.{kv_partition}
use tda596_labs.Models.Kv.Store.{KvOperation, as_operation, with_key, accepts, Serves, accepts_iff}
use tda596_labs.Models.Kv.Partition.{In, IsDistinct, kv_partition_lem}

abbrev operation : ℕ → String → String → String → KvOperation
operation op key value answer = record {
  client_id = 0;
  input = record { op = op; key = key; value = value };
  call = 0;
  output = record { value = answer };
  return = 1;
}

-- Put and append to two keys, and Get.
abbrev some_operations : List KvOperation
some_operations = operation 1 "x" "1" "" ∷ operation 2 "y" "2" "" ∷ operation 0 "x" "" "1" ∷ []

accepts_iff_example :
    Serves (λ k. "") some_operations
    ↔ ((k : String) → accepts "" (with_key k some_operations) ≡ ok true)
accepts_iff_example = accepts_iff (λ k. "") some_operations

kv_partition_lem_example :
    (ks : List String) × (kv_partition (λ ks. ks) (map as_operation some_operations)
      ≡ ok (map (λ k. map as_operation (with_key k some_operations)) ks))
    × IsDistinct ks
    × ((k : String) → In k ks ↔ (with_key k some_operations ≢ []))
kv_partition_lem_example = kv_partition_lem (λ ks. ks) some_operations
