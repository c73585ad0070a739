-- ===== src/Shardkv/Tests.antt =====
-- A concrete run of the client of Lab 2/src/shardkv/client.go.
use mathlib.Core.Path.{subst}
use tda596_labs.Base.{
  GoEq-nat, ℕ, ◌≡◌, refl, Bool, String, Option, none, some, [], ◌∷◌, length, replicate, str_eq,
  if◌then◌else◌,
}
use tda596_labs.Base.Dict.{lookup}
use tda596_labs.Base.Run.{ok, Returns}
use tda596_labs.Shardctrler.{Config}
use tda596_labs.Shardkv.{Rpc, key2shard, try_group, try_config, serve, get, put_append}
use tda596_labs.Shardkv.Routing.{IsServedIf, IsGot, IsPut, get-IsServed, put_append-IsServed}

-- One group, 5, holds all shards; its first server is down.
abbrev one_group : Config
one_group = record { num = 1; shards = replicate 10 5; groups = (5, "s0" ∷ "s1" ∷ []) ∷ [] }

abbrev no_groups : Config
no_groups = record { num = 0; shards = replicate 10 0; groups = [] }

abbrev some_service : Rpc ℕ
some_service = record {
  get = λ key server w.
      (if str_eq server "s0" then none else some (record { err = "OK"; value = "v" }), w);
  put_append = λ args server w. (if str_eq server "s0" then none else some "OK", w);
  query = λ w. (some one_group, w);
  sleep = λ w. w;
}

get_run : get some_service 2 "key" no_groups 0 ≡ ok (some "v", (one_group, 0))
unfolding get serve try_config try_group key2shard lookup
get_run = refl

some_eq : {A : Type 0} {x y : A} → some x ≡ some y → x ≡ y
some_eq e = cc

ten : (v : ℕ) (config : Config) → (some_service.query v).0 ≡ some config → length config.shards ≡ 10
ten v config e = subst (λ c. length c.shards ≡ 10) (some_eq e) refl

get-IsServed_example :
    Returns {A = Option String × (Config × ℕ)}
      (λ out. IsServedIf (some_service.get "key") IsGot "key" out.0 out.1.0 out.1.1)
      (get some_service 2 "key" no_groups 0)
get-IsServed_example = get-IsServed some_service 2 "key" no_groups 0 ten refl

put_append-IsServed_example :
    Returns {A = Option Bool × (Config × ℕ)}
      (λ out.
        IsServedIf
          (some_service.put_append (record { key = "key"; value = "v"; op = "Put" }))
          IsPut
          "key"
          out.0
          out.1.0
          out.1.1)
      (put_append some_service 2 "key" "v" "Put" no_groups 0)
put_append-IsServed_example =
    put_append-IsServed some_service 2 "key" "v" "Put" no_groups 0 ten refl
