-- ===== src/Shardkv.antt =====
-- The client of the sharded key/value service (Lab 2/src/shardkv/client.go and common.go). A loop without
-- an end is on fuel, and answers `none` when that is used up. What the shard controller's clerk answers
-- to Query(-1), which servers a name stands for and what they reply is given by Rpc, in a state of the
-- world.
pub mod Routing
mod Tests
use Prim.Native.Char.{code}
use tda596_labs.Base.{
  GoEq-nat, ℕ, zero, suc, ◌+◌, ◌/◌, ◌%◌, Bool, true, false, String, Option, none, some, List, [],
  ◌∷◌, str_eq, ltb, if◌then◌else◌, get_elem?, ◌||◌, ◌&&◌,
}
use tda596_labs.Base.Dict.{lookup}
use tda596_labs.Base.Run.{Run, ok, panic, ◌>>=◌, expect}
use tda596_labs.Shardctrler.{Config}

-- The first byte of a character in UTF-8.
abbrev pub first_byte : ℕ → ℕ
first_byte c =
    if ltb c 128
    then c
    else if ltb c 2048
    then 192 + c / 64
    else if ltb c 65536
    then 224 + c / 4096
    else 240 + c / 262144

unfoldable pub key2shard : String → ℕ
key2shard String.[] = 0 % 10
key2shard (String.◌∷◌ c key) = first_byte (code c) % 10

pub record GetReply : Type 0 where
  pub err : String
  pub value : String

pub record PutAppendArgs : Type 0 where
  pub key : String
  pub value : String
  pub op : String

pub record Rpc (W : Type 0) : Type 0 where
  pub get : String → String → W → Option GetReply × W
  pub put_append : PutAppendArgs → String → W → Option String × W
  pub query : W → Option Config × W
  pub sleep : W → W

-- What a round over the servers of a group comes to.
pub data Round (A : Type 0) : Type 0 where
  answered : A → Round A
  gave_up : Round A

-- Whether a reply ends the loop over the servers, with an answer or without one.
pub data Use (A : Type 0) : Type 0 where
  take : A → Use A
  wrong_group : Use A
  next_server : Use A

abbrev pub use_get : Option GetReply → Use String
use_get none = next_server
use_get (some reply) =
    if str_eq reply.err "OK" || str_eq reply.err "ErrNoKey"
    then take reply.value
    else if str_eq reply.err "ErrWrongGroup"
    then wrong_group
    else next_server

abbrev pub use_put_append : Option String → Use Bool
use_put_append none = next_server
use_put_append (some err) =
    if str_eq err "OK"
    then take true
    else if str_eq err "ErrWrongGroup"
    then wrong_group
    else next_server

module _ {W R A : Type 0} (call : String → W → R × W) (use_reply : R → Use A) where
  -- The loop over the servers of the group.
  unfoldable pub try_group : List String → W → Round A × W
  try_group [] w = (gave_up, w)
  try_group (server ∷ servers) w = elim (use_reply (call server w).0) [
    | take a ↦ (answered a, (call server w).1)
    | wrong_group ↦ (gave_up, (call server w).1)
    | next_server ↦ try_group servers (call server w).1
  ]

  -- `if servers, ok := ck.config.Groups[gid]; ok`
  unfoldable pub try_config : String → Config → W → Run (Round A × W)
  try_config key config w = do
    gid ← expect (get_elem? config.shards (key2shard key))
    elim (lookup gid config.groups) [
      | none ↦ ok (gave_up, w)
      | some servers ↦ ok (try_group servers w)
    ]

  module _ (rpc : Rpc W) where
    -- The loop of Get and of PutAppend: the answer, if there is one, the clerk's configuration, and the
    -- state of the world.
    unfoldable pub serve : (fuel : ℕ) → String → Config → W → Run (Option A × (Config × W))
    serve zero key config w = ok (none, (config, w))
    serve (suc fuel) key config w = do
      tried ← try_config key config w
      elim tried.0 [
        | answered a ↦ ok (some a, (config, tried.1))
        | gave_up ↦ elim (rpc.query (rpc.sleep tried.1)).0 [
          | none ↦ ok (none, (config, (rpc.query (rpc.sleep tried.1)).1))
          | some config' ↦ serve fuel key config' (rpc.query (rpc.sleep tried.1)).1
        ]
      ]

module _ {W : Type 0} (rpc : Rpc W) (fuel : ℕ) where
  unfoldable pub get : String → Config → W → Run (Option String × (Config × W))
  get key config w = serve (rpc.get key) use_get rpc fuel key config w

  unfoldable pub put_append :
      String → String → String → Config → W → Run (Option Bool × (Config × W))
  put_append key value op config w =
      serve (rpc.put_append (record { key = key; value = value; op = op })) use_put_append rpc fuel
        key config w

  abbrev pub put : String → String → Config → W → Run (Option Bool × (Config × W))
  put key value config w = put_append key value "Put" config w

  abbrev pub append : String → String → Config → W → Run (Option Bool × (Config × W))
  append key value config w = put_append key value "Append" config w
