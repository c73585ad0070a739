-- ===== src/Shardctrler/Client.antt =====
-- Lab 2/src/shardctrler/client.go. A loop without an end is on fuel, and answers `none` when that is used
-- up.
use tda596_labs.Base.{ℕ, zero, suc, Bool, true, false, Option, none, some, List, [], ◌∷◌}
use tda596_labs.Shardctrler.{ℤ, Groups, Config, Reply, QueryReply, Rpc}

module _ {E W R : Type 0} (wrong : R → Bool) (call : E → W → Option R × W) where
  -- `for _, srv := range ck.servers`, up to the first reply that is not from a wrong leader.
  unfoldable pub try_servers : List E → W → Option R × W
  try_servers [] w = (none, w)
  try_servers (srv ∷ servers) w = elim (call srv w).0 [
    | none ↦ try_servers servers (call srv w).1
    | some reply ↦ elim (wrong reply) [
      | true ↦ try_servers servers (call srv w).1
      | false ↦ (some reply, (call srv w).1)
    ]
  ]

  module _ (sleep : W → W) where
    -- `for { … time.Sleep(…) }`
    unfoldable pub retry : (fuel : ℕ) → List E → W → Option R × W
    retry zero servers w = (none, w)
    retry (suc fuel) servers w = elim (try_servers servers w).0 [
      | some reply ↦ (some reply, (try_servers servers w).1)
      | none ↦ retry fuel servers (sleep (try_servers servers w).1)
    ]

abbrev pub query_wrong : QueryReply → Bool
query_wrong reply = reply.wrong_leader

abbrev pub reply_wrong : Reply → Bool
reply_wrong reply = reply.wrong_leader

abbrev pub config_of : Option QueryReply → Option Config
config_of none = none
config_of (some reply) = some reply.config

-- Whether a call returns; it has no result.
abbrev pub has_returned : Option Reply → Bool
has_returned none = false
has_returned (some reply) = true

module _ {E W : Type 0} (rpc : Rpc E W) (fuel : ℕ) (servers : List E) where
  unfoldable pub query : ℤ → W → Option Config × W
  query num w =
      let answer = retry query_wrong (rpc.query num) rpc.sleep fuel servers w in
      (config_of answer.0, answer.1)

  unfoldable pub join : Groups → W → Bool × W
  join groups w =
      let answer = retry reply_wrong (rpc.join groups) rpc.sleep fuel servers w in
      (has_returned answer.0, answer.1)

  unfoldable pub leave : List ℕ → W → Bool × W
  leave gids w =
      let answer = retry reply_wrong (rpc.leave gids) rpc.sleep fuel servers w in
      (has_returned answer.0, answer.1)

  unfoldable pub move : ℕ → ℕ → W → Bool × W
  move shard gid w =
      let answer = retry reply_wrong (rpc.move shard gid) rpc.sleep fuel servers w in
      (has_returned answer.0, answer.1)
