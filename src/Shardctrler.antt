-- ===== src/Shardctrler.antt =====
-- The shard controller (Lab 2/src/shardctrler): its messages, and its client.
pub mod Client
pub mod Retry
mod Tests
use tda596_labs.Base.{ℕ, Bool, String, List, Option}

-- Go's int.
pub data ℤ : Type 0 where
  pos : ℕ → ℤ
  negsuc : ℕ → ℤ

-- Go's map from group numbers to their servers.
abbrev pub Groups : Type 0
Groups = List (ℕ × List String)

pub record Config : Type 0 where
  pub num : ℕ
  pub shards : List ℕ
  pub groups : Groups

-- The replies to Join, Leave and Move, which are alike.
pub record Reply : Type 0 where
  pub wrong_leader : Bool
  pub err : String

pub record QueryReply : Type 0 where
  pub wrong_leader : Bool
  pub err : String
  pub config : Config

-- The RPCs, as what srv.Call answers at a server in a state of the world; `none` if it answers false.
pub record Rpc (E W : Type 0) : Type 0 where
  pub query : ℤ → E → W → Option QueryReply × W
  pub join : Groups → E → W → Option Reply × W
  pub leave : List ℕ → E → W → Option Reply × W
  pub move : ℕ → ℕ → E → W → Option Reply × W
  -- time.Sleep: what the others do in the meantime
  pub sleep : W → W
