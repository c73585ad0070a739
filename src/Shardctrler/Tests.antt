-- ===== src/Shardctrler/Tests.antt =====
-- A concrete run of the client of Lab 2/src/shardctrler/client.go.
use tda596_labs.Base.{
  ℕ, ◌≡◌, refl, inl, inr, true, false, none, some, List, [], ◌∷◌, nat_eq, if◌then◌else◌, ◌+◌,
}
use tda596_labs.Shardctrler.{negsuc, Config, Reply, QueryReply, Rpc}
use tda596_labs.Shardctrler.Client.{
  try_servers, retry, query, join, leave, move, query_wrong, reply_wrong,
}
use tda596_labs.Shardctrler.Retry.{IsAccepted, query_lem, query_ends, join_lem, leave_lem, move_lem}

abbrev latest : Config
latest = record { num = 3; shards = []; groups = [] }

abbrev accepted : Reply
accepted = record { wrong_leader = false; err = "OK" }

-- Server 0 is never reached, and server 1 is the leader. The state counts the calls.
abbrev two_servers : Rpc ℕ ℕ
two_servers = record {
  query = λ num srv w. (
    if nat_eq srv 0
        then none
        else some (record { wrong_leader = false; err = "OK"; config = latest }),
    w + 1,
  );
  join = λ groups srv w. (if nat_eq srv 0 then none else some accepted, w + 1);
  leave = λ gids srv w. (if nat_eq srv 0 then none else some accepted, w + 1);
  move = λ shard gid srv w. (if nat_eq srv 0 then none else some accepted, w + 1);
  sleep = λ w. w;
}

abbrev servers : List ℕ
servers = 0 ∷ 1 ∷ []

query_run : query two_servers 1 servers (negsuc 0) 0 ≡ (some latest, 2)
unfolding query retry try_servers
query_run = refl

join_run : join two_servers 1 servers [] 0 ≡ (true, 2)
unfolding join retry try_servers
join_run = refl

leave_run : leave two_servers 1 servers [] 0 ≡ (true, 2)
unfolding leave retry try_servers
leave_run = refl

move_run : move two_servers 1 servers 4 7 0 ≡ (true, 2)
unfolding move retry try_servers
move_run = refl

query_lem_example :
    (reply : QueryReply) × IsAccepted query_wrong
      (two_servers.query (negsuc 0))
      two_servers.sleep
      servers
      0
      reply
      2
    × (reply.config ≡ latest)
query_lem_example = query_lem two_servers servers 1 (negsuc 0) 0 2 latest query_run

query_ends_example :
    (config : Config) × ((query two_servers 1 servers (negsuc 0) 0).0 ≡ some config)
query_ends_example =
    query_ends two_servers servers 0 (negsuc 0) 0 1 (inr (inl refl))
      (λ v. (record { wrong_leader = false; err = "OK"; config = latest }, refl, refl))

join_lem_example :
    (reply : Reply) × IsAccepted reply_wrong
      (two_servers.join [])
      two_servers.sleep
      servers
      0
      reply
      2
join_lem_example = join_lem two_servers servers 1 [] 0 2 join_run

leave_lem_example :
    (reply : Reply) × IsAccepted reply_wrong
      (two_servers.leave [])
      two_servers.sleep
      servers
      0
      reply
      2
leave_lem_example = leave_lem two_servers servers 1 [] 0 2 leave_run

move_lem_example :
    (reply : Reply) × IsAccepted reply_wrong
      (two_servers.move 4 7)
      two_servers.sleep
      servers
      0
      reply
      2
move_lem_example = move_lem two_servers servers 1 4 7 0 2 move_run
