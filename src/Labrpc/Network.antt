-- ===== src/Labrpc/Network.antt =====
-- Lab 2/src/labrpc/labrpc.go: Network, its operations and readEndnameInfo and isServerDead. A name is
-- of any type with Go's `==`. A *Server is its index in a heap; `none` is nil.
use tda596_labs.Base.{
  GoEq, ℕ, suc, ◌+◌, ◌%◌, ◌^◌, Bool, true, false, not, ◌||◌, Option, none, some, List, [], nat_eq,
  length,
}
use tda596_labs.Base.Dict.{lookup, insert}
use tda596_labs.Base.Run.{Run, ok, panic}
use tda596_labs.Labrpc.{ReqMsg}

pub record Network (N : Type 0) : Type 0 where
  pub reliable : Bool
  pub long_delays : Bool
  pub long_reordering : Bool
  -- an end is its own name here: its channels are those of the network
  pub ends : List (N × N)
  pub enabled : List (N × Bool)
  pub servers : List (N × Option ℕ)
  pub connections : List (N × Option N)
  -- statistics: an int32 and an int64, as the numbers of their bits
  pub count : ℕ
  pub bytes : ℕ

-- What readEndnameInfo returns.
pub record Info (N : Type 0) : Type 0 where
  pub is_enabled : Bool
  pub servername : Option N
  pub server : Option ℕ
  pub is_reliable : Bool
  pub is_reordering : Bool

module _ {N : Type 0} where
  abbrev pub make_network : Network N
  make_network = record {
    reliable = true;
    long_delays = false;
    long_reordering = false;
    ends = [];
    enabled = [];
    servers = [];
    connections = [];
    count = 0;
    bytes = 0;
  }

module _ {N : Type 0} where
  abbrev pub to_reliable : Bool → Network N → Network N
  to_reliable b rn = record rn { reliable = b }

  abbrev pub to_long_reordering : Bool → Network N → Network N
  to_long_reordering b rn = record rn { long_reordering = b }

  abbrev pub to_long_delays : Bool → Network N → Network N
  to_long_delays b rn = record rn { long_delays = b }

-- A missing key of a Go map reads as false, and as nil.
abbrev pub or_false : Option Bool → Bool
or_false none = false
or_false (some b) = b

abbrev pub or_nil {ℓ} : {A : Type ℓ} → Option (Option A) → Option A
or_nil none = none
or_nil (some a) = a

-- `==` on pointers.
abbrev pub same_server : Option ℕ → Option ℕ → Bool
same_server none none = true
same_server none (some b) = false
same_server (some a) none = false
same_server (some a) (some b) = nat_eq a b

pub data Change (N : Type 0) : Type 0 where
  set_reliable : Bool → Change N
  set_long_reordering : Bool → Change N
  set_long_delays : Bool → Change N
  make_end : N → Change N
  add_server : N → ℕ → Change N
  delete_server : N → Change N
  connect : N → N → Change N
  enable : N → Bool → Change N

module _ {N : Type 0} ⦃e : GoEq N⦄ where
  -- Reliable, LongReordering, LongDelays, MakeEnd, AddServer, DeleteServer, Connect and Enable.
  -- MakeEnd ends in log.Fatal if there is such an end.
  unfoldable pub apply : Change N → Network N → Run (Network N)
  apply (set_reliable b) rn = ok (to_reliable b rn)
  apply (set_long_reordering b) rn = ok (to_long_reordering b rn)
  apply (set_long_delays b) rn = ok (to_long_delays b rn)
  apply (make_end name) rn = elim (lookup name rn.ends) [
    | some old ↦ panic
    | none ↦ ok (record rn {
      ends = insert name name rn.ends;
      enabled = insert name false rn.enabled;
      connections = insert name none rn.connections;
    })
  ]
  apply (add_server name server) rn =
      ok (record rn { servers = insert name (some server) rn.servers })
  apply (delete_server name) rn = ok (record rn { servers = insert name none rn.servers })
  apply (connect name servername) rn =
      ok (record rn { connections = insert name (some servername) rn.connections })
  apply (enable name b) rn = ok (record rn { enabled = insert name b rn.enabled })

  abbrev pub server_of : Option N → Network N → Option ℕ
  server_of none rn = none
  server_of (some name) rn = or_nil (lookup name rn.servers)

  unfoldable pub read_endname_info : N → Network N → Info N
  read_endname_info endname rn =
      let servername = or_nil (lookup endname rn.connections) in
      record {
        is_enabled = or_false (lookup endname rn.enabled);
        servername = servername;
        server = server_of servername rn;
        is_reliable = rn.reliable;
        is_reordering = rn.long_reordering;
      }

  unfoldable pub is_server_dead : N → N → ℕ → Network N → Bool
  is_server_dead endname servername server rn =
      not (or_false (lookup endname rn.enabled))
      || not (same_server (or_nil (lookup servername rn.servers)) (some server))

  -- The counts of the goroutine that takes a request off the channel.
  unfoldable pub receive : ReqMsg N → Network N → Network N
  receive req rn = record rn {
    count = suc rn.count % 2 ^ 32;
    bytes = (rn.bytes + length req.args) % 2 ^ 64;
  }
