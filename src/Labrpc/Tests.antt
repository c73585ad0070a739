-- ===== src/Labrpc/Tests.antt =====
-- Concrete runs of Lab 2/src/labrpc/labrpc.go.
use tda596_labs.Base.{
  GoEq-string, GoEq-nat, ℕ, ◌≤◌, String, true, false, none, some, List, [], ◌∷◌, ◌++◌, ◌≡◌, ◌≢◌,
  refl, length, str_eq, str_eq_iff,
}
use tda596_labs.Base.Dict.{lookup, insert}
use tda596_labs.Base.Run.{ok}
use tda596_labs.Labrpc.{ReqMsg, ReplyMsg, no_reply}
use tda596_labs.Labrpc.Server.{
  Method, Service, Server, is_handler, add_methods, make_service, make_server, add_service, split,
  dispatch_method, dispatch,
}
use tda596_labs.Labrpc.Dispatch.{dotted, dispatch_lem}
use tda596_labs.Labrpc.Network.{
  Network, receive, delete_server, make_network, apply, read_endname_info, is_server_dead,
}
use tda596_labs.Labrpc.Request.{
  Job, waiting, replied, World, Event, change, arrive, handle, take, poll, finish, process,
  process_req, start, job_of, begin, handle_request, answer, receive_reply, poll_server,
}
use tda596_labs.Labrpc.Delivery.{positive_reply_ran_once}
use tda596_labs.Labrpc.Dead.{no_reply_after_delete}

abbrev vote : Method
vote = record {
  name = "RequestVote";
  exported = true;
  num_in = 3;
  reply_is_pointer = true;
  num_out = 0;
  call = λ args. 7 ∷ args;
}

abbrev helper : Method
helper = record vote { name = "ticker"; exported = false }

ticker-ne-vote : ◌≢◌ {A = String} "ticker" "RequestVote"
ticker-ne-vote e =
    let same : str_eq "ticker" "RequestVote" ≡ true = (str_eq_iff "ticker" "RequestVote").1 e in
    absurd (cc)

abbrev raft : Service
raft = make_service "Raft" ([] ++ vote ∷ helper ∷ [])

dispatch_lem_example :
    dispatch (add_service raft make_server) "Raft.RequestVote" (1 ∷ [])
    ≡ ok (
      record { accepted = true; reply = 7 ∷ 1 ∷ [] },
      record (add_service raft make_server) { count = 1 },
    )
unfolding dotted is_handler split
dispatch_lem_example =
    dispatch_lem "Raft" [] (helper ∷ []) vote make_server (1 ∷ []) refl refl (ticker-ne-vote, tt)

-- The end 5 is connected to the server 0.
abbrev wired : Network ℕ
wired = record make_network {
  ends = (5, 5) ∷ [];
  enabled = (5, true) ∷ [];
  servers = (0, some 0) ∷ [];
  connections = (5, some 0) ∷ [];
}

abbrev request : ReqMsg ℕ
request = record { endname = 5; svc_meth = "Raft.RequestVote"; args = 1 ∷ [] }

abbrev heap : List Server
heap = add_service raft make_server ∷ []

abbrev good_day : List (Event ℕ)
good_day = arrive 0 ∷ handle ∷ poll ∷ take ∷ finish 0 ∷ []

abbrev seven : ReplyMsg
seven = record { accepted = true; reply = 7 ∷ 1 ∷ [] }

abbrev answered : World ℕ
answered = record {
  net = record wired { count = 1; bytes = 3 };
  heap = record (add_service raft make_server) { count = 1 } ∷ [];
  phase = replied seven;
  pending = none;
  ech = none;
  runs = seven ∷ [];
}

good_day_lem : process_req request good_day (start request wired heap) ≡ ok answered
unfolding process_req process begin job_of read_endname_info handle_request answer receive_reply
    poll_server is_server_dead start receive dispatch dispatch_method add_service make_service
    add_methods is_handler split lookup insert
good_day_lem = refl

positive_reply_ran_once_example :
    (length answered.runs ≤ 1)
    × ((reply : ReplyMsg)
        → answered.phase ≡ replied reply
        → reply.accepted ≡ true
        → answered.runs ≡ reply ∷ [])
positive_reply_ran_once_example = positive_reply_ran_once request wired heap good_day good_day_lem

abbrev job : Job ℕ
job = record { servername = 0; server = 0; is_reliable = true; is_reordering = false }

abbrev in_loop : World ℕ
in_loop = record {
  net = wired;
  heap = heap;
  phase = waiting job;
  pending = some 0;
  ech = none;
  runs = [];
}

abbrev refused : World ℕ
refused = record {
  net = record wired { servers = (0, none) ∷ [] };
  heap = record (add_service raft make_server) { count = 1 } ∷ [];
  phase = replied no_reply;
  pending = none;
  ech = none;
  runs = seven ∷ [];
}

-- The handler runs after the server is deleted.
abbrev bad_day : List (Event ℕ)
bad_day = handle ∷ take ∷ finish 0 ∷ []

bad_day_lem : process_req request (change (delete_server 0) ∷ bad_day) in_loop ≡ ok refused
unfolding process_req process begin job_of read_endname_info handle_request answer receive_reply
    poll_server is_server_dead dispatch dispatch_method add_service make_service add_methods
    is_handler split lookup insert apply
bad_day_lem = refl

no_reply_after_delete_example : no_reply.accepted ≡ false
no_reply_after_delete_example =
    no_reply_after_delete request job bad_day in_loop refl (tt, (tt, (tt, tt))) bad_day_lem refl
