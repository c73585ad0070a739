-- ===== src/Labrpc/Request.antt =====
-- Lab 2/src/labrpc/labrpc.go: processReq, as steps between which the network may change. Its random
-- numbers are arguments of the steps. A pause is no step.
use tda596_labs.Base.{
  GoEq, GoEq-string, ℕ, ◌+◌, ◌%◌, ◌^◌, Bool, not, ◌&&◌, Option, none, some, List, [], ◌∷◌, ltb,
  if◌then◌else◌, length, get_elem?, set,
}
use tda596_labs.Base.Run.{Run, ok, ◌>>=◌, expect}
use tda596_labs.Labrpc.{ReqMsg, ReplyMsg, no_reply}
use tda596_labs.Labrpc.Server.{Server, dispatch}
use tda596_labs.Labrpc.Network.{
  Network, Info, Change, apply, receive, read_endname_info, is_server_dead,
}

-- The variables of processReq once it has a server.
pub record Job (N : Type 0) : Type 0 where
  pub servername : N
  pub server : ℕ
  pub is_reliable : Bool
  pub is_reordering : Bool

pub data Phase (N : Type 0) : Type 0 where
  arrived : Phase N
  -- in the loop that waits for the handler
  waiting : Job N → Phase N
  -- the loop has ended with replyOK, or with serverDead
  served : Job N → ReplyMsg → Phase N
  abandoned : Phase N
  -- what was sent to req.replyCh
  replied : ReplyMsg → Phase N

pub record World (N : Type 0) : Type 0 where
  pub net : Network N
  pub heap : List Server
  pub phase : Phase N
  -- the goroutine that runs server.dispatch is still to do so
  pub pending : Option ℕ
  -- what it has put into ech
  pub ech : Option ReplyMsg
  -- the results of the calls of server.dispatch for this request, the last one first
  pub runs : List ReplyMsg

pub data Event (N : Type 0) : Type 0 where
  -- another call changes the network
  change : Change N → Event N
  -- up to the loop, with rand.Int()
  arrive : ℕ → Event N
  -- the goroutine runs server.dispatch
  handle : Event N
  -- the loop's select takes from ech, or from time.After
  take : Event N
  poll : Event N
  -- what follows the loop, with rand.Int()
  finish : ℕ → Event N

-- `(rand.Int()%1000) < 100`
abbrev pub unlucky : ℕ → Bool
unlucky dice = ltb (dice % 1000) 100

module _ {N : Type 0} ⦃e : GoEq N⦄ (req : ReqMsg N) where
  -- The job, where the end is enabled and connected to a server.
  unfoldable pub job_of : Info N → Option (Job N)
  job_of info =
      if info.is_enabled
      then (elim info.servername [
        | none ↦ none
        | some servername ↦ elim info.server [
          | none ↦ none
          | some server ↦ some (record {
            servername = servername;
            server = server;
            is_reliable = info.is_reliable;
            is_reordering = info.is_reordering;
          })
        ]
      ])
      else none

  unfoldable pub begin : ℕ → World N → World N
  begin dice w = elim (job_of (read_endname_info req.endname w.net)) [
    | none ↦ record w { phase = replied no_reply }
    | some job ↦
        if not job.is_reliable && unlucky dice
        then record w { phase = replied no_reply }
        else record w { phase = waiting job; pending = some job.server }
  ]

  -- `r := server.dispatch(req); ech <- r`, if it has not run yet.
  unfoldable pub handle_request : Option ℕ → World N → Run (World N)
  handle_request none w = ok w
  handle_request (some server) w = do
    rs ← expect (get_elem? w.heap server)
    (reply, rs') ← dispatch rs req.svc_meth req.args
    ok (record w {
      heap = set w.heap server rs';
      pending = none;
      ech = some reply;
      runs = reply ∷ w.runs;
    })

  -- The answer to the client, and the bytes that are counted for it.
  unfoldable pub answer : ℕ → Job N → ReplyMsg → Network N → ReplyMsg
  answer dice job reply rn =
      if is_server_dead req.endname job.servername job.server rn
      then no_reply
      else if not job.is_reliable && unlucky dice
      then no_reply
      else reply

  abbrev pub count_bytes : ReplyMsg → Network N → Network N
  count_bytes reply rn =
      if reply.accepted then record rn { bytes = (rn.bytes + length reply.reply) % 2 ^ 64 } else rn

  unfoldable pub receive_reply : Option ReplyMsg → World N → Job N → World N
  receive_reply none w job = w
  receive_reply (some reply) w job = record w { phase = served job reply; ech = none }

  unfoldable pub poll_server : World N → Job N → World N
  poll_server w job =
      if is_server_dead req.endname job.servername job.server w.net
      then record w { phase = abandoned }
      else w

  -- An event that does not belong to the phase changes nothing.
  unfoldable pub process : Event N → Phase N → World N → Run (World N)
  process (change c) phase w = apply c w.net >>= λ net. ok (record w { net = net })
  process (arrive dice) arrived w = ok (begin dice w)
  process (arrive dice) (waiting job) w = ok w
  process (arrive dice) (served job reply) w = ok w
  process (arrive dice) abandoned w = ok w
  process (arrive dice) (replied reply) w = ok w
  process handle phase w = handle_request w.pending w
  process take arrived w = ok w
  process take (waiting job) w = ok (receive_reply w.ech w job)
  process take (served job reply) w = ok w
  process take abandoned w = ok w
  process take (replied reply) w = ok w
  process poll arrived w = ok w
  process poll (waiting job) w = ok (poll_server w job)
  process poll (served job reply) w = ok w
  process poll abandoned w = ok w
  process poll (replied reply) w = ok w
  process (finish dice) arrived w = ok w
  process (finish dice) (waiting job) w = ok w
  process (finish dice) (served job reply) w =
      let sent = answer dice job reply w.net in
      ok (record w { phase = replied sent; net = count_bytes sent w.net })
  process (finish dice) abandoned w = ok (record w { phase = replied no_reply })
  process (finish dice) (replied reply) w = ok w

  unfoldable pub process_req : List (Event N) → World N → Run (World N)
  process_req [] w = ok w
  process_req (event ∷ events) w = process event w.phase w >>= process_req events

  -- The request has come off the channel and is counted.
  unfoldable pub start : Network N → List Server → World N
  unfolding receive
  start net heap = record {
    net = receive req net;
    heap = heap;
    phase = arrived;
    pending = none;
    ech = none;
    runs = [];
  }
