-- ===== src/Labrpc/Delivery.antt =====
-- What a client learns from an answer of Lab 2/src/labrpc/labrpc.go, whatever happens to the network
-- while its request is under way.
use mathlib.Core.Path.{subst}
use tda596_labs.Base.{
  GoEq, ℕ, ◌≤◌, true, false, not, ◌&&◌, Option, none, some, List, [], ◌∷◌, ◌≡◌, ◌⊎◌, inl, inr, refl,
  ap, arith, length, if-elim, Option-cases, get_elem?,
}
use tda596_labs.Base.Run.{ok, expect, Allows, of_Allows, Allows-bind, Allows-all}
use tda596_labs.Labrpc.{ReqMsg, ReplyMsg, no_reply}
use tda596_labs.Labrpc.Server.{Server, dispatch}
use tda596_labs.Labrpc.Network.{Network, apply, read_endname_info, is_server_dead}
use tda596_labs.Labrpc.Request.{
  Job, Phase, arrived, waiting, served, abandoned, replied, World, Event, change, arrive, handle,
  take, poll, finish, job_of, begin, handle_request, answer, unlucky, receive_reply, poll_server,
  process, process_req, start,
}

-- The handler is still to run, or it has run at most once.
abbrev Once : Option ℕ → List ReplyMsg → Type 0
Once pending runs =
    ((server : ℕ) × (pending ≡ some server) × (runs ≡ [])) ⊎ ((pending ≡ none) × (length runs ≤ 1))

abbrev Ran : ReplyMsg → Option ℕ → List ReplyMsg → Type 0
Ran reply pending runs = (pending ≡ none) × (runs ≡ reply ∷ [])

abbrev Fact : {N : Type 0} → Phase N → Option ℕ → Option ReplyMsg → List ReplyMsg → Type 0
Fact arrived pending ech runs = (pending ≡ none) × (runs ≡ []) × (ech ≡ none)
Fact (waiting job) pending ech runs = (reply : ReplyMsg) → ech ≡ some reply → Ran reply pending runs
Fact (served job reply) pending ech runs = Ran reply pending runs
Fact abandoned pending ech runs = Unit
Fact (replied reply) pending ech runs = reply.accepted ≡ true → Ran reply pending runs

some_eq : {p q : ReplyMsg} → some p ≡ some q → p ≡ q
some_eq e = cc

not_accepted : false ≡ true → ⊥
not_accepted e = absurd (cc)

module _ {N : Type 0} ⦃e : GoEq N⦄ (req : ReqMsg N) where
  pub record IsTracked (w : World N) : Type 0 where
    pub once : Once w.pending w.runs
    pub fact : Fact w.phase w.pending w.ech w.runs

  -- What is known of a world in this phase.
  Fact-at :
      (phase : Phase N) (w : World N)
      → w.phase ≡ phase
      → IsTracked w
      → Fact phase w.pending w.ech w.runs
  Fact-at phase w at h = subst (λ q. Fact q w.pending w.ech w.runs) at h.fact

  begin-IsTracked :
      (dice : ℕ) (w : World N) → w.phase ≡ arrived → IsTracked w → IsTracked (begin req dice w)
  unfolding begin
  begin-IsTracked dice w at h =
      let (no_job, no_run, no_ech) = Fact-at arrived w at h in
      let refused : IsTracked (record w { phase = replied no_reply }) = record {
        once = h.once;
        fact = λ accepted. absurd (not_accepted accepted);
      } in
      elim (Option-cases (job_of req (read_endname_info req.endname w.net))) [
        | inl e ↦ rw (e, begin) refused
        | inr (job, e) ↦
            rw (e, begin)
              (let ready : IsTracked (record w { phase = waiting job; pending = some job.server }) =
                  record {
                    once = inl (job.server, refl, no_run);
                    fact = λ reply same. absurd (cc);
                  } in
                if-elim IsTracked (not job.is_reliable && unlucky dice) (λ lost. refused)
                  (λ kept. ready))
      ]

  ran-Fact :
      (phase : Phase N) (server : ℕ) (reply : ReplyMsg) (ech : Option ReplyMsg)
      → Fact phase (some server) ech []
      → Fact phase none (some reply) (reply ∷ [])
  ran-Fact arrived server reply ech (f, g, h) = absurd (cc)
  ran-Fact (waiting job) server reply ech f = λ r same. (refl, ap (λ q. q ∷ []) (some_eq same))
  ran-Fact (served job r) server reply ech (f, g) = absurd (cc)
  ran-Fact abandoned server reply ech f = tt
  ran-Fact (replied r) server reply ech f = λ accepted. let (g, h) = f accepted in absurd (cc)

  ran-IsTracked :
      (w : World N) (server : ℕ) (heap : List Server) (reply : ReplyMsg)
      → w.pending ≡ some server
      → IsTracked w
      → IsTracked
          (record w { heap = heap; pending = none; ech = some reply; runs = reply ∷ w.runs })
  ran-IsTracked w server heap reply at h = elim h.once [
    | inl (own, busy, none_yet) ↦ record {
      once = inr (refl, omega (arith, ap length none_yet));
      fact = rw (none_yet) (ran-Fact w.phase server reply w.ech (rw (at, none_yet) at h.fact));
    }
    | inr (done, few) ↦ absurd (cc)
  ]

  handle_request-IsTracked :
      (pending : Option ℕ) (w : World N)
      → w.pending ≡ pending
      → IsTracked w
      → Allows IsTracked (handle_request req pending w)
  unfolding handle_request
  handle_request-IsTracked none w at h = h
  handle_request-IsTracked (some server) w at h =
      Allows-bind (λ rs. Unit) IsTracked (expect (get_elem? w.heap server)) _
        (Allows-all (λ rs. Unit) (expect (get_elem? w.heap server)) (λ rs. tt))
        (λ rs h'.
          Allows-bind (λ r. Unit) IsTracked (dispatch rs req.svc_meth req.args) _
            (Allows-all (λ r. Unit) (dispatch rs req.svc_meth req.args) (λ r. tt))
            (λ (reply, rs') h''. ran-IsTracked w server _ reply at h))

  receive_reply-IsTracked :
      (ech : Option ReplyMsg) (w : World N) (job : Job N)
      → w.ech ≡ ech
      → w.phase ≡ waiting job
      → IsTracked w
      → IsTracked (receive_reply req ech w job)
  unfolding receive_reply
  receive_reply-IsTracked none w job there at h = h
  receive_reply-IsTracked (some reply) w job there at h = record {
    once = h.once;
    fact = Fact-at (waiting job) w at h reply there;
  }

  answer-accepted :
      (dice : ℕ) (job : Job N) (reply : ReplyMsg) (w : World N)
      → (answer req dice job reply w.net).accepted ≡ true
      → answer req dice job reply w.net ≡ reply
  unfolding answer
  answer-accepted dice job reply w accepted = ground arith

  process-IsTracked :
      (event : Event N) (phase : Phase N) (w : World N)
      → w.phase ≡ phase
      → IsTracked w
      → Allows IsTracked (process req event phase w)
  unfolding process poll_server
  process-IsTracked (change c) phase w at h =
      Allows-bind (λ net. Unit) IsTracked (apply c w.net) _
        (Allows-all (λ net. Unit) (apply c w.net) (λ net. tt))
        (λ net h'. record { once = h.once; fact = h.fact })
  process-IsTracked (arrive dice) arrived w at h = begin-IsTracked dice w at h
  process-IsTracked (arrive dice) (waiting job) w at h = h
  process-IsTracked (arrive dice) (served job reply) w at h = h
  process-IsTracked (arrive dice) abandoned w at h = h
  process-IsTracked (arrive dice) (replied reply) w at h = h
  process-IsTracked handle phase w at h = handle_request-IsTracked w.pending w refl h
  process-IsTracked take arrived w at h = h
  process-IsTracked take (waiting job) w at h = receive_reply-IsTracked w.ech w job refl at h
  process-IsTracked take (served job reply) w at h = h
  process-IsTracked take abandoned w at h = h
  process-IsTracked take (replied reply) w at h = h
  process-IsTracked poll arrived w at h = h
  process-IsTracked poll (waiting job) w at h =
      let stopped : IsTracked (record w { phase = abandoned }) = record {
        once = h.once;
        fact = tt;
      } in
      if-elim IsTracked (is_server_dead req.endname job.servername job.server w.net)
        (λ dead. stopped) (λ alive. h)
  process-IsTracked poll (served job reply) w at h = h
  process-IsTracked poll abandoned w at h = h
  process-IsTracked poll (replied reply) w at h = h
  process-IsTracked (finish dice) arrived w at h = h
  process-IsTracked (finish dice) (waiting job) w at h = h
  process-IsTracked (finish dice) (served job reply) w at h = record {
    once = h.once;
    fact = λ accepted.
        let same = answer-accepted dice job reply w accepted in
        rw (same) (Fact-at (served job reply) w at h);
  }
  process-IsTracked (finish dice) abandoned w at h = record {
    once = h.once;
    fact = λ accepted. absurd (not_accepted accepted);
  }
  process-IsTracked (finish dice) (replied reply) w at h = h

  process_req-IsTracked :
      (events : List (Event N)) (w : World N)
      → IsTracked w
      → Allows IsTracked (process_req req events w)
  unfolding process_req
  process_req-IsTracked [] w h = h
  process_req-IsTracked (event ∷ events) w h =
      Allows-bind IsTracked IsTracked (process req event w.phase w) _
        (process-IsTracked event w.phase w refl h) (process_req-IsTracked events)

  few_runs : {pending : Option ℕ} {runs : List ReplyMsg} → Once pending runs → length runs ≤ 1
  few_runs (inl (server, busy, none_yet)) = omega (arith, ap length none_yet)
  few_runs (inr (done, few)) = few

  -- Whatever happens to the network while a request is under way, its handler runs at most once, and
  -- a client that is sent a positive reply is sent what that run has answered.
  pub positive_reply_ran_once :
      (net : Network N) (heap : List Server) (events : List (Event N)) {w : World N}
      → process_req req events (start req net heap) ≡ ok w
      → (length w.runs ≤ 1)
        × ((reply : ReplyMsg)
            → w.phase ≡ replied reply
            → reply.accepted ≡ true
            → w.runs ≡ reply ∷ [])
  unfolding start
  positive_reply_ran_once net heap events {w} e =
      let h : IsTracked w =
        of_Allows IsTracked
          (process_req-IsTracked events (start req net heap)
            (record { once = inr (refl, omega arith); fact = (refl, refl, refl) }))
          e in
      (few_runs h.once, λ reply at accepted. (Fact-at (replied reply) w at h accepted).1)
