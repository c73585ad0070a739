-- ===== src/Labrpc/Dead.antt =====
-- A server that was deleted from the network of Lab 2/src/labrpc/labrpc.go.
use mathlib.Core.Path.{subst}
use tda596_labs.Base.{
  GoEq, ℕ, false, Option, none, some, List, [], ◌∷◌, ◌≡◌, ◌≢◌, inl, inr, refl, arith, if-elim,
  Option-cases, Bool-cases, equal_self, get_elem?, All, nat_eq, nat_eq_iff, ◌==◌,
}
use tda596_labs.Base.Dict.{lookup, insert, lookup-insert}
use tda596_labs.Base.Run.{ok, expect, Allows, of_Allows, Allows-bind, Allows-all}
use tda596_labs.Labrpc.{ReqMsg, ReplyMsg, no_reply}
use tda596_labs.Labrpc.Server.{dispatch}
use tda596_labs.Labrpc.Network.{
  Network, Change, set_reliable, set_long_reordering, set_long_delays, make_end, add_server,
  delete_server, connect, enable, apply, is_server_dead, same_server, or_nil,
}
use tda596_labs.Labrpc.Request.{
  Job, Phase, arrived, waiting, served, abandoned, replied, World, Event, change, arrive, handle,
  take, poll, finish, handle_request, answer, receive_reply, poll_server, process, process_req,
}

module _ {N : Type 0} ⦃e : GoEq N⦄ where
  -- The event does not give the server its name back.
  abbrev pub Harmless : Job N → Event N → Type 0
  Harmless job (change (add_server name server)) = (name ≡ job.servername) → (server ≢ job.server)
  Harmless job (change _) = Unit
  Harmless job (arrive _) = Unit
  Harmless job handle = Unit
  Harmless job take = Unit
  Harmless job poll = Unit
  Harmless job (finish _) = Unit

  abbrev Gone : Job N → Network N → Type 0
  Gone job rn = same_server (or_nil (lookup job.servername rn.servers)) (some job.server) ≡ false

  apply-Gone :
      (job : Job N) (c : Change N) (rn : Network N)
      → Harmless job (change c)
      → Gone job rn
      → Allows (Gone job) (apply c rn)
  unfolding apply
  apply-Gone job (set_reliable b) rn h g = g
  apply-Gone job (set_long_reordering b) rn h g = g
  apply-Gone job (set_long_delays b) rn h g = g
  apply-Gone job (make_end name) rn h g = elim (Option-cases (lookup name rn.ends)) [
    | inl same ↦ rw (same, apply) g
    | inr (old, same) ↦ rw (same, apply) tt
  ]
  apply-Gone job (add_server name server) rn h g =
      rw (lookup-insert name job.servername (some server) rn.servers)
        (elim (Bool-cases (name == job.servername)) [
          | inl same ↦ rw (same) (elim (Bool-cases (nat_eq server job.server)) [
            | inl equal ↦ absurd (
                h ((e.equal_iff name job.servername).0 same)
                  ((nat_eq_iff server job.server).0 equal))
            | inr other ↦ other
          ])
          | inr other ↦ rw (other) g
        ])
  apply-Gone job (delete_server name) rn h g =
      rw (lookup-insert name job.servername none rn.servers)
        (elim (Bool-cases (name == job.servername)) [
          | inl same ↦ rw (same) refl
          | inr other ↦ rw (other) g
        ])
  apply-Gone job (connect name servername) rn h g = g
  apply-Gone job (enable name b) rn h g = g

  abbrev Fate : Job N → Phase N → Type 0
  Fate job arrived = ⊥
  Fate job (waiting own) = own ≡ job
  Fate job (served own reply) = own ≡ job
  Fate job abandoned = Unit
  Fate job (replied reply) = reply.accepted ≡ false

  record IsDoomed (job : Job N) (w : World N) : Type 0 where
    gone : Gone job w.net
    fate : Fate job w.phase

  module _ (req : ReqMsg N) where
    Fate-at :
        (job : Job N) (phase : Phase N) (w : World N)
        → w.phase ≡ phase
        → IsDoomed job w
        → Fate job phase
    Fate-at job phase w at h = subst (Fate job) at h.fate

    refused :
        (dice : ℕ) (job own : Job N) (reply : ReplyMsg) (rn : Network N)
        → own ≡ job
        → Gone job rn
        → answer req dice own reply rn ≡ no_reply
    unfolding answer is_server_dead
    refused dice job own reply rn same g = rw (same, answer, is_server_dead, g) (ground arith)

    handle_request-IsDoomed :
        (job : Job N) (pending : Option ℕ) (w : World N)
        → IsDoomed job w
        → Allows (IsDoomed job) (handle_request req pending w)
    unfolding handle_request
    handle_request-IsDoomed job none w h = h
    handle_request-IsDoomed job (some server) w h =
        Allows-bind (λ rs. Unit) (IsDoomed job) (expect (get_elem? w.heap server)) _
          (Allows-all (λ rs. Unit) (expect (get_elem? w.heap server)) (λ rs. tt))
          (λ rs h'.
            Allows-bind (λ r. Unit) (IsDoomed job) (dispatch rs req.svc_meth req.args) _
              (Allows-all (λ r. Unit) (dispatch rs req.svc_meth req.args) (λ r. tt))
              (λ (reply, rs') h''. record { gone = h.gone; fate = h.fate }))

    receive_reply-IsDoomed :
        (job own : Job N) (ech : Option ReplyMsg) (w : World N)
        → own ≡ job
        → IsDoomed job w
        → IsDoomed job (receive_reply req ech w own)
    unfolding receive_reply
    receive_reply-IsDoomed job own none w same h = h
    receive_reply-IsDoomed job own (some reply) w same h = record { gone = h.gone; fate = same }

    process-IsDoomed :
        (job : Job N) (event : Event N) (phase : Phase N) (w : World N)
        → w.phase ≡ phase
        → Harmless job event
        → IsDoomed job w
        → Allows (IsDoomed job) (process req event phase w)
    unfolding process poll_server receive_reply
    process-IsDoomed job (change c) phase w at ok_event h =
        Allows-bind (Gone job) (IsDoomed job) (apply c w.net) _
          (apply-Gone job c w.net ok_event h.gone) (λ net g. record { gone = g; fate = h.fate })
    process-IsDoomed job (arrive dice) arrived w at ok_event h = absurd (Fate-at job arrived w at h)
    process-IsDoomed job (arrive dice) (waiting own) w at ok_event h = h
    process-IsDoomed job (arrive dice) (served own reply) w at ok_event h = h
    process-IsDoomed job (arrive dice) abandoned w at ok_event h = h
    process-IsDoomed job (arrive dice) (replied reply) w at ok_event h = h
    process-IsDoomed job handle phase w at ok_event h = handle_request-IsDoomed job w.pending w h
    process-IsDoomed job take arrived w at ok_event h = h
    process-IsDoomed job take (waiting own) w at ok_event h =
        receive_reply-IsDoomed job own w.ech w (Fate-at job (waiting own) w at h) h
    process-IsDoomed job take (served own reply) w at ok_event h = h
    process-IsDoomed job take abandoned w at ok_event h = h
    process-IsDoomed job take (replied reply) w at ok_event h = h
    process-IsDoomed job poll arrived w at ok_event h = h
    process-IsDoomed job poll (waiting own) w at ok_event h =
        let stopped : IsDoomed job (record w { phase = abandoned }) = record {
          gone = h.gone;
          fate = tt;
        } in
        if-elim (IsDoomed job) (is_server_dead req.endname own.servername own.server w.net)
          (λ dead. stopped) (λ alive. h)
    process-IsDoomed job poll (served own reply) w at ok_event h = h
    process-IsDoomed job poll abandoned w at ok_event h = h
    process-IsDoomed job poll (replied reply) w at ok_event h = h
    process-IsDoomed job (finish dice) arrived w at ok_event h = h
    process-IsDoomed job (finish dice) (waiting own) w at ok_event h = h
    process-IsDoomed job (finish dice) (served own reply) w at ok_event h =
        let sent =
          refused dice job own reply w.net (Fate-at job (served own reply) w at h) h.gone in
        rw (sent) (record { gone = h.gone; fate = refl })
    process-IsDoomed job (finish dice) abandoned w at ok_event h = record {
      gone = h.gone;
      fate = refl;
    }
    process-IsDoomed job (finish dice) (replied reply) w at ok_event h = h

    process_req-IsDoomed :
        (job : Job N) (events : List (Event N)) (w : World N)
        → All (Harmless job) events
        → IsDoomed job w
        → Allows (IsDoomed job) (process_req req events w)
    unfolding process_req
    process_req-IsDoomed job [] w all_ok h = h
    process_req-IsDoomed job (event ∷ events) w all_ok h =
        Allows-bind (IsDoomed job) (IsDoomed job) (process req event w.phase w) _
          (process-IsDoomed job event w.phase w refl all_ok.0 h)
          (λ w' h'. process_req-IsDoomed job events w' all_ok.1 h')

    -- Once DeleteServer is called for the server that a request was sent to, while processReq waits
    -- for its handler, the client gets no positive reply, even if the handler runs to its end:
    -- whatever happens next, unless AddServer gives this server its name back.
    pub no_reply_after_delete :
        (job : Job N) (events : List (Event N)) (w : World N) {w' : World N} {reply : ReplyMsg}
        → w.phase ≡ waiting job
        → All (Harmless job) events
        → process_req req (change (delete_server job.servername) ∷ events) w ≡ ok w'
        → w'.phase ≡ replied reply
        → reply.accepted ≡ false
    unfolding process_req process apply
    no_reply_after_delete job events w {w'} {reply} at all_ok e' answered =
        let net' = record w.net { servers = insert job.servername none w.net.servers } in
        let gone : Gone job net' =
          rw
            (
              lookup-insert job.servername job.servername none w.net.servers,
              equal_self job.servername,
            )
            refl in
        let h : IsDoomed job (record w { net = net' }) = record {
          gone = gone;
          fate = rw (at) refl;
        } in
        Fate-at job (replied reply) w' answered
          (of_Allows (IsDoomed job) (process_req-IsDoomed job events _ all_ok h) e')
