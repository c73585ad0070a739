-- ===== src/Shardctrler/Retry.antt =====
-- The retry loops of Lab 2/src/shardctrler/client.go.
use mathlib.Core.Path.{subst}
use tda596_labs.Base.{
  ℕ, zero, suc, ◌≡◌, refl, ap, ◌⊎◌, inl, inr, Bool, true, false, Option, none, some, List, [], ◌∷◌,
  Bool-cases, Option-cases,
}
use tda596_labs.Shardctrler.{ℤ, Groups, Config, Reply, QueryReply, Rpc}
use tda596_labs.Shardctrler.Client.{
  try_servers, retry, query, join, leave, move, config_of, has_returned, query_wrong, reply_wrong,
}

some_eq : {A : Type 0} {x y : A} → some x ≡ some y → x ≡ y
some_eq e = cc

abbrev pub In : {E : Type 0} → E → List E → Type 0
In srv [] = ⊥
In srv (s ∷ servers) = (srv ≡ s) ⊎ In srv servers

module _ {E W R : Type 0} (wrong : R → Bool) (call : E → W → Option R × W) (sleep : W → W)
    (servers : List E) where
  -- What may happen before the reply that counts: calls of the servers that are lost or reach a wrong
  -- leader, and sleeping.
  pub data Retried : W → W → Type 0 where
    start : {w : W} → Retried w w
    lost :
        {w v : W} (srv : E)
        → In srv servers
        → (call srv v).0 ≡ none
        → Retried w v
        → Retried w (call srv v).1
    refused :
        {w v : W} (srv : E) (reply : R)
        → In srv servers
        → (call srv v).0 ≡ some reply
        → wrong reply ≡ true
        → Retried w v
        → Retried w (call srv v).1
    slept : {w v : W} → Retried w v → Retried w (sleep v)

  -- The reply came from one of the servers, and all calls before were lost or refused.
  pub record IsAccepted (w : W) (reply : R) (w' : W) : Type 0 where
    pub srv : E
    pub before : W
    pub known : In srv servers
    pub retried : Retried w before
    pub replied : call srv before ≡ (some reply, w')
    pub right : wrong reply ≡ false

  abbrev Outcome : W → Option R → W → Type 0
  Outcome w none w' = Retried w w'
  Outcome w (some reply) w' = IsAccepted w reply w'

  abbrev IsPart : List E → Type 0
  IsPart part = (srv : E) → In srv part → In srv servers

  try_servers-Outcome :
      (part : List E) (w v : W)
      → IsPart part
      → Retried w v
      → Outcome w (try_servers wrong call part v).0 (try_servers wrong call part v).1
  unfolding try_servers
  try_servers-Outcome [] w v known h = h
  try_servers-Outcome (srv ∷ part) w v known h = elim (Option-cases (call srv v).0) [
    | inl gone ↦
        rw (gone, try_servers)
          (try_servers-Outcome part w (call srv v).1 (λ s i. known s (inr i))
            (lost srv (known srv (inl refl)) gone h))
    | inr (reply, there) ↦ elim (Bool-cases (wrong reply)) [
      | inl is_wrong ↦
          rw (there, try_servers, is_wrong)
            (try_servers-Outcome part w (call srv v).1 (λ s i. known s (inr i))
              (refused srv reply (known srv (inl refl)) there is_wrong h))
      | inr right ↦
          rw (there, try_servers, right)
            (record {
              srv = srv;
              before = v;
              known = known srv (inl refl);
              retried = h;
              replied = λ k. (there k, (call srv v).1);
              right = right;
            })
    ]
  ]

  pub retry-Outcome :
      (fuel : ℕ) (w v : W)
      → Retried w v
      → Outcome w
          (retry wrong call sleep fuel servers v).0
          (retry wrong call sleep fuel servers v).1
  unfolding retry
  retry-Outcome zero w v h = h
  retry-Outcome (suc fuel) w v h =
      let tried = try_servers-Outcome servers w v (λ s i. i) h in
      elim (Option-cases (try_servers wrong call servers v).0) [
        | inl none_yet ↦
            rw (none_yet, retry)
              (retry-Outcome fuel w (sleep (try_servers wrong call servers v).1) (
                slept
                  (subst (λ o. Outcome w o (try_servers wrong call servers v).1) none_yet tried)))
        | inr (reply, there) ↦
            rw (there, retry)
              (subst (λ o. Outcome w o (try_servers wrong call servers v).1) there tried)
      ]

  -- A server that always gives a reply that counts.
  abbrev IsLeader : E → Type 0
  IsLeader srv = (w : W) → (reply : R) × ((call srv w).0 ≡ some reply) × (wrong reply ≡ false)

  try_servers_ends :
      (part : List E) (srv : E) (w : W)
      → In srv part
      → IsLeader srv
      → (reply : R) × ((try_servers wrong call part w).0 ≡ some reply)
  unfolding try_servers
  try_servers_ends [] srv w i leads = absurd i
  try_servers_ends (s ∷ part) srv w i leads = elim (Option-cases (call s w).0) [
    | inl gone ↦
        let (reply, ends) = try_servers_ends part srv (call s w).1 (later i gone) leads in
        (reply, rw (gone, try_servers) ends)
    | inr (reply, there) ↦ elim (Bool-cases (wrong reply)) [
      | inl is_wrong ↦
          let (last, ends) =
            try_servers_ends part srv (call s w).1 (later_wrong i reply there is_wrong) leads in
          (last, rw (there, try_servers, is_wrong) ends)
      | inr right ↦ (reply, rw (there, try_servers, right) refl)
    ]
  ]
    where
      later : (srv ≡ s) ⊎ In srv part → (call s w).0 ≡ none → In srv part
      later (inr j) gone = j
      later (inl same) gone =
          let (reply, there, right) = leads w in
          let there' : (call s w).0 ≡ some reply =
            subst (λ q. (call q w).0 ≡ some reply) same there in
          absurd (cc)

      later_wrong :
          (srv ≡ s) ⊎ In srv part
          → (reply : R) → (call s w).0 ≡ some reply
          → wrong reply ≡ true
          → In srv part
      later_wrong (inr j) reply at is_wrong = j
      later_wrong (inl same) reply at is_wrong =
          let (own, there, right) = leads w in
          let there' : (call s w).0 ≡ some own = subst (λ q. (call q w).0 ≡ some own) same there in
          absurd (cc)

  pub retry_ends :
      (fuel : ℕ) (srv : E) (w : W)
      → In srv servers
      → IsLeader srv
      → (reply : R) × ((retry wrong call sleep (suc fuel) servers w).0 ≡ some reply)
  unfolding retry
  retry_ends fuel srv w i leads =
      let (reply, ends) = try_servers_ends servers srv w i leads in (reply, rw (retry, ends) refl)

module _ {E W : Type 0} (rpc : Rpc E W) (servers : List E) where
  -- Query returns a configuration only if one of the clerk's servers has replied with it to Query of this
  -- number and was no wrong leader. It returns at once then; all calls before were lost or refused.
  pub query_lem :
      (fuel : ℕ) (num : ℤ) (w w' : W) (config : Config)
      → query rpc fuel servers num w ≡ (some config, w')
      → (reply : QueryReply) × IsAccepted query_wrong (rpc.query num) rpc.sleep servers w reply w'
        × (reply.config ≡ config)
  unfolding query
  query_lem fuel num w w' config e =
      let out = retry query_wrong (rpc.query num) rpc.sleep fuel servers w in
      accepted out.0 out.1
        (retry-Outcome query_wrong (rpc.query num) rpc.sleep servers fuel w w Retried.start)
        (ap (λ q. q.0) e) (ap (λ q. q.1) e)
    where
      accepted :
          (o : Option QueryReply) (v : W)
          → Outcome query_wrong (rpc.query num) rpc.sleep servers w o v
          → config_of o ≡ some config
          → v ≡ w'
          → (reply : QueryReply) × IsAccepted query_wrong
              (rpc.query num)
              rpc.sleep
              servers
              w
              reply
              w'
            × (reply.config ≡ config)
      accepted none v h same there = absurd (cc)
      accepted (some reply) v h same there = (
        reply,
        subst (IsAccepted query_wrong (rpc.query num) rpc.sleep servers w reply) there h,
        some_eq same,
      )

  -- Query returns if one of the clerk's servers always replies to Query of this number and is no wrong leader.
  pub query_ends :
      (fuel : ℕ) (num : ℤ) (w : W) (srv : E)
      → In srv servers
      → ((v : W)
          → (reply : QueryReply) × ((rpc.query num srv v).0 ≡ some reply)
            × (reply.wrong_leader ≡ false))
      → (config : Config) × ((query rpc (suc fuel) servers num w).0 ≡ some config)
  unfolding query
  query_ends fuel num w srv i leads =
      let (reply, ends) =
        retry_ends query_wrong (rpc.query num) rpc.sleep servers fuel srv w i leads in
      (reply.config, ap config_of ends)

  outcome :
      (call : E → W → Option Reply × W) (w : W) (o : Option Reply) (v v' : W)
      → Outcome reply_wrong call rpc.sleep servers w o v
      → has_returned o ≡ true
      → v ≡ v'
      → (reply : Reply) × IsAccepted reply_wrong call rpc.sleep servers w reply v'
  outcome call w none v v' h same there = absurd (cc)
  outcome call w (some reply) v v' h same there =
      (reply, subst (IsAccepted reply_wrong call rpc.sleep servers w reply) there h)

  accepted :
      (call : E → W → Option Reply × W) (fuel : ℕ) (w v' : W)
      → has_returned (retry reply_wrong call rpc.sleep fuel servers w).0 ≡ true
      → (retry reply_wrong call rpc.sleep fuel servers w).1 ≡ v'
      → (reply : Reply) × IsAccepted reply_wrong call rpc.sleep servers w reply v'
  accepted call fuel w v' e there =
      outcome call w (retry reply_wrong call rpc.sleep fuel servers w).0
        (retry reply_wrong call rpc.sleep fuel servers w).1 v'
        (retry-Outcome reply_wrong call rpc.sleep servers fuel w w Retried.start) e there

  -- Join returns only if one of the clerk's servers has replied to Join with these arguments and was
  -- no wrong leader. It returns at once then; all calls before were lost or refused.
  pub join_lem :
      (fuel : ℕ) (groups : Groups) (w w' : W)
      → join rpc fuel servers groups w ≡ (true, w')
      → (reply : Reply) × IsAccepted reply_wrong (rpc.join groups) rpc.sleep servers w reply w'
  unfolding join
  join_lem fuel groups w w' e =
      accepted (rpc.join groups) fuel w w' (ap (λ q. q.0) e) (ap (λ q. q.1) e)

  -- Leave returns only if one of the clerk's servers has replied to Leave with these arguments and was
  -- no wrong leader. It returns at once then; all calls before were lost or refused.
  pub leave_lem :
      (fuel : ℕ) (gids : List ℕ) (w w' : W)
      → leave rpc fuel servers gids w ≡ (true, w')
      → (reply : Reply) × IsAccepted reply_wrong (rpc.leave gids) rpc.sleep servers w reply w'
  unfolding leave
  leave_lem fuel gids w w' e =
      accepted (rpc.leave gids) fuel w w' (ap (λ q. q.0) e) (ap (λ q. q.1) e)

  -- Move returns only if one of the clerk's servers has replied to Move with these arguments and was
  -- no wrong leader. It returns at once then; all calls before were lost or refused.
  pub move_lem :
      (fuel : ℕ) (shard gid : ℕ) (w w' : W)
      → move rpc fuel servers shard gid w ≡ (true, w')
      → (reply : Reply) × IsAccepted reply_wrong (rpc.move shard gid) rpc.sleep servers w reply w'
  unfolding move
  move_lem fuel shard gid w w' e =
      accepted (rpc.move shard gid) fuel w w' (ap (λ q. q.0) e) (ap (λ q. q.1) e)
