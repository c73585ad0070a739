-- ===== src/Shardkv/Routing.antt =====
-- To which servers the client of Lab 2/src/shardkv/client.go goes.
use tda596_labs.Base.{
  sym, ap, ◌∙◌, Bool, true, false, str_eq, str_eq_iff, Bool-cases, ◌||◌, if◌then◌else◌, GoEq-nat, ℕ,
  zero, suc, ◌<◌, ◌≡◌, refl, ◌⊎◌, inl, inr, arith, String, Option, none, some, List, [], ◌∷◌,
  get_elem?, get_elem?-of_lt, length, Option-cases,
}
use tda596_labs.Base.Dict.{lookup}
use tda596_labs.Base.Run.{ok, ◌>>=◌, expect, Returns, Returns-bind}
use tda596_labs.Shardctrler.{Config}
use tda596_labs.Shardctrler.Retry.{In}
use tda596_labs.Shardkv.{
  Rpc, GetReply, Round, answered, gave_up, Use, take, wrong_group, next_server, use_get,
  use_put_append, key2shard, try_group, try_config, serve, get, put_append,
}

key2shard-lt : (key : String) → key2shard key < 10
unfolding key2shard
key2shard-lt String.[] = omega arith
key2shard-lt (String.◌∷◌ c key) = omega arith

module _ {W R A : Type 0} (call : String → W → R × W) (right : R → A → Type 0) (key : String) where
  -- The answer is from a server of the group that holds the key's shard in this configuration; the call
  -- of this server was the last.
  pub record IsServed (a : A) (config : Config) (w' : W) : Type 0 where
    pub gid : ℕ
    pub servers : List String
    pub server : String
    pub before : W
    pub reply : R
    pub shard : get_elem? config.shards (key2shard key) ≡ some gid
    pub group : lookup gid config.groups ≡ some servers
    pub known : In server servers
    pub replied : call server before ≡ (reply, w')
    pub right_reply : right reply a

  -- An answer is one of a server of the group that the clerk's configuration has for the key.
  abbrev pub IsServedIf : Option A → Config → W → Type 0
  IsServedIf none config w' = Unit
  IsServedIf (some a) config w' = IsServed a config w'

module _ {W R A : Type 0} (call : String → W → R × W) (use_reply : R → Use A) (key : String)
    (right : R → A → Type 0)
    (is_right : (reply : R) (a : A) → use_reply reply ≡ take a → right reply a) where
  IsFound : List String → Round A → W → Type 0
  IsFound servers (answered a) w' =
      (server : String) × (before : W) × (reply : R) × In server servers
      × (call server before ≡ (reply, w'))
      × right reply a
  IsFound servers gave_up w' = Unit

  IsFound-later :
      (s : String) (servers : List String) (round : Round A) (w' : W)
      → IsFound servers round w'
      → IsFound (s ∷ servers) round w'
  unfolding IsFound
  IsFound-later s servers (answered a) w' (server, before, reply, i, replied, used) =
      (server, before, reply, inr i, replied, used)
  IsFound-later s servers gave_up w' h = tt

  use-cases : (u : Use A) → ((a : A) × (u ≡ take a)) ⊎ ((u ≡ wrong_group) ⊎ (u ≡ next_server))
  use-cases (take a) = inl (a, refl)
  use-cases wrong_group = inr (inl refl)
  use-cases next_server = inr (inr refl)

  try_group-IsFound :
      (servers : List String) (w : W)
      → IsFound servers
          (try_group call use_reply servers w).0
          (try_group call use_reply servers w).1
  unfolding try_group IsFound
  try_group-IsFound [] w = tt
  try_group-IsFound (server ∷ servers) w = elim (use-cases (use_reply (call server w).0)) [
    | inl (a, used) ↦
        rw (used, try_group)
          (server, w, (call server w).0, inl refl, refl, is_right (call server w).0 a used)
    | inr (inl wrong) ↦ rw (wrong, try_group) tt
    | inr (inr next) ↦
        rw (next, try_group)
          (IsFound-later server servers (try_group call use_reply servers (call server w).1).0
            (try_group call use_reply servers (call server w).1).1
            (try_group-IsFound servers (call server w).1))
  ]

  IsRouted : Config → Round A → W → Type 0
  IsRouted config (answered a) w' = IsServed call right key a config w'
  IsRouted config gave_up w' = Unit

  IsFound-IsRouted :
      (config : Config) (gid : ℕ) (servers : List String) (round : Round A) (w' : W)
      → get_elem? config.shards (key2shard key) ≡ some gid
      → lookup gid config.groups ≡ some servers
      → IsFound servers round w'
      → IsRouted config round w'
  unfolding IsFound IsRouted
  IsFound-IsRouted config gid servers (answered a) w' shard group
        (server, before, reply, i, replied, used) =
      record {
        gid = gid;
        servers = servers;
        server = server;
        before = before;
        reply = reply;
        shard = shard;
        group = group;
        known = i;
        replied = replied;
        right_reply = used;
      }
  IsFound-IsRouted config gid servers gave_up w' shard group h = tt

  try_shard-IsRouted :
      (config : Config) (w : W) (gid : ℕ)
      → get_elem? config.shards (key2shard key) ≡ some gid
      → Returns (λ tried. IsRouted config tried.0 tried.1) (try_config call use_reply key config w)
  unfolding try_config IsRouted
  try_shard-IsRouted config w gid shard = elim (Option-cases (lookup gid config.groups)) [
    | inl no_group ↦ rw (shard, expect, ◌>>=◌, no_group) tt
    | inr (servers, group) ↦
        rw (shard, expect, ◌>>=◌, group)
          (IsFound-IsRouted config gid servers (try_group call use_reply servers w).0
            (try_group call use_reply servers w).1 shard group (try_group-IsFound servers w))
  ]

  try_config-IsRouted :
      (config : Config) (w : W)
      → length config.shards ≡ 10
      → Returns (λ tried. IsRouted config tried.0 tried.1) (try_config call use_reply key config w)
  try_config-IsRouted config w ten =
      let (gid, shard) =
        get_elem?-of_lt config.shards (key2shard key) (omega (arith, ten, key2shard-lt key)) in
      try_shard-IsRouted config w gid shard

  module _ (rpc : Rpc W)
      (ten_shards : (v : W) (config : Config)
        → (rpc.query v).0 ≡ some config
        → length config.shards ≡ 10) where
    serve-IsServedIf :
        (fuel : ℕ) (config : Config) (w : W)
        → length config.shards ≡ 10
        → Returns {A = Option A × (Config × W)}
            (λ out. IsServedIf call right key out.0 out.1.0 out.1.1)
            (serve call use_reply rpc fuel key config w)
    unfolding serve IsRouted
    serve-IsServedIf zero config w ten = tt
    serve-IsServedIf (suc fuel) config w ten =
        Returns-bind (λ tried. IsRouted config tried.0 tried.1)
          (λ out. IsServedIf call right key out.0 out.1.0 out.1.1)
          (try_config call use_reply key config w) _ (try_config-IsRouted config w ten)
          (λ tried ways.
            after fuel config tried.0 tried.1 ways
              (λ config' v ten'. serve-IsServedIf fuel config' v ten'))
      where
        after :
            (fuel : ℕ) (config : Config) (round : Round A) (v : W)
            → IsRouted config round v
            → ((config' : Config) (v' : W)
                → length config'.shards ≡ 10
                → Returns {A = Option A × (Config × W)}
                    (λ out. IsServedIf call right key out.0 out.1.0 out.1.1)
                    (serve call use_reply rpc fuel key config' v'))
            → Returns {A = Option A × (Config × W)}
                (λ out. IsServedIf call right key out.0 out.1.0 out.1.1)
                (elim round [
                  | answered a ↦ ok (some a, (config, v))
                  | gave_up ↦ elim (rpc.query (rpc.sleep v)).0 [
                    | none ↦ ok (none, (config, (rpc.query (rpc.sleep v)).1))
                    | some config' ↦
                        serve call use_reply rpc fuel key config' (rpc.query (rpc.sleep v)).1
                  ]
                ])
        after fuel config (answered a) v ways next = ways
        after fuel config gave_up v ways next = elim (Option-cases (rpc.query (rpc.sleep v)).0) [
          | inl lost ↦ rw (lost) tt
          | inr (config', there) ↦
              rw (there)
                (next config' (rpc.query (rpc.sleep v)).1 (ten_shards (rpc.sleep v) config' there))
        ]

-- The replies that Get and PutAppend may answer to.
abbrev pub IsGot : Option GetReply → String → Type 0
IsGot none value = ⊥
IsGot (some reply) value = ((reply.err ≡ "OK") ⊎ (reply.err ≡ "ErrNoKey")) × (reply.value ≡ value)

abbrev pub IsPut : Option String → Bool → Type 0
IsPut none done = ⊥
IsPut (some err) done = err ≡ "OK"

take_eq : {A : Type 0} {a b : A} → take a ≡ take b → a ≡ b
take_eq e = cc

chosen :
    {A : Type 0} (a b c : Bool) (value taken : A)
    → (if a || b then take value else if c then wrong_group else next_server) ≡ take taken
    → ((a ≡ true) ⊎ (b ≡ true)) × (value ≡ taken)
chosen true b c value taken e = (inl refl, take_eq e)
chosen false true c value taken e = (inr refl, take_eq e)
chosen false false true value taken e = absurd (cc)
chosen false false false value taken e = absurd (cc)

use_get-IsGot :
    (reply : Option GetReply) (value : String) → use_get reply ≡ take value → IsGot reply value
use_get-IsGot none value e = absurd (cc)
use_get-IsGot (some reply) value e =
    let (err, same) =
      chosen (str_eq reply.err "OK") (str_eq reply.err "ErrNoKey")
        (str_eq reply.err "ErrWrongGroup") reply.value value e in
    (
      elim err [
        | inl is_ok ↦ inl ((str_eq_iff reply.err "OK").0 is_ok)
        | inr no_key ↦ inr ((str_eq_iff reply.err "ErrNoKey").0 no_key)
      ],
      same,
    )

use_put_append-IsPut :
    (reply : Option String) (done : Bool) → use_put_append reply ≡ take done → IsPut reply done
use_put_append-IsPut none done e = absurd (cc)
use_put_append-IsPut (some err) done e = elim (Bool-cases (str_eq err "OK")) [
  | inl is_ok ↦ (str_eq_iff err "OK").0 is_ok
  | inr not_ok ↦
      let e' : (if str_eq err "ErrWrongGroup" then wrong_group else next_server) ≡ take done =
        sym (
          ap
            (λ q.
              if q
              then take true
              else if str_eq err "ErrWrongGroup"
              then wrong_group
              else next_server)
            not_ok)
        ∙ e in
      elim (chosen false false (str_eq err "ErrWrongGroup") true done e').0 [
        | inl f ↦ absurd (cc)
        | inr f ↦ absurd (cc)
      ]
]

-- Get does not panic and answers only what a server of the right group has replied to it: that is the group
-- to which the clerk's configuration gives the key's shard, the reply is OK or ErrNoKey, and it is the last
-- thing that happened. All configurations, the clerk's first one and those that Query answers with, have
-- ten shards.
pub get-IsServed :
    {W : Type 0} (rpc : Rpc W) (fuel : ℕ) (key : String) (config : Config) (w : W)
    → ((v : W) (config' : Config) → (rpc.query v).0 ≡ some config' → length config'.shards ≡ 10)
    → length config.shards ≡ 10
    → Returns
        (λ out. IsServedIf (rpc.get key) IsGot key out.0 out.1.0 out.1.1)
        (get rpc fuel key config w)
unfolding get
get-IsServed rpc fuel key config w ten_shards ten =
    serve-IsServedIf (rpc.get key) use_get key IsGot use_get-IsGot rpc ten_shards fuel config w ten

-- PutAppend does not panic and returns only once a server of the right group has replied OK to it: that is
-- the group to which the clerk's configuration gives the key's shard, and the reply is the last thing that
-- happened. All configurations, the clerk's first one and those that Query answers with, have ten shards.
pub put_append-IsServed :
    {W : Type 0} (rpc : Rpc W) (fuel : ℕ) (key value op : String) (config : Config) (w : W)
    → ((v : W) (config' : Config) → (rpc.query v).0 ≡ some config' → length config'.shards ≡ 10)
    → length config.shards ≡ 10
    → Returns
        (λ out.
          IsServedIf
            (rpc.put_append (record { key = key; value = value; op = op }))
            IsPut
            key
            out.0
            out.1.0
            out.1.1)
        (put_append rpc fuel key value op config w)
unfolding put_append
put_append-IsServed rpc fuel key value op config w ten_shards ten =
    serve-IsServedIf (rpc.put_append (record { key = key; value = value; op = op })) use_put_append
      key IsPut use_put_append-IsPut rpc ten_shards fuel config w ten
