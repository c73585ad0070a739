-- ===== src/Raft/Committed.antt =====
-- What nCommitted of Lab 2/src/raft/config.go finds.
use tda596_labs.Base.{
  GoEq, GoEq-nat, ℕ, suc, false, ◌&&◌, Option, none, some, List, [], ◌∷◌, ◌≡◌, inl, inr, refl,
  arith, ltb, get_elem?, Option-cases,
}
use tda596_labs.Base.Dict.{lookup}
use tda596_labs.Base.Run.{ok, Returns, Returns-mono}
use tda596_labs.Raft.Config.{
  ApplyMsg, Log, Config, make_config, applier, differs, count_committed, n_committed,
}
use tda596_labs.Raft.Noted.{Applied}
use tda596_labs.Raft.Agreement.{IsConsistent, applied_logs_agree}

module _ {V : Type 0} ⦃e : GoEq V⦄ where
  -- The command that was found is one that P allows.
  abbrev Allowed : (V → Type 0) → Option V → Type 0
  Allowed P none = Unit
  Allowed P (some v) = P v

  not_fatal :
      (P : V → Type 0) (count : ℕ) (cmd : Option V) (v : V)
      → ((u w : V) → P u → P w → u ≡ w)
      → Allowed P cmd
      → (cmd ≡ none → count ≡ 0)
      → P v
      → (differs cmd v && ltb 0 count) ≡ false
  not_fatal P count none v one known first p = let z = first refl in grind (arith, z)
  not_fatal P count (some c) v one known first p = grind (arith, e.equal_iff c v, one c v known p)

  count_committed-Allowed :
      (P : V → Type 0) (index : ℕ) (logs : List (Log V)) (count : ℕ) (cmd : Option V)
      → ((u w : V) → P u → P w → u ≡ w)
      → ((j : ℕ) (log : Log V) (v : V)
          → get_elem? logs j ≡ some log
          → lookup index log ≡ some v
          → P v)
      → Allowed P cmd
      → (cmd ≡ none → count ≡ 0)
      → Returns (λ out. Allowed P out.1) (count_committed index logs count cmd)
  unfolding count_committed
  count_committed-Allowed P index [] count cmd one has known first = known
  count_committed-Allowed P index (log ∷ logs) count cmd one has known first =
      elim (Option-cases (lookup index log)) [
        | inl nothing ↦
            rw (nothing, count_committed)
              (count_committed-Allowed P index logs count cmd one (λ j. has (suc j)) known first)
        | inr (v, found) ↦
            let p = has 0 log v refl found in
            rw (found, count_committed, not_fatal P count cmd v one known first p)
              (count_committed-Allowed P index logs (suc count) (some v) one (λ j. has (suc j)) p
                (λ q. absurd (cc)))
      ]

  abbrev Somewhere : Config V → ℕ → V → Type 0
  Somewhere cfg index v = (j : ℕ) × Applied cfg j index v

  -- The command is what every server has that has applied this index.
  abbrev pub Common : Config V → ℕ → Option V → Type 0
  Common cfg index none = Unit
  Common cfg index (some v) = (j : ℕ) (w : V) → Applied cfg j index w → w ≡ v

  -- If the harness was given any messages by its servers and has not stopped, then nCommitted does not
  -- stop the test, and the command that it answers with, if any, is the one that every server has
  -- applied at that index if it has applied one.
  pub n_committed-Common :
      (n : ℕ) (messages : List (ℕ × ApplyMsg V)) {cfg : Config V} (index : ℕ)
      → applier messages (make_config n) ≡ ok cfg
      → Returns (λ out. Common cfg index out.1) (n_committed index cfg)
  unfolding n_committed
  n_committed-Common n messages {cfg} index e' =
      let c : IsConsistent cfg = applied_logs_agree n messages e' in
      Returns-mono (λ out. Allowed (Somewhere cfg index) out.1) (λ out. Common cfg index out.1)
        (count_committed index cfg.logs 0 none)
        (count_committed-Allowed (Somewhere cfg index) index cfg.logs 0 none
          (λ u w (j, a) (k, b). c.agree j k index u w a b) (λ j log v at has. (j, (log, at, has)))
          tt (λ q. refl))
        (λ (total, found). common c found)
    where
      common :
          IsConsistent cfg
          → (found : Option V) → Allowed (Somewhere cfg index) found
          → Common cfg index found
      common c none a = tt
      common c (some v) (k, b) = λ j w a. c.agree j k index w v a b
