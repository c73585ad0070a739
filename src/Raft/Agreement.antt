-- ===== src/Raft/Agreement.antt =====
-- What the harness of Lab 2/src/raft/config.go has checked when it has not stopped.
use mathlib.Core.Path.{subst}
use tda596_labs.Base.{
  GoEq, GoEq-nat, ℕ, zero, suc, ◌≤◌, ◌<◌, true, not, ◌&&◌, none, some, List, [], ◌∷◌, ◌≡◌, inl, inr,
  sym, ◌∙◌, arith, ltb, get_elem?, replicate, Option-cases, if-elim,
}
use tda596_labs.Base.Dict.{lookup}
use tda596_labs.Base.Run.{ok, Allows, of_Allows, Allows-bind}
use tda596_labs.Raft.Config.{
  ApplyMsg, Log, Config, make_config, has_previous, find_conflict, check_logs, apply_command,
  apply_msg, applier,
}
use tda596_labs.Raft.Noted.{
  Applied, noted, some_eq, find_conflict-none, Applied-noted, Applied-kept,
}

module _ {V : Type 0} ⦃e : GoEq V⦄ where
  pub record IsConsistent (cfg : Config V) : Type 0 where
    -- no two servers differ at an index
    pub agree : (j k index : ℕ) (v w : V) → Applied cfg j index v → Applied cfg k index w → v ≡ w
    -- a server that has an index has the one before it
    pub gapless :
        (j index : ℕ) (v : V)
        → Applied cfg j (suc (suc index)) v
        → (w : V) × Applied cfg j (suc index) w
    -- maxIndex is a bound
    pub within : (j index : ℕ) (v : V) → Applied cfg j index v → index ≤ cfg.max_index

  previous-of_has :
      (log : Log V) (index : ℕ)
      → has_previous log (suc index) ≡ true
      → (w : V) × (lookup index log ≡ some w)
  unfolding has_previous
  previous-of_has log index h = elim (Option-cases (lookup index log)) [
    | inl nothing ↦ absurd (grind (arith, nothing, h))
    | inr (w, has) ↦ (w, has)
  ]

  noted-IsConsistent :
      (i : ℕ) (m : ApplyMsg V) (log : Log V) (cfg : Config V)
      → get_elem? cfg.logs i ≡ some log
      → find_conflict m 0 cfg.logs none ≡ none
      → (1 < m.command_index → has_previous log m.command_index ≡ true)
      → IsConsistent cfg
      → IsConsistent (noted i m log cfg)
  noted-IsConsistent i m log cfg at clear prev c =
      let new : (k index : ℕ) (w : V)
          → Applied cfg k index w
          → index ≡ m.command_index
          → w ≡ m.command =
        λ k index w a same.
          find_conflict-none m 0 cfg.logs k clear a.1
            (subst (λ q. lookup q a.0 ≡ some w) same a.2) in
      record {
        agree = λ j k index v w a b. elim (Applied-noted i m log cfg j index v at a) [
          | inl (ji, mi, mv) ↦ elim (Applied-noted i m log cfg k index w at b) [
            | inl (ki, mi', mw) ↦ mv ∙ sym mw
            | inr old ↦ mv ∙ sym (new k index w old mi)
          ]
          | inr old ↦ elim (Applied-noted i m log cfg k index w at b) [
            | inl (ki, mi', mw) ↦ new j index v old mi' ∙ sym mw
            | inr old' ↦ c.agree j k index v w old old'
          ]
        ];
        gapless = λ j index v a. elim (Applied-noted i m log cfg j (suc (suc index)) v at a) [
          | inl (ji, mi, mv) ↦
              let (w, has) =
                previous-of_has log (suc index)
                  (subst (λ q. has_previous log q ≡ true) (sym mi) (prev (omega (arith, mi)))) in
              Applied-kept i m log cfg j (suc index) w at
                (log, subst (λ q. get_elem? cfg.logs q ≡ some log) (sym ji) at, has)
          | inr old ↦
              let (w, before) = c.gapless j index v old in
              Applied-kept i m log cfg j (suc index) w at before
        ];
        within = λ j index v a. elim (Applied-noted i m log cfg j index v at a) [
          | inl (ji, mi, mv) ↦ grind (arith, mi)
          | inr old ↦ let le = c.within j index v old in grind (arith, le)
        ];
      }

  apply_command-IsConsistent :
      (i : ℕ) (m : ApplyMsg V) (cfg : Config V)
      → IsConsistent cfg
      → Allows IsConsistent (apply_command i m cfg)
  unfolding apply_command check_logs
  apply_command-IsConsistent i m cfg c = elim (Option-cases (get_elem? cfg.logs i)) [
    | inl nothing ↦ rw (apply_command, check_logs, nothing) tt
    | inr (log, at) ↦
        rw (apply_command, check_logs, at)
          (if-elim (Allows IsConsistent)
            (ltb 1 m.command_index && not (has_previous log m.command_index)) (λ gap. tt)
            (λ next. elim (Option-cases (find_conflict m 0 cfg.logs none)) [
              | inl clear ↦
                  rw (clear)
                    (noted-IsConsistent i m log cfg at clear (λ lt. grind (arith, next, lt)) c)
              | inr (j, there) ↦ rw (there) tt
            ]))
  ]

  applier-IsConsistent :
      (messages : List (ℕ × ApplyMsg V)) (cfg : Config V)
      → IsConsistent cfg
      → Allows IsConsistent (applier messages cfg)
  unfolding applier apply_msg
  applier-IsConsistent [] cfg c = c
  applier-IsConsistent ((i, m) ∷ messages) cfg c =
      Allows-bind IsConsistent IsConsistent (apply_msg i m cfg) _
        (if-elim (Allows IsConsistent) (not m.command_valid) (λ other. c)
          (λ valid. apply_command-IsConsistent i m cfg c))
        (applier-IsConsistent messages)

  replicate-empty : (n j : ℕ) {log : Log V} → get_elem? (replicate n []) j ≡ some log → log ≡ []
  replicate-empty zero j e = absurd (cc)
  replicate-empty (suc n) zero e = sym (some_eq e)
  replicate-empty (suc n) (suc j) e = replicate-empty n j e

  nothing-Applied : (n j index : ℕ) (v : V) → Applied (make_config n) j index v → ⊥
  unfolding make_config lookup
  nothing-Applied n j index v (log, at, has) =
      let none_at : lookup index [] ≡ some v =
        subst (λ q. lookup index q ≡ some v) (replicate-empty n j at) has in
      absurd (cc)

  -- If the harness was given any messages by its servers, in any order, and has not stopped: no two
  -- servers have applied different commands at an index, a server that has applied an index after the
  -- first has applied the one before it, and maxIndex is a bound of all applied indices.
  pub applied_logs_agree :
      (n : ℕ) (messages : List (ℕ × ApplyMsg V)) {cfg : Config V}
      → applier messages (make_config n) ≡ ok cfg
      → IsConsistent cfg
  applied_logs_agree n messages {cfg} e' =
      of_Allows IsConsistent
        (applier-IsConsistent messages (make_config n) (record {
          agree = λ j k index v w a b. absurd (nothing-Applied n j index v a);
          gapless = λ j index v a. absurd (nothing-Applied n j (suc (suc index)) v a);
          within = λ j index v a. absurd (nothing-Applied n j index v a);
        }))
        e'
