-- ===== src/Raft/Noted.antt =====
-- What checkLogs of Lab 2/src/raft/config.go notes in the logs, and what it compares.
use mathlib.Core.Path.{subst}
use tda596_labs.Base.{
  GoEq, GoEq-nat, ℕ, zero, suc, false, none, some, List, [], ◌∷◌, ◌≡◌, ◌≢◌, ◌⊎◌, inl, inr, refl,
  sym, ◌∙◌, arith, nat_eq, nat_eq_iff, ltb, if◌then◌else◌, get_elem?, set, get_elem?-set_self,
  get_elem?-set_ne, get_elem?-eq-some-lt, Bool-cases,
}
use tda596_labs.Base.Dict.{lookup, insert, lookup-insert}
use tda596_labs.Raft.Config.{ApplyMsg, Log, Config, conflicts, find_conflict}

pub some_eq {ℓ} : {A : Type ℓ} {x y : A} → some x ≡ some y → x ≡ y
some_eq e = cc

module _ {V : Type 0} ⦃e : GoEq V⦄ where
  -- Server j has applied this command at this index.
  abbrev pub Applied : Config V → (j index : ℕ) → V → Type 0
  Applied cfg j index v =
      (log : Log V) × (get_elem? cfg.logs j ≡ some log) × (lookup index log ≡ some v)

  find_conflict-some :
      (m : ApplyMsg V) (j i : ℕ) (logs : List (Log V)) → find_conflict m j logs (some i) ≢ none
  unfolding find_conflict
  find_conflict-some m j i [] h = absurd (cc)
  find_conflict-some m j i (log ∷ logs) h = elim (Bool-cases (conflicts m log)) [
    | inl there ↦ find_conflict-some m (suc j) j logs (rw (there, find_conflict) at h)
    | inr clear ↦ find_conflict-some m (suc j) i logs (rw (clear, find_conflict) at h)
  ]

  conflicts-none :
      (m : ApplyMsg V) (log : Log V) {v : V}
      → conflicts m log ≡ false
      → lookup m.command_index log ≡ some v
      → v ≡ m.command
  unfolding conflicts
  conflicts-none m log {v} clear has = grind (arith, clear, has, e.equal_iff v m.command)

  -- Without an error no log has another value at the index.
  pub find_conflict-none :
      (m : ApplyMsg V) (j : ℕ) (logs : List (Log V)) (k : ℕ) {log : Log V} {v : V}
      → find_conflict m j logs none ≡ none
      → get_elem? logs k ≡ some log
      → lookup m.command_index log ≡ some v
      → v ≡ m.command
  unfolding find_conflict
  find_conflict-none m j [] k h at has = absurd (cc)
  find_conflict-none m j (own ∷ logs) zero {v = v} h at has = elim (Bool-cases (conflicts m own)) [
    | inl there ↦ absurd (find_conflict-some m (suc j) j logs (rw (there, find_conflict) at h))
    | inr clear ↦
        conflicts-none m own clear
          (subst (λ q. lookup m.command_index q ≡ some v) (sym (some_eq at)) has)
  ]
  find_conflict-none m j (own ∷ logs) (suc k) h at has = elim (Bool-cases (conflicts m own)) [
    | inl there ↦ absurd (find_conflict-some m (suc j) j logs (rw (there, find_conflict) at h))
    | inr clear ↦ find_conflict-none m (suc j) logs k (rw (clear, find_conflict) at h) at has
  ]

  -- The state after checkLogs.
  abbrev pub noted : ℕ → ApplyMsg V → Log V → Config V → Config V
  noted i m log cfg = record cfg {
    logs = set cfg.logs i (insert m.command_index m.command log);
    max_index = if ltb cfg.max_index m.command_index then m.command_index else cfg.max_index;
  }

  -- What is applied afterwards is this message or was applied before.
  pub Applied-noted :
      (i : ℕ) (m : ApplyMsg V) (log : Log V) (cfg : Config V) (j index : ℕ) (v : V)
      → get_elem? cfg.logs i ≡ some log
      → Applied (noted i m log cfg) j index v
      → ((j ≡ i) × (index ≡ m.command_index) × (v ≡ m.command)) ⊎ Applied cfg j index v
  Applied-noted i m log cfg j index v at (own, at', has) = elim (Bool-cases (nat_eq i j)) [
    | inl same ↦
        let ij : i ≡ j = (nat_eq_iff i j).0 same in
        let mine =
          get_elem?-set_self cfg.logs i (insert m.command_index m.command log)
            (get_elem?-eq-some-lt cfg.logs i at) in
        let own_is : insert m.command_index m.command log ≡ own =
          some_eq (
            sym mine ∙ subst (λ q. get_elem? (noted i m log cfg).logs q ≡ some own) (sym ij) at') in
        let here : lookup index (insert m.command_index m.command log) ≡ some v = rw (own_is) has in
        let split : (if nat_eq m.command_index index then some m.command else lookup index log)
            ≡ some v =
          sym (lookup-insert m.command_index index m.command log) ∙ here in
        elim (Bool-cases (nat_eq m.command_index index)) [
          | inl equal ↦ inl (
            sym ij,
            sym ((nat_eq_iff m.command_index index).0 equal),
            some_eq (sym (rw (equal) at split)),
          )
          | inr other ↦
              inr (log, subst (λ q. get_elem? cfg.logs q ≡ some log) ij at, rw (other) at split)
        ]
    | inr other ↦ inr (
      own,
      sym (
            get_elem?-set_ne cfg.logs (insert m.command_index m.command log)
              (λ ij. absurd (grind (arith, nat_eq_iff i j, ij, other))))
          ∙ at',
      has,
    )
  ]

  -- What was applied before is still applied, if its value is not replaced, and so has some value.
  pub Applied-kept :
      (i : ℕ) (m : ApplyMsg V) (log : Log V) (cfg : Config V) (j index : ℕ) (v : V)
      → get_elem? cfg.logs i ≡ some log
      → Applied cfg j index v
      → (w : V) × Applied (noted i m log cfg) j index w
  Applied-kept i m log cfg j index v at (own, at', has) = elim (Bool-cases (nat_eq i j)) [
    | inl same ↦
        let ij : i ≡ j = (nat_eq_iff i j).0 same in
        let mine =
          get_elem?-set_self cfg.logs i (insert m.command_index m.command log)
            (get_elem?-eq-some-lt cfg.logs i at) in
        let own_is : log ≡ own =
          some_eq (sym at ∙ subst (λ q. get_elem? cfg.logs q ≡ some own) (sym ij) at') in
        let here : lookup index log ≡ some v = rw (own_is) has in
        let there =
          subst
            (λ q.
              get_elem? (noted i m log cfg).logs q ≡ some (insert m.command_index m.command log))
            ij mine in
        elim (Bool-cases (nat_eq m.command_index index)) [
          | inl equal ↦ (
            m.command,
            (
              insert m.command_index m.command log,
              there,
              lookup-insert m.command_index index m.command log ∙ rw (equal) refl,
            ),
          )
          | inr other ↦ (
            v,
            (
              insert m.command_index m.command log,
              there,
              lookup-insert m.command_index index m.command log ∙ rw (other) here,
            ),
          )
        ]
    | inr other ↦ (
      v,
      (
        own,
        get_elem?-set_ne cfg.logs (insert m.command_index m.command log)
              (λ ij. absurd (grind (arith, nat_eq_iff i j, ij, other)))
            ∙ at',
        has,
      ),
    )
  ]
