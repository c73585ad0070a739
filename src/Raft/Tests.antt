-- ===== src/Raft/Tests.antt =====
-- Concrete runs of Lab 2/src/raft/config.go.
use tda596_labs.Base.{some, none, arith, GoEq-nat, ℕ, ◌≡◌, refl, true, List, [], ◌∷◌}
use tda596_labs.Base.Dict.{lookup, insert}
use tda596_labs.Base.Run.{ok, panic, Returns}
use tda596_labs.Raft.Config.{
  ApplyMsg, Config, make_config, has_previous, conflicts, find_conflict, check_logs, apply_command,
  apply_msg, applier, n_committed,
}
use tda596_labs.Raft.Persister.{make_persister, save}
use tda596_labs.Raft.Isolation.{Holds, write_all, save_isolated}
use tda596_labs.Raft.Committed.{Common, n_committed-Common}
use tda596_labs.Raft.Agreement.{IsConsistent, applied_logs_agree}

abbrev message : ℕ → ℕ → ApplyMsg ℕ
message index command = record { command_valid = true; command = command; command_index = index }

-- Two servers apply 7, and one of them 8.
abbrev some_messages : List (ℕ × ApplyMsg ℕ)
some_messages = (0, message 1 7) ∷ (1, message 1 7) ∷ (0, message 2 8) ∷ []

abbrev after : Config ℕ
after = record { logs = ((1, 7) ∷ (2, 8) ∷ []) ∷ ((1, 7) ∷ []) ∷ []; max_index = 2 }

some_messages_lem : applier some_messages (make_config 2) ≡ ok after
unfolding applier apply_msg apply_command check_logs find_conflict conflicts has_previous
    make_config lookup insert
some_messages_lem = refl

-- A server that applies another command stops the harness.
different_lem : applier ((1, message 1 7) ∷ (0, message 1 9) ∷ []) (make_config 2) ≡ panic
unfolding applier apply_msg apply_command check_logs find_conflict conflicts has_previous
    make_config lookup insert
different_lem = refl

applied_logs_agree_example : IsConsistent after
applied_logs_agree_example = applied_logs_agree 2 some_messages some_messages_lem

n_committed-Common_example : Returns (λ out. Common after 1 out.1) (n_committed 1 after)
n_committed-Common_example = n_committed-Common 2 some_messages 1 some_messages_lem

-- The caller writes into the slice that it has saved.
save_isolated_example :
    Holds
      (save (some 0) none make_persister ((1 ∷ 2 ∷ []) ∷ [])).0
      (write_all ((0, 9 ∷ []) ∷ []) (save (some 0) none make_persister ((1 ∷ 2 ∷ []) ∷ [])).1)
      (1 ∷ 2 ∷ [])
      []
save_isolated_example =
    save_isolated (some 0) none make_persister ((1 ∷ 2 ∷ []) ∷ []) ((0, 9 ∷ []) ∷ []) tt
      (omega arith, tt)
