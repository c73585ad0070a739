-- ===== src/Raft/Config.antt =====
-- Lab 2/src/raft/config.go: what the harness does with the commands that the servers apply. A command
-- is of any type with Go's `==`, and its index a natural number. `panic` is log.Fatal or t.Fatal. An
-- error message is given by the numbers and values that are printed in it.
use tda596_labs.Base.{
  GoEq, GoEq-nat, ℕ, zero, suc, Bool, true, false, not, ◌&&◌, Option, none, some, List, [], ◌∷◌,
  ltb, ◌==◌, if◌then◌else◌, get_elem?, set, replicate,
}
use tda596_labs.Base.Dict.{lookup, insert}
use tda596_labs.Base.Run.{Run, ok, panic, ◌>>=◌, expect}

pub record ApplyMsg (V : Type 0) : Type 0 where
  pub command_valid : Bool
  pub command : V
  pub command_index : ℕ

abbrev pub Log : Type 0 → Type 0
Log V = List (ℕ × V)

-- The parts of the struct config that these functions use.
pub record Config (V : Type 0) : Type 0 where
  pub logs : List (Log V)
  pub max_index : ℕ

module _ {V : Type 0} where
  -- make_config, for n servers.
  unfoldable pub make_config : ℕ → Config V
  make_config n = record { logs = replicate n []; max_index = 0 }

  abbrev pub is_some : Option V → Bool
  is_some none = false
  is_some (some v) = true

  -- `_, prevok := cfg.logs[i][m.CommandIndex-1]`; no log has the index -1.
  unfoldable pub has_previous : Log V → ℕ → Bool
  has_previous log zero = false
  has_previous log (suc index) = is_some (lookup index log)

module _ {V : Type 0} ⦃e : GoEq V⦄ where
  -- Some server has committed a different value for this entry.
  unfoldable pub conflicts : ApplyMsg V → Log V → Bool
  conflicts m log = elim (lookup m.command_index log) [
    | none ↦ false
    | some old ↦ not (old == m.command)
  ]

  -- The loop of checkLogs, from log j on: the last server with a conflict.
  unfoldable pub find_conflict : ApplyMsg V → ℕ → List (Log V) → Option ℕ → Option ℕ
  find_conflict m j [] err_msg = err_msg
  find_conflict m j (log ∷ logs) err_msg =
      find_conflict m (suc j) logs (if conflicts m log then some j else err_msg)

  -- checkLogs: the error message, prevok and the new state. An index i out of range panics.
  unfoldable pub check_logs : ℕ → ApplyMsg V → Config V → Run (Option ℕ × Bool × Config V)
  check_logs i m cfg = do
    log ← expect (get_elem? cfg.logs i)
    ok (
      find_conflict m 0 cfg.logs none,
      has_previous log m.command_index,
      record cfg {
        logs = set cfg.logs i (insert m.command_index m.command log);
        max_index = if ltb cfg.max_index m.command_index then m.command_index else cfg.max_index;
      },
    )

  -- The loop's body for a command.
  unfoldable pub apply_command : ℕ → ApplyMsg V → Config V → Run (Config V)
  apply_command i m cfg = check_logs i m cfg >>= λ (err_msg, prevok, cfg').
      if ltb 1 m.command_index && not prevok
      then panic
      else (elim err_msg [ none ↦ ok cfg' | some j ↦ panic ])

  -- One message in the loop of applier.
  unfoldable pub apply_msg : ℕ → ApplyMsg V → Config V → Run (Config V)
  apply_msg i m cfg = if not m.command_valid then ok cfg else apply_command i m cfg

  -- The messages of all servers, in the order in which their goroutines get the mutex.
  unfoldable pub applier : List (ℕ × ApplyMsg V) → Config V → Run (Config V)
  applier [] cfg = ok cfg
  applier ((i, m) ∷ messages) cfg = apply_msg i m cfg >>= applier messages

  -- `cmd != cmd1`, where cmd may be nil.
  abbrev pub differs : Option V → V → Bool
  differs none v = true
  differs (some c) v = not (c == v)

  -- The loop of nCommitted, with its count and cmd.
  unfoldable pub count_committed : ℕ → List (Log V) → ℕ → Option V → Run (ℕ × Option V)
  count_committed index [] count cmd = ok (count, cmd)
  count_committed index (log ∷ logs) count cmd = elim (lookup index log) [
    | none ↦ count_committed index logs count cmd
    | some cmd1 ↦
        if differs cmd cmd1 && ltb 0 count
        then panic
        else count_committed index logs (suc count) (some cmd1)
  ]

  unfoldable pub n_committed : ℕ → Config V → Run (ℕ × Option V)
  n_committed index cfg = count_committed index cfg.logs 0 none
