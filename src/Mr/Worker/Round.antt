-- ===== src/Mr/Worker/Round.antt =====
-- One round of Worker in worker.go on the status lists: a task is handed out and reported as done.
use mathlib.Core.Path.{subst}
use tda596_labs.Base.{
  ℕ, zero, suc, ◌+◌, ◌≡◌, ◌≢◌, refl, sym, Bool, true, false, not, some, List, [], ◌∷◌, arith,
  get_elem?, modify, all, if◌then◌else◌, modify-modify, get_elem?-modify_ne,
}
use tda596_labs.Mr.Rpc.{TaskStatus}
use tda596_labs.Mr.Coordinator.{is_idle, mark_assigned, mark_done}

-- How many tasks are still to be done.
abbrev pub undone : List TaskStatus → ℕ
undone [] = 0
undone (s ∷ ss) = (if s.completed then 0 else 1) + undone ss

abbrev pub is_free : TaskStatus → Bool
is_free s = not s.assigned

-- The list after task i was handed out and reported under its own index.
abbrev pub served : (now i id : ℕ) → List TaskStatus → List TaskStatus
served now i id ss = modify (modify ss i (mark_assigned now)) id mark_done

undone-modify :
    (f : TaskStatus → TaskStatus) (ss : List TaskStatus) (i : ℕ) (s : TaskStatus)
    → ((t : TaskStatus) → (f t).completed ≡ true)
    → get_elem? ss i ≡ some s
    → s.completed ≡ false
    → suc (undone (modify ss i f)) ≡ undone ss
undone-modify f [] i s done at open_task = absurd (cc)
undone-modify f (t ∷ ss) zero s done at open_task = ground (arith, done t)
undone-modify f (t ∷ ss) (suc i) s done at open_task =
    omega (arith, undone-modify f ss i s done at open_task)

all_free-modify :
    (f : TaskStatus → TaskStatus) (ss : List TaskStatus) (i : ℕ)
    → ((t : TaskStatus) → is_free (f t) ≡ true)
    → all is_free ss ≡ true
    → all is_free (modify ss i f) ≡ true
all_free-modify f [] i free h = refl
all_free-modify f (t ∷ ss) zero free h = ground (arith, free t)
all_free-modify f (t ∷ ss) (suc i) free h = ground (arith, all_free-modify f ss i free)

module _ (now i id : ℕ) (ss : List TaskStatus) (same : id ≡ i) where
  served-modify : served now i id ss ≡ modify ss i (λ s. mark_done (mark_assigned now s))
  served-modify =
      subst (λ k. served now i k ss ≡ modify ss i (λ s. mark_done (mark_assigned now s))) (sym same)
        (modify-modify ss i (mark_assigned now) mark_done)

  pub undone-served :
      {s : TaskStatus}
      → get_elem? ss i ≡ some s
      → is_idle s ≡ true
      → suc (undone (served now i id ss)) ≡ undone ss
  unfolding is_idle
  undone-served {s} at idle =
      rw served-modify (undone-modify _ ss i s (λ t. refl) at (ground arith))

  pub all_free-served : all is_free ss ≡ true → all is_free (served now i id ss) ≡ true
  all_free-served h = rw served-modify (all_free-modify _ ss i (λ t. refl) h)

  pub get_elem?-served_ne : (j : ℕ) → i ≢ j → get_elem? (served now i id ss) j ≡ get_elem? ss j
  get_elem?-served_ne j ne = rw served-modify (get_elem?-modify_ne ss _ ne)

-- Where no task is assigned, none is in progress.
pub not-assigned_of_free :
    (ss : List TaskStatus) (j : ℕ) (s : TaskStatus)
    → all is_free ss ≡ true
    → get_elem? ss j ≡ some s
    → s.assigned ≡ false
not-assigned_of_free [] j s h at = absurd (cc)
not-assigned_of_free (t ∷ ss) zero s h at = ground arith
not-assigned_of_free (t ∷ ss) (suc j) s h at = not-assigned_of_free ss j s (ground arith) at
