-- ===== src/Mr/Coordinator/Status.antt =====
-- The loops over the status lists of coordinator.go.
use tda596_labs.Base.{
  ℕ, zero, suc, ◌<◌, ◌≡◌, refl, inl, inr, true, false, Option, none, some, List, [], ◌∷◌, arith,
  get_elem?, all, Bool-cases,
}
use tda596_labs.Mr.Rpc.{TaskStatus}
use tda596_labs.Mr.Coordinator.{is_idle, first_idle, is_done}

-- What first_idle finds: the first status that passes, or that none does.
abbrev pub IdleAt : List TaskStatus → Option ℕ → Type 0
IdleAt ss none = (j : ℕ) (s : TaskStatus) → get_elem? ss j ≡ some s → is_idle s ≡ false
IdleAt ss (some i) =
    ((s : TaskStatus) × (get_elem? ss i ≡ some s) × (is_idle s ≡ true))
    × ((j : ℕ) (s : TaskStatus) → j < i → get_elem? ss j ≡ some s → is_idle s ≡ false)

IdleAt-cons :
    (s : TaskStatus) (ss : List TaskStatus) (r : Option ℕ)
    → is_idle s ≡ false
    → IdleAt ss r
    → IdleAt (s ∷ ss) (elim r [ none ↦ none | some i ↦ some (suc i) ])
IdleAt-cons s ss none busy h = λ j t. head_or_tail j t
  where
    head_or_tail : (j : ℕ) (t : TaskStatus) → get_elem? (s ∷ ss) j ≡ some t → is_idle t ≡ false
    head_or_tail zero t e = cc
    head_or_tail (suc j) t e = h j t e
IdleAt-cons s ss (some i) busy (found, before) = (found, λ j t. head_or_tail j t)
  where
    head_or_tail :
        (j : ℕ) (t : TaskStatus) → j < suc i → get_elem? (s ∷ ss) j ≡ some t → is_idle t ≡ false
    head_or_tail zero t lt e = cc
    head_or_tail (suc j) t lt e = before j t (omega arith) e

pub first_idle-IdleAt : (ss : List TaskStatus) → IdleAt ss (first_idle ss)
unfolding first_idle
first_idle-IdleAt [] = λ j s e. absurd (cc)
first_idle-IdleAt (s ∷ ss) = elim (Bool-cases (is_idle s)) [
  | inl idle ↦ rw idle ((s, refl, idle), λ j t lt e. absurd (omega arith))
  | inr busy ↦ rw busy (IdleAt-cons s ss (first_idle ss) busy (first_idle-IdleAt ss))
]

-- A status of a task that a worker holds and has not finished.
abbrev pub InProgress : List TaskStatus → Type 0
InProgress ss =
    (j : ℕ) × (s : TaskStatus) × (get_elem? ss j ≡ some s)
    × (s.assigned ≡ true)
    × (s.completed ≡ false)

-- If no status is idle and not every task is done, a worker holds one.
pub InProgress-of_not_done :
    (ss : List TaskStatus) → IdleAt ss none → all is_done ss ≡ false → InProgress ss
unfolding is_idle
InProgress-of_not_done [] h n = absurd (cc)
InProgress-of_not_done (s ∷ ss) h n = elim (Bool-cases s.completed) [
  | inl d ↦
      let (j, t, at, busy, open_task) =
        InProgress-of_not_done ss (λ i t e. h (suc i) t e) (ground arith) in
      (suc j, t, at, busy, open_task)
  | inr d ↦ (0, s, refl, ground (arith, h 0 s refl), d)
]

-- A done task is not idle, so where all are done the loop finds none.
pub first_idle-none_of_done : (ss : List TaskStatus) → all is_done ss ≡ true → first_idle ss ≡ none
unfolding first_idle
first_idle-none_of_done [] h = refl
first_idle-none_of_done (s ∷ ss) h = ground (arith, first_idle-none_of_done ss)
