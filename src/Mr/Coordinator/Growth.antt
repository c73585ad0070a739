-- ===== src/Mr/Coordinator/Growth.antt =====
-- How the status lists of coordinator.go may change: no list grows or shrinks, and no task that is
-- done becomes undone.
use tda596_labs.Base.{
  ℕ, zero, suc, ◌≡◌, refl, Bool, true, false, some, List, [], ◌∷◌, arith, length, get_elem?, modify,
  all, ap,
}
use tda596_labs.Mr.Rpc.{TaskStatus}
use tda596_labs.Mr.Coordinator.{is_done, reassign}

abbrev pub Grow : List TaskStatus → List TaskStatus → Type 0
Grow [] [] = Unit
Grow [] (t ∷ ts) = ⊥
Grow (s ∷ ss) [] = ⊥
Grow (s ∷ ss) (t ∷ ts) = (s.completed ≡ true → t.completed ≡ true) × Grow ss ts

pub Grow-refl : (ss : List TaskStatus) → Grow ss ss
Grow-refl [] = tt
Grow-refl (s ∷ ss) = (λ h. h, Grow-refl ss)

pub Grow-trans : (ss ts us : List TaskStatus) → Grow ss ts → Grow ts us → Grow ss us
Grow-trans [] [] [] g h = tt
Grow-trans [] [] (u ∷ us) g h = h
Grow-trans [] (t ∷ ts) us g h = absurd g
Grow-trans (s ∷ ss) [] us g h = absurd g
Grow-trans (s ∷ ss) (t ∷ ts) [] g h = h
Grow-trans (s ∷ ss) (t ∷ ts) (u ∷ us) g h = (λ d. h.0 (g.0 d), Grow-trans ss ts us g.1 h.1)

pub Grow-modify :
    (ss : List TaskStatus) (i : ℕ) (f : TaskStatus → TaskStatus)
    → ((s : TaskStatus) → s.completed ≡ true → (f s).completed ≡ true)
    → Grow ss (modify ss i f)
Grow-modify [] i f keep = tt
Grow-modify (s ∷ ss) zero f keep = (keep s, Grow-refl ss)
Grow-modify (s ∷ ss) (suc i) f keep = (λ h. h, Grow-modify ss i f keep)

pub Grow-reassign : (clock : ℕ → ℕ) (i : ℕ) (ss : List TaskStatus) → Grow ss (reassign clock i ss)
unfolding reassign
Grow-reassign clock i [] = tt
Grow-reassign clock i (s ∷ ss) = (λ h. ground arith, Grow-reassign clock (suc i) ss)

pub length-Grow : (ss ts : List TaskStatus) → Grow ss ts → length ts ≡ length ss
length-Grow [] [] g = refl
length-Grow [] (t ∷ ts) g = absurd g
length-Grow (s ∷ ss) [] g = absurd g
length-Grow (s ∷ ss) (t ∷ ts) g = ap suc (length-Grow ss ts g.1)

pub all_done-Grow :
    (ss ts : List TaskStatus) → Grow ss ts → all is_done ss ≡ true → all is_done ts ≡ true
all_done-Grow [] [] g h = refl
all_done-Grow [] (t ∷ ts) g h = absurd g
all_done-Grow (s ∷ ss) [] g h = absurd g
all_done-Grow (s ∷ ss) (t ∷ ts) g h = ground (arith, all_done-Grow ss ts)

pub get_elem?-Grow :
    (ss ts : List TaskStatus) (i : ℕ) {s : TaskStatus}
    → Grow ss ts
    → get_elem? ss i ≡ some s
    → s.completed ≡ true
    → (t : TaskStatus) × (get_elem? ts i ≡ some t) × (t.completed ≡ true)
get_elem?-Grow [] ts i g e d = absurd (cc)
get_elem?-Grow (s ∷ ss) [] i g e d = absurd g
get_elem?-Grow (s ∷ ss) (t ∷ ts) zero g e d = (t, refl, g.0 (ground arith))
get_elem?-Grow (s ∷ ss) (t ∷ ts) (suc i) g e d = get_elem?-Grow ss ts i g.1 e d

-- A test that clearing the assigned mark keeps is kept on the whole list.
pub all-reassign :
    (p : TaskStatus → Bool) (clock : ℕ → ℕ) (i : ℕ) (ss : List TaskStatus)
    → ((s : TaskStatus) → p s ≡ true → p (record s { assigned = false }) ≡ true)
    → all p ss ≡ true
    → all p (reassign clock i ss) ≡ true
unfolding reassign
all-reassign p clock i [] keep h = refl
all-reassign p clock i (s ∷ ss) keep h =
    ground (arith, keep s, all-reassign p clock (suc i) ss keep (ground arith))
