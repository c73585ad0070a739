-- ===== src/Porcupine/Single/Budget.antt =====
-- How many rounds checkSingle of Lab 2/src/porcupine/checker.go can take.
use native.Mathlib.Nat.{suc-mul}
use tda596_labs.Base.{
  ℕ, zero, suc, ◌+◌, ◌*◌, ◌≤◌, ◌≡◌, refl, arith, List, ◌∷◌, ◌++◌, length, length-append,
}

-- Enough rounds for a list of n entries, from its start.
abbrev pub most_rounds : ℕ → ℕ
most_rounds zero = 1
most_rounds (suc n) = suc n * suc (most_rounds n) + 1

-- Enough rounds for a list that has lost an entry.
abbrev rounds_below : ℕ → ℕ
rounds_below zero = 0
rounds_below (suc n) = most_rounds n

-- Enough rounds for a list of n entries with r of them ahead: each may be taken out, which starts the
-- search again on what is left, and then be passed.
abbrev pub rounds_from : ℕ → ℕ → ℕ
rounds_from n r = r * suc (rounds_below n) + 1

pub rounds_from-pos : (n r : ℕ) → 1 ≤ rounds_from n r
rounds_from-pos n r = omega arith

rounds_from-suc : (n r : ℕ) → rounds_from n (suc r) ≡ rounds_from n r + suc (rounds_below n)
rounds_from-suc n r = omega (arith, suc-mul r (suc (rounds_below n)))

pub rounds_from-same : (n : ℕ) → rounds_from n n ≡ most_rounds n
rounds_from-same zero = omega arith
rounds_from-same (suc n) = refl

most_rounds-grow : (n : ℕ) → most_rounds n ≤ most_rounds (suc n)
most_rounds-grow n = omega (arith, suc-mul n (suc (most_rounds n)))

-- An entry is passed.
pub pass_budget :
    (n r spent budget : ℕ)
    → rounds_from n (suc r) + spent ≤ suc budget
    → rounds_from n r + spent ≤ budget
pass_budget n r spent budget h = omega (arith, rounds_from-suc n r)

-- An entry and another one are taken out.
pub take_budget :
    (n r spent budget : ℕ)
    → rounds_from (suc (suc n)) (suc r) + spent ≤ suc budget
    → rounds_from n n + (rounds_from (suc (suc n)) r + spent) ≤ budget
take_budget n r spent budget h =
    omega (arith, rounds_from-suc (suc (suc n)) r, rounds_from-same n, most_rounds-grow n)

-- A call is put back.
pub back_budget :
    (n r m q spent' spent budget : ℕ)
    → rounds_from m q + spent' ≤ spent
    → rounds_from n r + spent ≤ suc budget
    → rounds_from m q + spent' ≤ budget
back_budget n r m q spent' spent budget frame h = omega (arith, rounds_from-pos n r)

-- Two entries and what is around them.
pub length-around {ℓ} :
    {A : Type ℓ} (before : List A) (c : A) (mid : List A) (r : A) (after : List A)
    → length (before ++ c ∷ (mid ++ r ∷ after)) ≡ suc (suc (length ((before ++ mid) ++ after)))
length-around before c mid r after = omega (
  arith,
  length-append before (c ∷ (mid ++ r ∷ after)),
  length-append mid (r ∷ after),
  length-append (before ++ mid) after,
  length-append before mid,
)
