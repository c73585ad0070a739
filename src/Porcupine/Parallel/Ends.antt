-- ===== src/Porcupine/Parallel/Ends.antt =====
-- Lab 2/src/porcupine/checker.go: checkParallel ends if there is a part to check.
use tda596_labs.Base.{
  ℕ, zero, suc, ◌+◌, ◌≤◌, ◌≡◌, refl, sym, ap, ◌∙◌, ◌⊎◌, inl, inr, arith, Bool, true, false, ◌&&◌,
  not, Option, none, some, List, [], ◌∷◌, All, leb, length, Bool-cases,
}
use tda596_labs.Base.Run.{Run, ok, Returns}
use tda596_labs.Porcupine.Model.{Filled}
use tda596_labs.Porcupine.Entry.{Entry, call_entry, return_entry}
use tda596_labs.Porcupine.Single.{answer, Longest, check_single}
use tda596_labs.Porcupine.Single.Budget.{most_rounds}
use tda596_labs.Porcupine.Single.Ends.{check_single_ends}
use tda596_labs.Porcupine.Parallel.{
  CheckResult, Arrival, arrived, timed_out, take_at, result_of, wait, check_parallel,
}
use tda596_labs.Porcupine.Parallel.Sound.{IsComplete, take_at-cases}

-- The results of n goroutines arrive, in any order.
abbrev pub AllArrive : ℕ → List Arrival → Type 0
AllArrive zero arrivals = Unit
AllArrive (suc n) [] = ⊥
AllArrive (suc n) (timed_out ∷ arrivals) = ⊥
AllArrive (suc n) (arrived p kill ∷ arrivals) = (p ≤ n) × AllArrive n arrivals

after_some :
    {A : Type 0} (xs : List A) (p : ℕ) (x : A) {y : A} {rest : List A}
    → take_at p xs ≡ some (y, rest)
    → take_at (suc p) (x ∷ xs) ≡ some (y, x ∷ rest)
after_some xs p x e = rw (e) refl

take_at-none : {A : Type 0} (p : ℕ) (xs : List A) → take_at p xs ≡ none → length xs ≤ p
take_at-none p [] e = omega arith
take_at-none zero (x ∷ xs) e = absurd (cc)
take_at-none {A} (suc p) (x ∷ xs) e = elim (take_at-cases p xs) [
  | inl gone ↦ omega (arith, take_at-none p xs gone)
  | inr (y, rest, taken, parts) ↦ let some_there = sym e ∙ after_some xs p x taken in absurd (cc)
]

not_last :
    (total count left : ℕ) → leb total (suc count) ≡ false → total ≡ count + suc left → 1 ≤ left
not_last total count left more size = grind arith

module _ {S V : Type 0} (model : Filled S V) (good : Entry V → Type 0)
    (can_step : (s : S) (c r : Entry V)
      → good c
      → good r
      → c.kind ≡ call_entry
      → r.kind ≡ return_entry
      → Returns (λ q. Unit) (model.step s c.value r.value))
    (fuel : ℕ) (compute_info : Bool) (timeout total : ℕ) where
  -- A part that checkSingle can check with this fuel.
  abbrev IsReady : List (Entry V) → Type 0
  IsReady sub = IsComplete good sub × (most_rounds (length sub) ≤ fuel)

  -- What the loop does with a result.
  abbrev go_on_with : List Arrival → List (List (Entry V)) → ℕ → Bool → Run (Option CheckResult)
  go_on_with arrivals others count all_ok = elim (not all_ok && not compute_info) [
    | true ↦ ok (some (result_of all_ok false))
    | false ↦ elim (leb total (suc count)) [
      | true ↦ ok (some (result_of all_ok false))
      | false ↦ wait model fuel compute_info timeout total arrivals others (suc count) all_ok
    ]
  ]

  wait-arrived :
      (p : ℕ) (kill : ℕ → Bool) (arrivals : List Arrival) (pending : List (List (Entry V)))
      (count : ℕ) (all_ok : Bool) (sub : List (Entry V)) (others : List (List (Entry V)))
      (result : Bool) (longest : Longest)
      → take_at p pending ≡ some (sub, others)
      → check_single model fuel sub compute_info kill ≡ ok (answer result longest)
      → wait model fuel compute_info timeout total (arrived p kill ∷ arrivals) pending count all_ok
        ≡ go_on_with arrivals others count (all_ok && result)
  unfolding wait
  wait-arrived p kill arrivals pending count all_ok sub others result longest taken checked =
      rw (taken, wait, checked) refl

  -- The loop ends here, or goes on with others that have not been heard of.
  go_on-cases :
      (arrivals : List Arrival) (others : List (List (Entry V))) (count : ℕ) (all_ok : Bool)
      → total ≡ count + suc (length others)
      → (go_on_with arrivals others count all_ok ≡ ok (some (result_of all_ok false)))
        ⊎ ((1 ≤ length others)
            × (go_on_with arrivals others count all_ok
                ≡ wait model fuel compute_info timeout total arrivals others (suc count) all_ok))
  go_on-cases arrivals others count all_ok size =
      elim (Bool-cases (not all_ok && not compute_info)) [
        | inl illegal ↦ inl (rw (go_on_with, illegal) refl)
        | inr legal ↦ elim (Bool-cases (leb total (suc count))) [
          | inl last ↦ inl (rw (go_on_with, legal, last) refl)
          | inr more ↦
              inr
                (not_last total count (length others) more size, rw (go_on_with, legal, more) refl)
        ]
      ]

  wait_ends :
      (n : ℕ) (arrivals : List Arrival) (pending : List (List (Entry V))) (count : ℕ)
      (all_ok : Bool)
      → 1 ≤ length pending
      → length pending ≡ n
      → total ≡ count + length pending
      → All IsReady pending
      → AllArrive n arrivals
      → (result : CheckResult) × (wait model fuel compute_info timeout total arrivals pending count
            all_ok
          ≡ ok (some result))
  wait_ends zero arrivals pending count all_ok some_left len size ready arrive =
      absurd (omega arith)
  wait_ends (suc n) [] pending count all_ok some_left len size ready arrive = absurd arrive
  wait_ends (suc n) (timed_out ∷ arrivals) pending count all_ok some_left len size ready arrive =
      absurd arrive
  wait_ends (suc n) (arrived p kill ∷ arrivals) pending count all_ok some_left len size ready
        arrive =
      elim (take_at-cases p pending) [
        | inl gone ↦ let below = arrive.0 in absurd (omega (arith, take_at-none p pending gone))
        | inr (sub, others, taken_eq, taken) ↦
            let ((own, enough), rest) = (taken.0 IsReady).0 ready in
            let (result, longest, checked) =
              check_single_ends model good can_step fuel sub compute_info kill own.once own.small
                own.typed enough in
            let next =
              wait-arrived p kill arrivals pending count all_ok sub others result longest taken_eq
                checked in
            elim (go_on-cases arrivals others count (all_ok && result)
              (size ∙ ap (λ (k : ℕ). count + k) taken.1)) [
                | inl ended ↦ (result_of (all_ok && result) false, next ∙ ended)
                | inr (more_left, same) ↦
                    let (last, ends) =
                      wait_ends n arrivals others (suc count) (all_ok && result) more_left
                        (omega (arith, taken.1, len)) (omega (arith, size, taken.1)) rest
                        arrive.1 in
                    (last, next ∙ same ∙ ends)
              ]
      ]

-- checkParallel answers if there is a part to check and the results of all goroutines arrive, in any order.
-- Each part is complete: no two of its calls have the same number, the numbers are below half of its
-- length, and the model can step with the values of any call and any return. The fuel is at least
-- most_rounds of each part's length.
pub check_parallel_ends :
    {S V : Type 0} (model : Filled S V) (good : Entry V → Type 0)
    → ((s : S) (c r : Entry V)
        → good c
        → good r
        → c.kind ≡ call_entry
        → r.kind ≡ return_entry
        → Returns (λ q. Unit) (model.step s c.value r.value))
    → (fuel : ℕ) (compute_info : Bool) (timeout : ℕ) (history : List (List (Entry V)))
      (arrivals : List Arrival)
    → 1 ≤ length history
    → All (IsComplete good) history
    → All (λ sub. most_rounds (length sub) ≤ fuel) history
    → AllArrive (length history) arrivals
    → (result : CheckResult) × (check_parallel model fuel compute_info timeout history arrivals
        ≡ ok (some result))
unfolding check_parallel
check_parallel_ends {V} model good can_step fuel compute_info timeout history arrivals some_part
      complete enough arrive =
    wait_ends model good can_step fuel compute_info timeout (length history) (length history)
      arrivals history 0 true some_part refl (omega arith) (both history complete enough) arrive
  where
    both :
        (subs : List (List (Entry V)))
        → All (IsComplete good) subs
        → All (λ sub. most_rounds (length sub) ≤ fuel) subs
        → All (λ sub. IsComplete good sub × (most_rounds (length sub) ≤ fuel)) subs
    both [] h k = tt
    both (sub ∷ subs) h k = ((h.0, k.0), both subs h.1 k.1)
