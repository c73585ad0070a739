-- ===== src/Porcupine/Parallel/Sound.antt =====
-- Lab 2/src/porcupine/checker.go: checkParallel answers Ok only if each part of the history is
-- linearizable.
use tda596_labs.Base.{
  ℕ, zero, suc, ◌+◌, ◌/◌, ◌<◌, ◌≡◌, refl, ap, ◌∙◌, ◌⊎◌, inl, inr, arith, Bool, true, false, ◌&&◌,
  not, Option, none, some, List, [], ◌∷◌, All, leb, ltb, length, Bool-cases,
}
use tda596_labs.Base.Run.{ok, Returns, Returns-bind}
use tda596_labs.Porcupine.Model.{Filled}
use tda596_labs.Porcupine.Entry.{Entry, call_entry, return_entry}
use tda596_labs.Porcupine.Spec.{IsCalledOnce, Linearizes}
use tda596_labs.Porcupine.Single.{answer, out_of_fuel, Longest, check_single}
use tda596_labs.Porcupine.Single.Budget.{most_rounds}
use tda596_labs.Porcupine.Single.Sound.{IsSound, check_single-IsSound}
use tda596_labs.Porcupine.Parallel.{
  CheckResult, check_unknown, check_ok, check_illegal, Arrival, arrived, timed_out, take_at,
  result_of, wait, check_parallel,
}

-- What holds of the goroutines that are left when one is taken from a list.
abbrev pub IsTaken : {A : Type 0} → List A → A → List A → Type 1
IsTaken {A} xs x rest =
    ((P : A → Type 0) → (All P xs → P x × All P rest) × (P x × All P rest → All P xs))
    × (length xs ≡ suc (length rest))

pub take_at-cases :
    {A : Type 0} (p : ℕ) (xs : List A)
    → (take_at p xs ≡ none)
      ⊎ ((x : A) × (rest : List A) × (take_at p xs ≡ some (x, rest)) × IsTaken xs x rest)
take_at-cases p [] = inl refl
take_at-cases zero (x ∷ xs) = inr (x, xs, refl, ((λ P. ((λ h. h), (λ h. h))), refl))
take_at-cases (suc p) (y ∷ xs) = elim (take_at-cases p xs) [
  | inl e ↦ inl (rw (e) refl)
  | inr (x, rest, e, (parts, size)) ↦ inr (
    x,
    y ∷ rest,
    rw (e) refl,
    (
      λ P. (
        λ h. let (own, others) = (parts P).0 h.1 in (own, (h.0, others)),
        λ h. (h.1.0, (parts P).1 (h.0, h.1.1)),
      ),
      ap suc size,
    ),
  )
]

module _ {V : Type 0} (good : Entry V → Type 0) where
  -- What checkSingle needs of a history.
  pub record IsComplete (sub : List (Entry V)) : Type 0 where
    pub once : IsCalledOnce sub
    pub small : All (λ e. e.id < length sub / 2) sub
    pub typed : All good sub

module _ {S V : Type 0} (model : Filled S V) where
  abbrev pub IsLinearizable : List (Entry V) → Type 0
  IsLinearizable sub = (ids : List ℕ) × Linearizes model.step model.init sub ids

  abbrev pub IsRight : List (List (Entry V)) → Option CheckResult → Type 0
  IsRight history none = Unit
  IsRight history (some check_unknown) = Unit
  IsRight history (some check_ok) = All IsLinearizable history
  IsRight history (some check_illegal) = Unit

module _ {S V : Type 0} (model : Filled S V) (good : Entry V → Type 0)
    (can_step : (s : S) (c r : Entry V)
      → good c
      → good r
      → c.kind ≡ call_entry
      → r.kind ≡ return_entry
      → Returns (λ q. Unit) (model.step s c.value r.value)) where
  -- The parts that have been heard of are linearizable if all results were true.
  abbrev Heard : Bool → List (List (Entry V)) → List (List (Entry V)) → Type 0
  Heard false pending history = Unit
  Heard true pending history =
      All (IsLinearizable model) pending → All (IsLinearizable model) history

  Heard-next :
      (all_ok result : Bool) (longest : Longest) (n : ℕ) (lack : Type 0) (sub : List (Entry V))
      (pending others history : List (List (Entry V)))
      → IsTaken pending sub others
      → IsSound model sub n lack (answer result longest)
      → Heard all_ok pending history
      → Heard (all_ok && result) others history
  Heard-next false result longest n lack sub pending others history taken sound h = tt
  Heard-next true false longest n lack sub pending others history taken sound h = tt
  Heard-next true true longest n lack sub pending others history taken (seq, eq, lin) h =
      λ rest. h ((taken.0 (IsLinearizable model)).1 ((seq, lin), rest))

  none_left : (xs : List (List (Entry V))) → length xs ≡ 0 → All (IsLinearizable model) xs
  none_left [] e = tt
  none_left (x ∷ xs) e = absurd (omega arith)

  result-IsRight :
      (b : Bool) (others history : List (List (Entry V)))
      → length others ≡ 0
      → Heard b others history
      → IsRight model history (some (result_of b false))
  result-IsRight false others history empty h = tt
  result-IsRight true others history empty h = h (none_left others empty)

  all_heard :
      (total count left : ℕ) → leb total (suc count) ≡ true → total ≡ count + suc left → left ≡ 0
  all_heard total count left enough size = grind arith

  illegal-IsRight :
      (b compute_info : Bool) (history : List (List (Entry V)))
      → (not b && not compute_info) ≡ true
      → IsRight model history (some (result_of b false))
  illegal-IsRight false compute_info history e = tt
  illegal-IsRight true compute_info history e = absurd (cc)

  late-IsRight :
      (b : Bool) (history : List (List (Entry V))) → IsRight model history (some (result_of b true))
  late-IsRight false history = tt
  late-IsRight true history = tt

  module _ (fuel : ℕ) (compute_info : Bool) (timeout : ℕ) (history : List (List (Entry V)))
      (total : ℕ) where
    wait-IsRight :
        (arrivals : List Arrival) (pending : List (List (Entry V))) (count : ℕ) (all_ok : Bool)
        → total ≡ count + length pending
        → All (IsComplete good) pending
        → Heard all_ok pending history
        → Returns
            (IsRight model history)
            (wait model fuel compute_info timeout total arrivals pending count all_ok)
    unfolding wait
    wait-IsRight [] pending count all_ok size complete h = tt
    wait-IsRight (timed_out ∷ arrivals) pending count all_ok size complete h =
        elim (Bool-cases (ltb 0 timeout)) [
          | inl some_timeout ↦ rw (some_timeout, wait) (late-IsRight all_ok history)
          | inr no_timeout ↦
              rw (no_timeout, wait) (wait-IsRight arrivals pending count all_ok size complete h)
        ]
    wait-IsRight (arrived p kill ∷ arrivals) pending count all_ok size complete h =
        elim (take_at-cases p pending) [
          | inl gone ↦ rw (gone, wait) (wait-IsRight arrivals pending count all_ok size complete h)
          | inr (sub, others, taken_eq, taken) ↦
              let (own, rest) = (taken.0 (IsComplete good)).0 complete in
              rw (taken_eq, wait)
                (Returns-bind (IsSound model sub (length sub / 2) (fuel < most_rounds (length sub)))
                  (IsRight model history) (check_single model fuel sub compute_info kill) _
                  (check_single-IsSound model good can_step fuel sub compute_info kill own.once
                    own.small own.typed)
                  (λ verdict sound.
                    elim verdict
                        as (λ q.
                          IsSound model sub (length sub / 2) (fuel < most_rounds (length sub)) q
                          → Returns (IsRight model history) (elim q [
                            | out_of_fuel ↦
                                wait model fuel compute_info timeout total arrivals pending count
                                  all_ok
                            | answer result longest ↦
                                elim (not (all_ok && result) && not compute_info) [
                                  | true ↦ ok (some (result_of (all_ok && result) false))
                                  | false ↦ elim (leb total (suc count)) [
                                    | true ↦ ok (some (result_of (all_ok && result) false))
                                    | false ↦
                                        wait model fuel compute_info timeout total arrivals others
                                          (suc count) (all_ok && result)
                                  ]
                                ]
                          ])) [
                            | out_of_fuel ↦ λ none_yet.
                                wait-IsRight arrivals pending count all_ok size complete h
                            | answer result longest ↦ λ known.
                                let heard =
                                  Heard-next all_ok result longest (length sub / 2)
                                    (fuel < most_rounds (length sub)) sub pending others history
                                    taken known h in
                                elim (Bool-cases (not (all_ok && result) && not compute_info)) [
                                  | inl illegal ↦ rw (illegal) (
                                      illegal-IsRight (all_ok && result) compute_info history
                                        illegal)
                                  | inr go_on ↦ elim (Bool-cases (leb total (suc count))) [
                                    | inl last ↦
                                        let empty : length others ≡ 0 =
                                          all_heard total count (length others) last
                                            (size ∙ ap (λ n. count + n) taken.1) in
                                        rw (go_on, last)
                                          (result-IsRight (all_ok && result) others history empty
                                            heard)
                                    | inr more ↦
                                        rw (go_on, more)
                                          (wait-IsRight arrivals others (suc count)
                                            (all_ok && result) (omega (arith, size, taken.1)) rest
                                            heard)
                                  ]
                                ]
                          ]
                      sound))
        ]

  -- checkParallel ends without a panic, if each part of the history is complete: no two of its calls have
  -- the same number and the numbers are below half of its length. The results may arrive in any order.
  -- If checkParallel answers Ok, the operations of each part can take effect one at a time.
  pub check_parallel-IsRight :
      (fuel : ℕ) (compute_info : Bool) (timeout : ℕ) (history : List (List (Entry V)))
      (arrivals : List Arrival)
      → All (IsComplete good) history
      → Returns
          (IsRight model history)
          (check_parallel model fuel compute_info timeout history arrivals)
  unfolding check_parallel
  check_parallel-IsRight fuel compute_info timeout history arrivals complete =
      wait-IsRight fuel compute_info timeout history (length history) arrivals history 0 true
        (omega arith) complete (λ h. h)

-- Without a timeout and without a part of the history, checkParallel waits for ever: no goroutine is there
-- to send it a result.
pub no_parts_no_answer :
    {S V : Type 0} (model : Filled S V) (fuel : ℕ) (compute_info : Bool) (arrivals : List Arrival)
    → check_parallel model fuel compute_info 0 [] arrivals ≡ ok none
unfolding check_parallel wait
no_parts_no_answer model fuel compute_info arrivals = waits arrivals
  where
    waits :
        (arrivals : List Arrival) → wait model fuel compute_info 0 0 arrivals [] 0 true ≡ ok none
    waits [] = refl
    waits (timed_out ∷ arrivals) = waits arrivals
    waits (arrived p kill ∷ arrivals) = waits arrivals
