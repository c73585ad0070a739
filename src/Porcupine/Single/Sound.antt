-- ===== src/Porcupine/Single/Sound.antt =====
-- Lab 2/src/porcupine/checker.go: checkSingle answers true only for a history that is linearizable.
use mathlib.Core.Path.{subst}
use mathlib.Core.List.{append-nil}
use tda596_labs.Base.{
  ℕ, zero, suc, ◌/◌, ◌<◌, ◌≡◌, refl, sym, ap, ◌∙◌, inl, inr, arith, Bool, true, false, none, some,
  List, [], ◌∷◌, All, length, replicate, Bool-cases, Option-cases,
}
use tda596_labs.Base.Run.{ok, Returns, Returns-bind, Returns-mono}
use tda596_labs.Porcupine.Model.{Filled}
use tda596_labs.Porcupine.Entry.{Entry, call_entry, return_entry}
use tda596_labs.Porcupine.Links.{Node, make_linked_entries, count_from}
use tda596_labs.Porcupine.Links.Listed.{first, next-first}
use tda596_labs.Porcupine.Spec.{IsCalledOnce, Linearizes, done}
use tda596_labs.Porcupine.Tags.{Tagged, addresses, entries}
use tda596_labs.Porcupine.Linking.{tagged, entries-tagged}
use tda596_labs.Porcupine.Linking.Nodes.{make_linked_entries_lem}
use tda596_labs.Porcupine.Single.{
  Search, Verdict, answer, out_of_fuel, round, search_loop, check_single,
}
use tda596_labs.Porcupine.Single.Budget.{most_rounds, rounds_from-pos}
use tda596_labs.Porcupine.Single.Taken.{Chain, Chain-Linearizes}
use tda596_labs.Porcupine.Single.Searching.{IsSearching}
use tda596_labs.Porcupine.Single.Start.{make_linked_entries-All, count_lem, start-IsSearching}
use tda596_labs.Porcupine.Single.Rounds.{Continues, round-IsSearching}

-- The answer true comes with an order in which the history's operations can take effect, and that
-- order is in each place of `longest`. There is an answer but for a lack of fuel.
abbrev pub IsSound : {S V : Type 0} → Filled S V → List (Entry V) → ℕ → Type 0 → Verdict → Type 0
IsSound model history n lack (answer true longest) =
    (seq : List ℕ) × (longest ≡ replicate n (some seq))
    × Linearizes model.step model.init history seq
IsSound model history n lack (answer false longest) = Unit
IsSound model history n lack out_of_fuel = lack

IsSound-mono :
    {S V : Type 0} (model : Filled S V) (history : List (Entry V)) (n : ℕ) {lack lack' : Type 0}
    → (lack → lack')
    → (v : Verdict) → IsSound model history n lack v
    → IsSound model history n lack' v
IsSound-mono model history n weaken (answer true longest) h = h
IsSound-mono model history n weaken (answer false longest) h = h
IsSound-mono model history n weaken out_of_fuel h = weaken h

module _ {S V : Type 0} (model : Filled S V) (good : Entry V → Type 0)
    (can_step : (s : S) (c r : Entry V)
      → good c
      → good r
      → c.kind ≡ call_entry
      → r.kind ≡ return_entry
      → Returns (λ q. Unit) (model.step s c.value r.value)) where
  module _ (nodes : List (Node V)) (head : ℕ) (whole : Tagged V) (limit : ℕ)
      (small : All (λ n. n.id < limit) nodes) where
    no_more :
        (budget : ℕ) (s : Search S)
        → (h : IsSearching model nodes head good whole limit budget s) → s.links.next head ≡ none
        → h.left ≡ []
    no_more budget s h empty =
        elim h.left as (λ left. h.left ≡ left → left ≡ []) [
          | [] ↦ λ e. refl
          | t ∷ left ↦ λ e.
              let there : none ≡ some t.0 =
                sym empty
                ∙ next-first s.links head (addresses h.left) h.laid.listed
                ∙ ap (λ q. first (addresses q)) e in
              absurd (cc)
        ]
          refl

    -- There is always a round to take.
    no_budget : (s : Search S) → ¬ (IsSearching model nodes head good whole limit 0 s)
    no_budget s h =
        let within = h.within in
        absurd (omega (arith, rounds_from-pos (length h.left) (length h.rest)))

    search_loop-IsSound :
        (fuel budget : ℕ) (compute_partial : Bool) (kill : ℕ → Bool) (s : Search S)
        → IsSearching model nodes head good whole limit budget s
        → Returns
            (IsSound model (entries whole) limit (fuel < budget))
            (search_loop model nodes head fuel compute_partial kill s)
    unfolding search_loop
    search_loop-IsSound fuel zero compute_partial kill s h = absurd (no_budget s h)
    search_loop-IsSound zero (suc budget) compute_partial kill s h = omega arith
    search_loop-IsSound (suc fuel) (suc budget) compute_partial kill s h =
        elim (Option-cases (s.links.next head)) [
          | inl empty ↦
              let left : h.left ≡ [] = no_more (suc budget) s h empty in
              let chain =
                subst (λ q. Chain model nodes head good whole s.calls s.state q s.links h.spent)
                  left h.chain in
              let (seq, eq, lin) =
                Chain-Linearizes model nodes head good whole s.calls s.state [] s.links h.spent []
                  chain done in
              rw (empty, search_loop, eq)
                (
                  seq,
                  ap (λ q. replicate q (some seq)) h.size,
                  subst (Linearizes model.step model.init (entries whole)) (append-nil seq) lin,
                )
          | inr (i, some_left) ↦ elim (Bool-cases (kill fuel)) [
            | inl killed ↦ rw (some_left, search_loop, killed) tt
            | inr alive ↦
                rw (some_left, search_loop, alive)
                  (Returns-bind (Continues (IsSearching model nodes head good whole limit budget))
                    (IsSound model (entries whole) limit (suc fuel < suc budget))
                    (round model nodes head compute_partial s) _
                    (round-IsSearching model nodes head good whole limit small can_step budget
                      compute_partial s i h some_left)
                    (λ next h'.
                      elim next
                          as (λ next.
                            Continues (IsSearching model nodes head good whole limit budget) next
                            → Returns (IsSound model (entries whole) limit (suc fuel < suc budget))
                                (elim next [
                                  | none ↦ ok (answer false s.longest)
                                  | some s' ↦
                                      search_loop model nodes head fuel compute_partial kill s'
                                ])) [
                                  | none ↦ λ n. tt
                                  | some s' ↦ λ n.
                                      Returns-mono
                                        (IsSound model (entries whole) limit (fuel < budget))
                                        (IsSound model (entries whole) limit
                                          (suc fuel < suc budget))
                                        (search_loop model nodes head fuel compute_partial kill s')
                                        (search_loop-IsSound fuel budget compute_partial kill s' n)
                                        (IsSound-mono model (entries whole) limit
                                          (λ short. omega (arith, short)))
                                ]
                        h'))
          ]
        ]

  -- checkSingle ends without a panic, whatever the fuel, on a history in which no two calls have the same
  -- number, the numbers are below half of its length and the model can step with the values of any call
  -- and any return. If it answers true, the operations of the history can take effect one at a time, each
  -- before any that is called after its return, and every entry of the longest sequences is the order in
  -- which they do. It lacks an answer only if the fuel is less than most_rounds of the length.
  pub check_single-IsSound :
      (fuel : ℕ) (history : List (Entry V)) (compute_partial : Bool) (kill : ℕ → Bool)
      → IsCalledOnce history
      → All (λ e. e.id < length history / 2) history
      → All good history
      → Returns
          (IsSound model history (length history / 2) (fuel < most_rounds (length history)))
          (check_single model fuel history compute_partial kill)
  unfolding check_single
  check_single-IsSound fuel history compute_partial kill once small typed =
      let k = make_linked_entries history in
      let linked = make_linked_entries_lem history in
      let n = count_from (length k.nodes) k.root k.links / 2 in
      let half : n ≡ length history / 2 = ap (λ m. m / 2) (count_lem model good history k linked) in
      let small' : All (λ n'. n'.id < n) k.nodes =
        make_linked_entries-All model good n history
          (subst (λ m. All (λ e. e.id < m) history) (sym half) small) in
      subst
        (λ m.
          Returns (IsSound model history m (fuel < most_rounds (length history)))
            (check_single model fuel history compute_partial kill))
        half
        (subst
          (λ es.
            Returns (IsSound model es n (fuel < most_rounds (length history)))
              (check_single model fuel history compute_partial kill))
          (entries-tagged history)
          (search_loop-IsSound k.nodes (length k.nodes) (tagged history) n small' fuel
            (most_rounds (length history)) compute_partial kill _
            (start-IsSearching model good history k n linked once typed)))
