-- ===== src/Porcupine/Single/Rounds.antt =====
-- Lab 2/src/porcupine/checker.go: one round of checkSingle ends well and keeps what holds of the search.
use mathlib.Core.Path.{subst}
use mathlib.Core.List.{append_assoc, append-nil}
use tda596_labs.Base.{
  ℕ, suc, ◌*◌, ◌<◌, ◌≡◌, refl, sym, ap, ◌∙◌, inl, inr, Bool, Option, none, some, List, [], ◌∷◌,
  ◌++◌, get_elem?, All, length, Bool-cases, Option-cases,
}
use tda596_labs.Base.Run.{ok, ◌>>=◌, Returns, Returns-bind, Returns-cases}
use tda596_labs.Porcupine.Bitset.{clear_bit}
use tda596_labs.Porcupine.Bitset.Laws.{clear_bit-length}
use tda596_labs.Porcupine.Model.{Filled}
use tda596_labs.Porcupine.Entry.{Entry, call_entry, return_entry}
use tda596_labs.Porcupine.Links.{Node}
use tda596_labs.Porcupine.Links.Listed.{Listed, first, next-first, some_eq}
use tda596_labs.Porcupine.Tags.{
  Tagged, addresses, IsDescribed, MatchOf, All-at, All-In, Paired, Paired-at, split-In, IsTarget-of,
}
use tda596_labs.Porcupine.Laid.{IsHistory, around}
use tda596_labs.Porcupine.Single.Budget.{back_budget}
use tda596_labs.Porcupine.Single.{Search, try_call, note_partial, put_back, backtrack, round}
use tda596_labs.Porcupine.Single.Taken.{IsMatched, Chain}
use tda596_labs.Porcupine.Single.Noting.{id-lt, note_partial-IsSearching}
use tda596_labs.Porcupine.Single.Searching.{
  IsSearching, next_rest, All-last, pass-IsSearching, take_call-IsSearching, IsLaid-here,
}

-- What holds of the search if it goes on.
abbrev pub Continues : {S : Type 0} → (Search S → Type 0) → Option (Search S) → Type 0
Continues P none = Unit
Continues P (some s) = P s

module _ {S V : Type 0} (model : Filled S V) (nodes : List (Node V)) (head : ℕ)
    (good : Entry V → Type 0) (whole : Tagged V) (limit : ℕ) (small : All (λ n. n.id < limit) nodes)
    (can_step : (s : S) (c r : Entry V)
      → good c
      → good r
      → c.kind ≡ call_entry
      → r.kind ≡ return_entry
      → Returns (λ q. Unit) (model.step s c.value r.value))
    (budget : ℕ) where
  try_call-IsSearching :
      (s : Search S) (h : IsSearching model nodes head good whole limit (suc budget) s) (x : ℕ)
      (c : Entry V) (rest : Tagged V)
      → h.rest ≡ (x, c) ∷ rest
      → (node : Node V) (m : ℕ) → get_elem? nodes x ≡ some node
      → node.match ≡ some m
      → Returns
          (IsSearching model nodes head good whole limit budget)
          (try_call model nodes head x node m s)
  unfolding try_call
  try_call-IsSearching s h x c rest here node m there match =
      let matched : MatchOf nodes x m = (node, there, match) in
      let laid = IsLaid-here model nodes head good whole limit budget s h x c rest here m matched in
      let (r, in_rest, is_return, same_id) =
        Paired-at nodes h.seen (x, c) rest laid.history.paired m matched in
      let (mid, after, behind) = split-In m r rest in_rest in
      let called = All-at (IsDescribed nodes) h.seen (x, c) rest laid.history.described in
      let regroup : h.seen ++ (x, c) ∷ rest ≡ (h.seen ++ (x, c) ∷ mid) ++ (m, r) ∷ after =
        ap (λ q. h.seen ++ (x, c) ∷ q) behind
        ∙ sym (append_assoc h.seen ((x, c) ∷ mid) ((m, r) ∷ after)) in
      let returned : IsDescribed nodes (m, r) =
        All-at (IsDescribed nodes) (h.seen ++ (x, c) ∷ mid) (m, r) after
          (subst (All (IsDescribed nodes)) regroup laid.history.described) in
      let input : node.value ≡ c.value =
        ap (λ q. q.value) (some_eq (sym there ∙ called.there)) ∙ called.same_value in
      let (is_call, target) = IsTarget-of nodes x c m called matched in
      let typed_r : good r =
        All-at (λ t. good t.1) (h.seen ++ (x, c) ∷ mid) (m, r) after
          (subst (All (λ t. good t.1)) regroup laid.history.typed) in
      let ((fits, new_state), stepped, tt) =
        Returns-cases (λ q. Unit) (model.step s.state c.value r.value)
          (can_step s.state c r (All-at (λ t. good t.1) h.seen (x, c) rest laid.history.typed)
            typed_r is_call is_return) in
      let stepped' : model.step s.state node.value returned.node.value ≡ ok (fits, new_state) =
        (λ k. model.step s.state (input k) (returned.same_value k)) ∙ stepped in
      elim (Bool-cases fits) [
        | inl true_step ↦
            rw (returned.there, stepped', true_step)
              (take_call-IsSearching model nodes head good whole limit budget s h x c rest here m
                matched mid r after behind is_return same_id new_state
                (stepped ∙ ap (λ b. ok (b, new_state)) true_step) node.id
                (id-lt model nodes head good whole limit small budget nodes x small there))
        | inr false_step ↦
            rw (returned.there, stepped', false_step)
              (pass-IsSearching model nodes head good whole limit budget s h x c rest here m
                matched)
      ]

  put_back-IsSearching :
      (s : Search S) (x : ℕ) (s0 : S) (calls : List (ℕ × S))
      (h : IsSearching model nodes head good whole limit (suc budget) s)
      → s.calls ≡ (x, s0) ∷ calls
      → Returns
          (Continues (IsSearching model nodes head good whole limit budget))
          (put_back model nodes head ((x, s0) ∷ calls) s)
  unfolding put_back
  put_back-IsSearching s x s0 calls h e =
      let (t, spent', chain, frame) =
        subst (λ q. Chain model nodes head good whole q s.state h.left s.links h.spent) e h.chain in
      let (node, there, match) = t.matched in
      let behind = t.mid ++ (t.match, t.return) ∷ t.after in
      rw (there) (
        Returns-bind (λ b. length b ≡ length s.linearized)
          (Continues (IsSearching model nodes head good whole limit budget))
          (clear_bit s.linearized node.id) _
          (clear_bit-length s.linearized node.id (
            h.bits node.id
              (id-lt model nodes head good whole limit small budget nodes x small there)))
          (λ linearized same.
            rw (match, t.undo)
              (record {
                left = around t.before (x, t.call) t.mid (t.match, t.return) t.after;
                seen = t.before ++ (x, t.call) ∷ [];
                rest = behind;
                spent = spent';
                chain = chain;
                within =
                    back_budget (length h.left) (length h.rest)
                      (length (around t.before (x, t.call) t.mid (t.match, t.return) t.after))
                      (length behind) spent' h.spent budget frame h.within;
                laid = t.laid;
                split = sym (append_assoc t.before ((x, t.call) ∷ []) behind);
                passed =
                    All-last model nodes head good whole limit (IsMatched model nodes head good)
                      t.before (x, t.call) t.passed (t.match, t.matched);
                at =
                    next_rest model nodes head good whole limit t.old t.before x t.call behind
                      t.laid;
                size = h.size;
                bits = λ q below. subst (λ k. q < k * 64) (sym same) (h.bits q below);
              })))

  backtrack-IsSearching :
      (compute_partial : Bool) (s : Search S)
      → IsSearching model nodes head good whole limit (suc budget) s
      → Returns
          (Continues (IsSearching model nodes head good whole limit budget))
          (backtrack model nodes head compute_partial s)
  unfolding backtrack
  backtrack-IsSearching compute_partial s h =
      elim s.calls
          as (λ calls.
            s.calls ≡ calls
            → Returns (Continues (IsSearching model nodes head good whole limit budget))
                (elim calls [
                  | [] ↦ ok none
                  | call ∷ calls ↦ do
                    s' ← note_partial model nodes head compute_partial s
                    put_back model nodes head (call ∷ calls) s'
                ])) [
                  | [] ↦ λ e. tt
                  | call ∷ calls ↦ λ e.
                      Returns-bind
                        (λ s'.
                          IsSearching model nodes head good whole limit (suc budget) s'
                          × (s'.calls ≡ s.calls))
                        _ (note_partial model nodes head compute_partial s) _
                        (note_partial-IsSearching model nodes head good whole limit small budget
                          compute_partial s h)
                        (λ s' (h', same). put_back-IsSearching s' call.0 call.1 calls h' (same ∙ e))
                ]
        refl

  -- Behind a call with a match stands its return, which has no match.
  no_last-IsMatched :
      (seen : Tagged V)
      → All (IsMatched model nodes head good) seen
      → All (IsDescribed nodes) seen
      → Paired nodes seen
      → seen ≡ []
  no_last-IsMatched [] passed d p = refl
  no_last-IsMatched ((a, e) ∷ seen) passed d p =
      let (m, match) = passed.0 in
      let (r, in_seen, is_return, same_id) = p.0 m match in
      let (m', match') = All-In (IsMatched model nodes head good) m r seen passed.1 in_seen in
      let (is_call, target) =
        IsTarget-of nodes m r m' (All-In (IsDescribed nodes) m r seen d.1 in_seen) match' in
      absurd (cc)

  -- As long as an entry is left, there is one at the search's position.
  rest-some :
      (s : Search S) (h : IsSearching model nodes head good whole limit (suc budget) s) (i : ℕ)
      → s.links.next head ≡ some i
      → (x : ℕ) × (c : Entry V) × (rest : Tagged V) × (h.rest ≡ (x, c) ∷ rest)
  rest-some s h i some_left =
      elim h.rest
          as (λ rest.
            h.rest ≡ rest
            → (x : ℕ) × (c : Entry V) × (rest' : Tagged V) × (rest ≡ (x, c) ∷ rest')) [
              | [] ↦ λ e.
                  let left : h.left ≡ h.seen =
                    h.split ∙ ap (λ q. h.seen ++ q) e ∙ append-nil h.seen in
                  let history = subst (IsHistory nodes head good) left h.laid.history in
                  let empty : h.left ≡ [] =
                    left ∙ no_last-IsMatched h.seen h.passed history.described history.paired in
                  let nothing : none ≡ some i =
                    sym (
                      next-first s.links head []
                        (subst (λ q. Listed s.links head (addresses q)) empty h.laid.listed))
                    ∙ some_left in
                  absurd (cc)
              | t ∷ rest ↦ λ e. (t.0, t.1, rest, refl)
            ]
        refl

  round_node :
      (compute_partial : Bool) (s : Search S)
      (h : IsSearching model nodes head good whole limit (suc budget) s) (x : ℕ) (c : Entry V)
      (rest : Tagged V) (node : Node V)
      → h.rest ≡ (x, c) ∷ rest
      → get_elem? nodes x ≡ some node
      → Returns
          (Continues (IsSearching model nodes head good whole limit budget))
          (round model nodes head compute_partial s)
  unfolding round
  round_node compute_partial s h x c rest node here there =
      let entry : s.entry ≡ some x = h.at ∙ ap (λ q. first (addresses q)) here in
      elim (Option-cases node.match) [
        | inl no_match ↦ rw (entry, there, no_match) (backtrack-IsSearching compute_partial s h)
        | inr (m, match) ↦
            rw (entry, there, match)
              (Returns-bind (IsSearching model nodes head good whole limit budget)
                (Continues (IsSearching model nodes head good whole limit budget))
                (try_call model nodes head x node m s) _
                (try_call-IsSearching s h x c rest here node m there match) (λ s' h'. h'))
      ]

  pub round-IsSearching :
      (compute_partial : Bool) (s : Search S) (i : ℕ)
      → IsSearching model nodes head good whole limit (suc budget) s
      → s.links.next head ≡ some i
      → Returns
          (Continues (IsSearching model nodes head good whole limit budget))
          (round model nodes head compute_partial s)
  round-IsSearching compute_partial s i h some_left =
      let (x, c, rest, here) = rest-some s h i some_left in
      let split : h.left ≡ h.seen ++ (x, c) ∷ rest = h.split ∙ ap (λ q. h.seen ++ q) here in
      let called : IsDescribed nodes (x, c) =
        All-at (IsDescribed nodes) h.seen (x, c) rest
          (subst (All (IsDescribed nodes)) split h.laid.history.described) in
      round_node compute_partial s h x c rest called.node here called.there
