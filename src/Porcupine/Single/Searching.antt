-- ===== src/Porcupine/Single/Searching.antt =====
-- Lab 2/src/porcupine/checker.go: what holds at each round of checkSingle, and that a round keeps it.
use mathlib.Core.Path.{subst}
use mathlib.Core.List.{append_assoc}
use tda596_labs.Base.{
  suc, ◌+◌, ◌≤◌, ℕ, ◌*◌, ◌<◌, ◌≡◌, refl, sym, ap, ◌∙◌, inl, inr, true, List, [], ◌∷◌, ◌++◌, All,
  length, Bool-cases,
}
use tda596_labs.Base.Run.{ok, Returns, Returns-bind}
use tda596_labs.Porcupine.Bitset.{set_bit}
use tda596_labs.Porcupine.Bitset.Laws.{InRange, set_bit-length}
use tda596_labs.Porcupine.Model.{Filled}
use tda596_labs.Porcupine.Entry.{Entry, return_entry}
use tda596_labs.Porcupine.Links.{Node, Links, unlift}
use tda596_labs.Porcupine.Links.Listed.{first, Listed, Listed-split, next-first}
use tda596_labs.Porcupine.Tags.{Tagged, addresses, MatchOf}
use tda596_labs.Porcupine.Laid.{IsLaid, around, addresses-append, lift-IsLaid}
use native.Mathlib.Nat.{le_refl}
use tda596_labs.Porcupine.Single.Budget.{rounds_from, pass_budget, take_budget, length-around}
use tda596_labs.Porcupine.Single.{Search, CacheEntry, cache_contains, cache_add, take_call}
use tda596_labs.Porcupine.Single.Taken.{IsMatched, Chain}

module _ {S V : Type 0} (model : Filled S V) (nodes : List (Node V)) (head : ℕ)
    (good : Entry V → Type 0) (whole : Tagged V) (limit : ℕ) where
  -- The search has passed `seen` and stands before `rest`; it can take no more rounds than the budget.
  pub record IsSearching (budget : ℕ) (s : Search S) : Type 0 where
    pub left : Tagged V
    pub seen : Tagged V
    pub rest : Tagged V
    pub spent : ℕ
    pub chain : Chain model nodes head good whole s.calls s.state left s.links spent
    pub within : rounds_from (length left) (length rest) + spent ≤ budget
    pub laid : IsLaid nodes head good s.links left
    pub split : left ≡ seen ++ rest
    pub passed : All (IsMatched model nodes head good) seen
    pub at : s.entry ≡ first (addresses rest)
    pub size : length s.longest ≡ limit
    pub bits : (q : ℕ) → q < limit → InRange q s.linearized

  -- What follows a node of the list.
  pub next_rest :
      (l : Links) (seen : Tagged V) (x : ℕ) (c : Entry V) (rest : Tagged V)
      → IsLaid nodes head good l (seen ++ (x, c) ∷ rest)
      → l.next x ≡ first (addresses rest)
  next_rest l seen x c rest h = next-first l x (addresses rest) (
      Listed-split l head (addresses seen) x (addresses rest)
        (subst (Listed l head) (addresses-append seen ((x, c) ∷ rest)) h.listed))

  pub All-last :
      (P : ℕ × Entry V → Type 0) (ts : Tagged V) (t : ℕ × Entry V)
      → All P ts
      → P t
      → All P (ts ++ t ∷ [])
  All-last P [] t h p = (p, tt)
  All-last P (u ∷ ts) t h p = (h.0, All-last P ts t h.1 p)

  module _ (budget : ℕ) (s : Search S) (h : IsSearching (suc budget) s) (x : ℕ) (c : Entry V)
      (rest : Tagged V) (here : h.rest ≡ (x, c) ∷ rest) (m : ℕ) (matched : MatchOf nodes x m) where
    pub split_here : h.left ≡ h.seen ++ (x, c) ∷ rest
    split_here = h.split ∙ ap (λ q. h.seen ++ q) here

    pub IsLaid-here : IsLaid nodes head good s.links (h.seen ++ (x, c) ∷ rest)
    IsLaid-here = subst (IsLaid nodes head good s.links) split_here h.laid

    within_here : rounds_from (length h.left) (suc (length rest)) + h.spent ≤ suc budget
    within_here =
        subst (λ q. rounds_from (length h.left) (length q) + h.spent ≤ suc budget) here h.within

    -- The call is passed.
    pub pass-IsSearching : IsSearching budget (record s { entry = s.links.next x })
    pass-IsSearching = record {
      left = h.left;
      seen = h.seen ++ (x, c) ∷ [];
      rest = rest;
      spent = h.spent;
      chain = h.chain;
      within = pass_budget (length h.left) (length rest) h.spent budget within_here;
      laid = h.laid;
      split = split_here ∙ sym (append_assoc h.seen ((x, c) ∷ []) rest);
      passed = All-last (IsMatched model nodes head good) h.seen (x, c) h.passed (m, matched);
      at = next_rest s.links h.seen x c rest IsLaid-here;
      size = h.size;
      bits = h.bits;
    }

    module _ (mid : Tagged V) (r : Entry V) (after : Tagged V)
        (behind : rest ≡ mid ++ (m, r) ∷ after) (is_return : r.kind ≡ return_entry)
        (same_id : r.id ≡ c.id) (new_state : S)
        (fits : model.step s.state c.value r.value ≡ ok (true, new_state)) where
      split_around : h.left ≡ around h.seen (x, c) mid (m, r) after
      split_around = split_here ∙ ap (λ q. h.seen ++ (x, c) ∷ q) behind

      IsLaid-around : IsLaid nodes head good s.links (around h.seen (x, c) mid (m, r) after)
      IsLaid-around = subst (IsLaid nodes head good s.links) split_around h.laid

      within_around :
          rounds_from (length ((h.seen ++ mid) ++ after)) (length ((h.seen ++ mid) ++ after))
            + (rounds_from
                  (length (around h.seen (x, c) mid (m, r) after))
                  (length (mid ++ (m, r) ∷ after))
                + h.spent)
          ≤ budget
      within_around =
          let n = length ((h.seen ++ mid) ++ after) in
          let two_more = length-around h.seen (x, c) mid (m, r) after in
          let whole_size : length h.left ≡ suc (suc n) = ap length split_around ∙ two_more in
          subst
            (λ q.
              rounds_from n n + (rounds_from q (length (mid ++ (m, r) ∷ after)) + h.spent) ≤ budget)
            (sym two_more)
            (take_budget n (length (mid ++ (m, r) ∷ after)) h.spent budget (
              subst (λ q. rounds_from (suc (suc n)) (suc (length q)) + h.spent ≤ suc budget) behind
                (subst (λ q. rounds_from q (suc (length rest)) + h.spent ≤ suc budget) whole_size
                  within_here)))

      -- The call and its return are taken out of the list.
      taken-IsSearching :
          (linearized : List ℕ) (cache : List (ℕ × List (CacheEntry S)))
          → length linearized ≡ length s.linearized
          → (links : Links) → IsLaid nodes head good links ((h.seen ++ mid) ++ after)
          → unlift x m links ≡ ok s.links
          → IsSearching budget (record s {
            links = links;
            entry = links.next head;
            state = new_state;
            linearized = linearized;
            cache = cache;
            calls = (x, s.state) ∷ s.calls;
          })
      taken-IsSearching linearized cache same_length links laid undo = record {
        left = (h.seen ++ mid) ++ after;
        seen = [];
        rest = (h.seen ++ mid) ++ after;
        spent =
            rounds_from (length (around h.seen (x, c) mid (m, r) after))
              (length (mid ++ (m, r) ∷ after))
            + h.spent;
        chain = (
          record {
            before = h.seen;
            mid = mid;
            after = after;
            match = m;
            call = c;
            return = r;
            old = s.links;
            matched = matched;
            left_eq = refl;
            passed = h.passed;
            is_return = is_return;
            same_id = same_id;
            fits = fits;
            laid = IsLaid-around;
            undo = undo;
          },
          h.spent,
          subst (λ q. Chain model nodes head good whole s.calls s.state q s.links h.spent)
              split_around h.chain,
          le_refl (
              rounds_from (length (around h.seen (x, c) mid (m, r) after))
                (length (mid ++ (m, r) ∷ after))
              + h.spent),
        );
        within = within_around;
        laid = laid;
        split = refl;
        passed = tt;
        at = next-first links head (addresses ((h.seen ++ mid) ++ after)) laid.listed;
        size = h.size;
        bits = λ q below. subst (λ k. q < k * 64) (sym same_length) (h.bits q below);
      }

      pub take_call-IsSearching :
          (id : ℕ)
          → id < limit
          → Returns (IsSearching budget) (take_call model nodes head x m id new_state s)
      unfolding take_call
      take_call-IsSearching id small =
          Returns-bind (λ b. length b ≡ length s.linearized) (IsSearching budget)
            (set_bit s.linearized id) _ (set_bit-length s.linearized id (h.bits id small))
            (λ new_linearized same.
              let cached =
                cache_contains model s.cache
                  (record { linearized = new_linearized; state = new_state }) in
              elim (Bool-cases cached) [
                | inl yes_cached ↦ rw (yes_cached) pass-IsSearching
                | inr not_cached ↦
                    let (links, lifted, undo, laid) =
                      lift-IsLaid nodes head good s.links h.seen x c mid m r after matched
                        IsLaid-around in
                    rw (not_cached, lifted)
                      (Returns-bind (λ b. length b ≡ length s.linearized) (IsSearching budget)
                        (set_bit s.linearized id) _
                        (set_bit-length s.linearized id (h.bits id small))
                        (λ linearized same_length.
                          taken-IsSearching linearized
                            (cache_add model
                              (record { linearized = new_linearized; state = new_state }) s.cache)
                            same_length links laid undo))
              ])
