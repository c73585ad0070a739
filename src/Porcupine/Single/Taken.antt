-- ===== src/Porcupine/Single/Taken.antt =====
-- Lab 2/src/porcupine/checker.go: the calls that checkSingle has taken out of the list, and the order of
-- operations that they stand for.
use mathlib.Core.Path.{subst}
use mathlib.Core.List.{append_assoc}
use tda596_labs.Base.{
  ◌+◌, ◌≤◌, length, ℕ, ◌≡◌, refl, sym, ap, ◌∙◌, true, some, List, [], ◌∷◌, ◌++◌, get_elem?, All,
}
use tda596_labs.Base.Run.{ok}
use tda596_labs.Porcupine.Model.{Filled}
use tda596_labs.Porcupine.Entry.{Entry, return_entry}
use tda596_labs.Porcupine.Links.{Node, Links, unlift}
use tda596_labs.Porcupine.Spec.{IsCall, Linearizes, effect}
use tda596_labs.Porcupine.Tags.{
  Tagged, entries, IsDescribed, MatchOf, All-at, All-front, IsTarget-of,
}
use tda596_labs.Porcupine.Laid.{IsLaid, around, entries-append}
use tda596_labs.Porcupine.Single.Budget.{rounds_from}
use tda596_labs.Porcupine.Single.{ids_of}

module _ {S V : Type 0} (model : Filled S V) (nodes : List (Node V)) (head : ℕ)
    (good : Entry V → Type 0) where
  -- An entry with a match; there is one only for calls.
  abbrev pub IsMatched : ℕ × Entry V → Type 0
  IsMatched t = (m : ℕ) × MatchOf nodes t.0 m

  -- The call at node x was taken out in state s0. That led to the state s, the entries that are left
  -- and the links l.
  pub record Taken (x : ℕ) (s0 s : S) (left : Tagged V) (l : Links) : Type 0 where
    pub before : Tagged V
    pub mid : Tagged V
    pub after : Tagged V
    pub match : ℕ
    pub call : Entry V
    pub return : Entry V
    pub old : Links
    pub matched : MatchOf nodes x match
    pub left_eq : left ≡ (before ++ mid) ++ after
    pub passed : All IsMatched before
    pub is_return : return.kind ≡ return_entry
    pub same_id : return.id ≡ call.id
    pub fits : model.step s0 call.value return.value ≡ ok (true, s)
    pub laid : IsLaid nodes head good old (around before (x, call) mid (match, return) after)
    pub undo : unlift x match l ≡ ok old

  pub All-IsCall :
      (ts : Tagged V) → All IsMatched ts → All (IsDescribed nodes) ts → All IsCall (entries ts)
  All-IsCall [] h d = tt
  All-IsCall ((a, e) ∷ ts) h d =
      let (m, match) = h.0 in ((IsTarget-of nodes a e m d.0 match).0, All-IsCall ts h.1 d.1)

  module _ (whole : Tagged V) where
    -- The calls lead from the start of the search, where all entries are left, to this state. The number
    -- is enough for the rounds that are left once they are put back.
    abbrev pub Chain : List (ℕ × S) → S → Tagged V → Links → ℕ → Type 0
    Chain [] s left l spent = (s ≡ model.init) × (left ≡ whole)
    Chain ((x, s0) ∷ calls) s left l spent =
        (t : Taken x s0 s left l) × (spent' : ℕ) × Chain calls s0
          (around t.before (x, t.call) t.mid (t.match, t.return) t.after) t.old spent'
        × (rounds_from (length (around t.before (x, t.call) t.mid (t.match, t.return) t.after))
                (length (t.mid ++ (t.match, t.return) ∷ t.after))
              + spent'
            ≤ spent)

    -- What the entries that are left linearize to goes behind the calls.
    Taken-effect :
        (x : ℕ) (s0 s : S) (left : Tagged V) (l : Links) (ids : List ℕ) (t : Taken x s0 s left l)
        → Linearizes model.step s (entries left) ids
        → Linearizes model.step s0
            (entries (around t.before (x, t.call) t.mid (t.match, t.return) t.after))
            (t.call.id ∷ ids)
    Taken-effect x s0 s left l ids t h =
        let described = t.laid.history.described in
        let behind = t.mid ++ (t.match, t.return) ∷ t.after in
        let called = All-at (IsDescribed nodes) t.before (x, t.call) behind described in
        let split : entries left ≡ (entries t.before ++ entries t.mid) ++ entries t.after =
          ap entries t.left_eq
          ∙ entries-append (t.before ++ t.mid) t.after
          ∙ ap (λ q. q ++ entries t.after) (entries-append t.before t.mid) in
        let back : entries t.before ++ t.call ∷ (entries t.mid ++ t.return ∷ entries t.after)
            ≡ entries (around t.before (x, t.call) t.mid (t.match, t.return) t.after) =
          sym (
            entries-append t.before ((x, t.call) ∷ behind)
            ∙ ap (λ q. entries t.before ++ t.call ∷ q)
                (entries-append t.mid ((t.match, t.return) ∷ t.after))) in
        subst (λ q. Linearizes model.step s0 q (t.call.id ∷ ids)) back
          (effect s (entries t.before) (entries t.mid) (entries t.after) t.call t.return
            (All-IsCall t.before t.passed
              (All-front (IsDescribed nodes) t.before ((x, t.call) ∷ behind) described))
            (IsTarget-of nodes x t.call t.match called t.matched).0 t.is_return t.same_id t.fits
            (subst (λ q. Linearizes model.step s q ids) split h))

    -- The number of the node that a call was taken from.
    call_node :
        (x : ℕ) (s0 s : S) (left : Tagged V) (l : Links) (t : Taken x s0 s left l)
        → (node : Node V) × (get_elem? nodes x ≡ some node) × (node.id ≡ t.call.id)
    call_node x s0 s left l t =
        let called =
          All-at (IsDescribed nodes) t.before (x, t.call) (t.mid ++ (t.match, t.return) ∷ t.after)
            t.laid.history.described in
        (called.node, called.there, called.same_id)

    pub Chain-Linearizes :
        (calls : List (ℕ × S)) (s : S) (left : Tagged V) (l : Links) (spent : ℕ) (ids : List ℕ)
        → Chain calls s left l spent
        → Linearizes model.step s (entries left) ids
        → (seq : List ℕ) × (ids_of model nodes head calls ≡ ok seq)
          × Linearizes model.step model.init (entries whole) (seq ++ ids)
    unfolding ids_of
    Chain-Linearizes [] s left l spent ids c h = (
      [],
      refl,
      subst (λ q. Linearizes model.step q (entries whole) ids) c.0
          (subst (λ q. Linearizes model.step s (entries q) ids) c.1 h),
    )
    Chain-Linearizes ((x, s0) ∷ calls) s left l spent ids (t, spent', c, frame) h =
        let (seq, eq, lin) =
          Chain-Linearizes calls s0 (around t.before (x, t.call) t.mid (t.match, t.return) t.after)
            t.old spent' (t.call.id ∷ ids) c (Taken-effect x s0 s left l ids t h) in
        let (node, there, same) = call_node x s0 s left l t in
        (
          seq ++ node.id ∷ [],
          rw (eq, there) refl,
          subst (Linearizes model.step model.init (entries whole))
              (ap (λ q. seq ++ q ∷ ids) (sym same) ∙ sym (append_assoc seq (node.id ∷ []) ids)) lin,
        )
