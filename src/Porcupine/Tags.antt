-- ===== src/Porcupine/Tags.antt =====
-- Entries with the numbers of their nodes, and what the nodes of a history say of them.
use mathlib.Core.Path.{subst}
use tda596_labs.Base.{
  ℕ, ◌≡◌, ◌≢◌, sym, ap, ◌∙◌, ◌⊎◌, inl, inr, none, some, List, [], ◌∷◌, ◌++◌, map, get_elem?, All,
}
use tda596_labs.Porcupine.Entry.{Entry, return_entry}
use tda596_labs.Porcupine.Links.{Node}
use tda596_labs.Porcupine.Links.Listed.{some_eq}
use tda596_labs.Porcupine.Spec.{IsCall, IsCalledOnce}

abbrev pub Tagged : Type 0 → Type 0
Tagged V = List (ℕ × Entry V)

module _ {V : Type 0} where
  abbrev pub addresses : Tagged V → List ℕ
  addresses = map (λ t. t.0)

  abbrev pub entries : Tagged V → List (Entry V)
  entries = map (λ t. t.1)

  -- The list has this number with this entry.
  abbrev pub In : ℕ → Entry V → Tagged V → Type 0
  In m e [] = ⊥
  In m e ((a, f) ∷ ts) = ((m ≡ a) × (e ≡ f)) ⊎ In m e ts

  pub split-In :
      (m : ℕ) (e : Entry V) (ts : Tagged V)
      → In m e ts
      → (mid : Tagged V) × (after : Tagged V) × (ts ≡ mid ++ (m, e) ∷ after)
  split-In m e [] i = absurd i
  split-In m e ((a, f) ∷ ts) (inl (same, same')) =
      ([], ts, ap (λ q. q ∷ ts) (λ k. (sym same k, sym same' k)))
  split-In m e ((a, f) ∷ ts) (inr i) =
      let (mid, after, split) = split-In m e ts i in
      ((a, f) ∷ mid, after, ap (λ q. (a, f) ∷ q) split)

  In-remove :
      (m : ℕ) (e : Entry V) (before : Tagged V) (x : ℕ) (f : Entry V) (after : Tagged V)
      → m ≢ x
      → In m e (before ++ (x, f) ∷ after)
      → In m e (before ++ after)
  In-remove m e [] x f after ne (inl (same, same')) = absurd (ne same)
  In-remove m e [] x f after ne (inr i) = i
  In-remove m e ((b, g) ∷ before) x f after ne (inl here) = inl here
  In-remove m e ((b, g) ∷ before) x f after ne (inr i) = inr (In-remove m e before x f after ne i)

  -- What holds of all entries but one.
  pub All-remove :
      (P : ℕ × Entry V → Type 0) (before : Tagged V) (t : ℕ × Entry V) (after : Tagged V)
      → All P (before ++ t ∷ after)
      → All P (before ++ after)
  All-remove P [] t after h = h.1
  All-remove P (s ∷ before) t after h = (h.0, All-remove P before t after h.1)

  pub All-at :
      (P : ℕ × Entry V → Type 0) (before : Tagged V) (t : ℕ × Entry V) (after : Tagged V)
      → All P (before ++ t ∷ after)
      → P t
  All-at P [] t after h = h.0
  All-at P (s ∷ before) t after h = All-at P before t after h.1

  pub All-front : (P : ℕ × Entry V → Type 0) (ts us : Tagged V) → All P (ts ++ us) → All P ts
  All-front P [] us h = tt
  All-front P (t ∷ ts) us h = (h.0, All-front P ts us h.1)

  pub All-In :
      (P : ℕ × Entry V → Type 0) (m : ℕ) (e : Entry V) (ts : Tagged V)
      → All P ts
      → In m e ts
      → P (m, e)
  All-In P m e [] h i = absurd i
  All-In P m e ((a, f) ∷ ts) h (inl (same, same')) = subst P (λ k. (sym same k, sym same' k)) h.0
  All-In P m e ((a, f) ∷ ts) h (inr i) = All-In P m e ts h.1 i

  abbrev IsOther : Entry V → Entry V → Type 0
  IsOther e f = IsCall e → IsCall f → f.id ≢ e.id

  pub IsCalledOnce-remove :
      (before : Tagged V) (t : ℕ × Entry V) (after : Tagged V)
      → IsCalledOnce (entries (before ++ t ∷ after))
      → IsCalledOnce (entries (before ++ after))
  IsCalledOnce-remove [] t after h = h.1
  IsCalledOnce-remove (s ∷ before) t after h =
      (kept before h.0, IsCalledOnce-remove before t after h.1)
    where
      kept :
          (ts : Tagged V)
          → All (IsOther s.1) (entries (ts ++ t ∷ after))
          → All (IsOther s.1) (entries (ts ++ after))
      kept [] a = a.1
      kept (u ∷ ts) a = (a.0, kept ts a.1)

  -- The other calls have other numbers.
  pub IsCalledOnce-others :
      (before : Tagged V) (x : ℕ) (c : Entry V) (after : Tagged V)
      → IsCall c
      → IsCalledOnce (entries (before ++ (x, c) ∷ after))
      → All (λ t. IsCall t.1 → t.1.id ≢ c.id) (before ++ after)
  IsCalledOnce-others [] x c after is_call h = weaken after h.0
    where
      weaken :
          (ts : Tagged V) → All (IsOther c) (entries ts) → All (λ t. IsCall t.1 → t.1.id ≢ c.id) ts
      weaken [] a = tt
      weaken (t ∷ ts) a = (a.0 is_call, weaken ts a.1)
  IsCalledOnce-others (s ∷ before) x c after is_call h = (
    λ s_call same. at before h.0 s_call is_call (sym same),
    IsCalledOnce-others before x c after is_call h.1,
  )
    where
      at : (ts : Tagged V) → All (IsOther s.1) (entries (ts ++ (x, c) ∷ after)) → IsOther s.1 c
      at [] a = a.0
      at (u ∷ ts) a = at ts a.1

  module _ (nodes : List (Node V)) where
    -- The node of a return, which has no match itself.
    pub record IsTarget (m id : ℕ) : Type 0 where
      pub node : Node V
      pub there : get_elem? nodes m ≡ some node
      pub ends : node.match ≡ none
      pub same_id : node.id ≡ id

    -- The node holds the entry's value and number; it has a match only if the entry is a call.
    pub record IsDescribed (t : ℕ × Entry V) : Type 0 where
      pub node : Node V
      pub there : get_elem? nodes t.0 ≡ some node
      pub same_value : node.value ≡ t.1.value
      pub same_id : node.id ≡ t.1.id
      pub target : (m : ℕ) → node.match ≡ some m → IsCall t.1 × IsTarget m t.1.id

    abbrev pub MatchOf : ℕ → ℕ → Type 0
    MatchOf a m = (node : Node V) × (get_elem? nodes a ≡ some node) × (node.match ≡ some m)

    pub IsTarget-of :
        (a : ℕ) (e : Entry V) (m : ℕ)
        → IsDescribed (a, e)
        → MatchOf a m
        → IsCall e × IsTarget m e.id
    IsTarget-of a e m d (node, at, match) =
        d.target m (subst (λ n. n.match ≡ some m) (sym (some_eq (sym d.there ∙ at))) match)

    -- Behind each entry with a match stands a return of the same operation with the match's number.
    abbrev pub Returned : ℕ × Entry V → Tagged V → Type 0
    Returned (a, e) ts =
        (m : ℕ) → MatchOf a m → (r : Entry V) × In m r ts × (r.kind ≡ return_entry) × (r.id ≡ e.id)

    abbrev pub Paired : Tagged V → Type 0
    Paired [] = Unit
    Paired (t ∷ ts) = Returned t ts × Paired ts

    -- No node of the list has this match.
    abbrev pub Unmatched : ℕ → Tagged V → Type 0
    Unmatched x = All (λ t. (m : ℕ) → MatchOf t.0 m → m ≢ x)

    pub Paired-remove :
        (before : Tagged V) (x : ℕ) (f : Entry V) (after : Tagged V)
        → Unmatched x before
        → Paired (before ++ (x, f) ∷ after)
        → Paired (before ++ after)
    Paired-remove [] x f after u h = h.1
    Paired-remove (t ∷ before) x f after u h = (
      λ m match.
          let (r, i, kind, id) = h.0 m match in
          (r, In-remove m r before x f after (u.0 m match) i, kind, id),
      Paired-remove before x f after u.1 h.1,
    )

    pub Paired-at :
        (before : Tagged V) (t : ℕ × Entry V) (after : Tagged V)
        → Paired (before ++ t ∷ after)
        → Returned t after
    Paired-at [] t after h = h.0
    Paired-at (s ∷ before) t after h = Paired-at before t after h.1

    -- A node with a match is no node's match.
    pub Unmatched-call :
        (x n : ℕ) (ts : Tagged V) → MatchOf x n → All IsDescribed ts → Unmatched x ts
    Unmatched-call x n [] match d = tt
    Unmatched-call x n ((a, e) ∷ ts) (node, at, some_match) d = (
      λ m h same.
          let target = (IsTarget-of a e m d.0 h).1 in
          let same_node : target.node ≡ node =
            some_eq (sym target.there ∙ ap (get_elem? nodes) same ∙ at) in
          let ends : target.node.match ≡ none = target.ends in
          let other : target.node.match ≡ some n =
            subst (λ q. q.match ≡ some n) (sym same_node) some_match in
          absurd (cc),
      Unmatched-call x n ts (node, at, some_match) d.1,
    )

    -- The match of a call is not the match of an entry with another number.
    pub Unmatched-other :
        (id m : ℕ) (ts : Tagged V)
        → IsTarget m id
        → All IsDescribed ts
        → All (λ t. IsCall t.1 → t.1.id ≢ id) ts
        → Unmatched m ts
    Unmatched-other id m [] target d others = tt
    Unmatched-other id m ((a, e) ∷ ts) target d others = (
      λ n h same.
          let (is_call, own) = IsTarget-of a e n d.0 h in
          let same_node : own.node ≡ target.node =
            some_eq (sym own.there ∙ ap (get_elem? nodes) same ∙ target.there) in
          others.0 is_call (sym own.same_id ∙ ap (λ q. q.id) same_node ∙ target.same_id),
      Unmatched-other id m ts target d.1 others.1,
    )
