-- ===== src/Porcupine/Laid.antt =====
-- The linked list of Lab 2/src/porcupine/checker.go while calls are taken out of it with their returns.
use mathlib.Core.Path.{subst}
use mathlib.Core.List.{append_assoc}
use tda596_labs.Base.{ℕ, ◌≡◌, ◌≢◌, refl, sym, ap, ◌∙◌, List, [], ◌∷◌, ◌++◌, All}
use tda596_labs.Base.Run.{ok}
use tda596_labs.Porcupine.Entry.{Entry}
use tda596_labs.Porcupine.Links.{Node, Links, lift, unlift}
use tda596_labs.Porcupine.Links.Listed.{IsDistinct, IsDistinct-without, Listed}
use tda596_labs.Porcupine.Links.Lift.{lift_lem}
use tda596_labs.Porcupine.Spec.{IsCall, IsCalledOnce}
use tda596_labs.Porcupine.Tags.{
  Tagged, addresses, entries, IsDescribed, MatchOf, Paired, All-remove, All-at, All-front,
  IsCalledOnce-remove, IsCalledOnce-others, IsTarget-of, Paired-remove, Unmatched, Unmatched-call,
  Unmatched-other,
}

module _ {V : Type 0} where
  pub addresses-append : (ts us : Tagged V) → addresses (ts ++ us) ≡ addresses ts ++ addresses us
  addresses-append [] us = refl
  addresses-append (t ∷ ts) us = ap (λ q. t.0 ∷ q) (addresses-append ts us)

  pub entries-append : (ts us : Tagged V) → entries (ts ++ us) ≡ entries ts ++ entries us
  entries-append [] us = refl
  entries-append (t ∷ ts) us = ap (λ q. t.1 ∷ q) (entries-append ts us)

  -- A call, what stands up to its return, and what follows.
  abbrev pub around : Tagged V → ℕ × Entry V → Tagged V → ℕ × Entry V → Tagged V → Tagged V
  around before c mid r after = before ++ c ∷ (mid ++ r ∷ after)

  module _ (nodes : List (Node V)) (head : ℕ) (good : Entry V → Type 0) where
    -- What describes the entries that are in the list.
    pub record IsHistory (ts : Tagged V) : Type 0 where
      pub distinct : IsDistinct (head ∷ addresses ts)
      pub described : All (IsDescribed nodes) ts
      pub paired : Paired nodes ts
      pub once : IsCalledOnce (entries ts)
      pub typed : All (λ t. good t.1) ts

    pub record IsLaid (l : Links) (ts : Tagged V) : Type 0 where
      pub listed : Listed l head (addresses ts)
      pub history : IsHistory ts

    IsHistory-remove :
        (before : Tagged V) (t : ℕ × Entry V) (after : Tagged V)
        → Unmatched nodes t.0 before
        → IsHistory (before ++ t ∷ after)
        → IsHistory (before ++ after)
    IsHistory-remove before t after unmatched h = record {
      distinct =
          subst (λ q. IsDistinct (head ∷ q)) (sym (addresses-append before after))
            (IsDistinct-without (head ∷ addresses before) t.0 (addresses after) (
              subst (λ q. IsDistinct (head ∷ q)) (addresses-append before (t ∷ after)) h.distinct));
      described = All-remove (IsDescribed nodes) before t after h.described;
      paired = Paired-remove nodes before t.0 t.1 after unmatched h.paired;
      once = IsCalledOnce-remove before t after h.once;
      typed = All-remove (λ t. good t.1) before t after h.typed;
    }

    -- A call and its return are taken out.
    IsHistory-without :
        (before : Tagged V) (x : ℕ) (c : Entry V) (mid : Tagged V) (m : ℕ) (r : Entry V)
        (after : Tagged V)
        → MatchOf nodes x m
        → IsHistory (around before (x, c) mid (m, r) after)
        → IsHistory ((before ++ mid) ++ after)
    IsHistory-without before x c mid m r after match h =
        let regroup : before ++ (mid ++ (m, r) ∷ after) ≡ (before ++ mid) ++ (m, r) ∷ after =
          sym (append_assoc before mid ((m, r) ∷ after)) in
        let (is_call, target) =
          IsTarget-of nodes x c m
            (All-at (IsDescribed nodes) before (x, c) (mid ++ (m, r) ∷ after) h.described) match in
        let first_out : IsHistory ((before ++ mid) ++ (m, r) ∷ after) = subst IsHistory regroup (
          IsHistory-remove before (x, c) (mid ++ (m, r) ∷ after)
            (Unmatched-call nodes x m before match
              (All-front (IsDescribed nodes) before ((x, c) ∷ (mid ++ (m, r) ∷ after)) h.described))
            h) in
        let others : All (λ t. IsCall t.1 → t.1.id ≢ c.id) (before ++ mid) =
          All-front (λ t. IsCall t.1 → t.1.id ≢ c.id) (before ++ mid) ((m, r) ∷ after)
            (subst (All (λ t. IsCall t.1 → t.1.id ≢ c.id)) regroup
              (IsCalledOnce-others before x c (mid ++ (m, r) ∷ after) is_call h.once)) in
        IsHistory-remove (before ++ mid) (m, r) after
          (Unmatched-other nodes c.id m (before ++ mid) target
            (All-front (IsDescribed nodes) (before ++ mid) ((m, r) ∷ after) first_out.described)
            others)
          first_out

    addresses-around :
        (before : Tagged V) (x : ℕ) (c : Entry V) (mid : Tagged V) (m : ℕ) (r : Entry V)
        (after : Tagged V)
        → addresses (around before (x, c) mid (m, r) after)
          ≡ addresses before ++ x ∷ (addresses mid ++ m ∷ addresses after)
    addresses-around before x c mid m r after =
        addresses-append before ((x, c) ∷ (mid ++ (m, r) ∷ after))
        ∙ ap (λ q. addresses before ++ x ∷ q) (addresses-append mid ((m, r) ∷ after))

    addresses-without :
        (before mid after : Tagged V)
        → addresses ((before ++ mid) ++ after)
          ≡ (addresses before ++ addresses mid) ++ addresses after
    addresses-without before mid after =
        addresses-append (before ++ mid) after
        ∙ ap (λ q. q ++ addresses after) (addresses-append before mid)

    pub lift-IsLaid :
        (l : Links) (before : Tagged V) (x : ℕ) (c : Entry V) (mid : Tagged V) (m : ℕ) (r : Entry V)
        (after : Tagged V)
        → MatchOf nodes x m
        → IsLaid l (around before (x, c) mid (m, r) after)
        → (l' : Links) × (lift x m l ≡ ok l')
          × (unlift x m l' ≡ ok l)
          × IsLaid l' ((before ++ mid) ++ after)
    lift-IsLaid l before x c mid m r after match h =
        let listed = subst (Listed l head) (addresses-around before x c mid m r after) h.listed in
        let distinct =
          subst (λ q. IsDistinct (head ∷ q)) (addresses-around before x c mid m r after)
            h.history.distinct in
        let (l', lifted, undo, listed') =
          lift_lem l head (addresses before) x (addresses mid) m (addresses after) listed
            distinct in
        (
          l',
          lifted,
          undo,
          record {
            listed = subst (Listed l' head) (sym (addresses-without before mid after)) listed';
            history = IsHistory-without before x c mid m r after match h.history;
          },
        )
