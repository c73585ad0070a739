-- ===== src/Porcupine/Links/Lift.antt =====
-- lift takes a call and its return out of the list, and unlift puts them back.
use mathlib.Core.Path.{fun_ext, subst}
use mathlib.Core.List.{append_assoc}
use tda596_labs.Base.{
  ℕ, ◌≡◌, ◌≢◌, refl, sym, ap, ◌∙◌, arith, Option, none, some, List, [], ◌∷◌, ◌++◌, nat_eq,
  nat_eq_iff, if◌then◌else◌, Bool, true, false, Bool-cases, inl, inr,
}
use tda596_labs.Base.Run.{ok}
use tda596_labs.Porcupine.Links.{
  Links, update, set_next, set_prev_of, lift_entry, lift_match, lift, unlift_match, unlift_entry,
  unlift,
}
use tda596_labs.Porcupine.Links.Listed.{
  IsDistinct, Listed, first, join, next-first, Listed-split, neighbour, update-ne, next-join,
  prev-join, neighbour-ne, Absent-behind, some_eq, Listed-join, IsDistinct-without,
}

update-update :
    (f : ℕ → Option ℕ) (p : ℕ) (v w : Option ℕ) → update (update f p v) p w ≡ update f p w
update-update f p v w = fun_ext λ q. ground arith

update-same : (f : ℕ → Option ℕ) (p : ℕ) {v : Option ℕ} → f p ≡ v → update f p v ≡ f
update-same f p {v} e = fun_ext λ q. elim (Bool-cases (nat_eq p q)) [
  | inl same ↦ rw (same) (sym e ∙ ap f ((nat_eq_iff p q).0 same))
  | inr other ↦ rw (other) refl
]

-- `a.next = x; n.prev = x` after `a.next = n; n.prev = a` gives the old links back.
join-join :
    (l : Links) (a x : ℕ) (n : Option ℕ)
    → l.next a ≡ some x
    → ((b : ℕ) → n ≡ some b → l.prev b ≡ some x)
    → set_prev_of n (some x) (set_next a (some x) (join a n l)) ≡ l
join-join l a x none e back =
    ap (λ f. record l { next = f }) (update-update l.next a none (some x) ∙ update-same l.next a e)
join-join l a x (some b) e back =
    ap (λ f. record l { next = f; prev = update (update l.prev b (some a)) b (some x) })
      (update-update l.next a (some b) (some x) ∙ update-same l.next a e)
    ∙ ap (λ f. record l { prev = f })
        (update-update l.prev b (some a) (some x) ∙ update-same l.prev b (back b refl))

if_same {ℓ} : {A : Type ℓ} (b : Bool) (x : A) → (if b then x else x) ≡ x
if_same true x = refl
if_same false x = refl

-- lift_match on a node of the list.
lift_match_lem :
    (l : Links) (p : ℕ) (xs : List ℕ) (m : ℕ) (ys : List ℕ) (a : ℕ)
    → Listed l p (xs ++ m ∷ ys)
    → l.prev m ≡ some a
    → IsDistinct (p ∷ (xs ++ m ∷ ys))
    → lift_match m l ≡ ok (join a (first ys) l)
unfolding lift_match
lift_match_lem l p xs m ys a h at distinct =
    rw (at, if_same (nat_eq a m) (l.next m), next-first l m ys (Listed-split l p xs m ys h)) refl

-- The first node behind a node of the list points back to it.
back-first :
    (l : Links) (p : ℕ) (ys : List ℕ) (b : ℕ)
    → Listed l p ys
    → first ys ≡ some b
    → l.prev b ≡ some p
back-first l p [] b h e = absurd (cc)
back-first l p (y ∷ ys) b h e = subst (λ q. l.prev q ≡ some p) (some_eq e) h.1

module _ (l : Links) (p : ℕ) (xs : List ℕ) (x : ℕ) (ys : List ℕ) (a : ℕ)
    (h : Listed l p (xs ++ x ∷ ys)) (at : l.prev x ≡ some a) (before : l.next a ≡ some x)
    (distinct : IsDistinct (p ∷ (xs ++ x ∷ ys))) where
  ne : a ≢ x
  ne = neighbour-ne l p xs x ys a h at distinct

  prev_kept : (join a (first ys) l).prev x ≡ some a
  prev_kept = prev-join l a x ys (Absent-behind xs x ys distinct.1) ∙ at

  next_kept : update (join a (first ys) l).next a (some x) x ≡ first ys
  next_kept =
      update-ne (join a (first ys) l).next a x (some x) ne
      ∙ next-join l a x ys ne
      ∙ next-first l x ys (Listed-split l p xs x ys h)

  restored : set_prev_of (first ys) (some x) (set_next a (some x) (join a (first ys) l)) ≡ l
  restored =
      join-join l a x (first ys) before (λ b. back-first l x ys b (Listed-split l p xs x ys h))

  unlift_match_lem : unlift_match x (join a (first ys) l) ≡ ok l
  unfolding unlift_match
  unlift_match_lem = rw (prev_kept, next_kept, restored) refl

module _ (l : Links) (p : ℕ) (xs : List ℕ) (x b : ℕ) (ys : List ℕ) (a : ℕ)
    (h : Listed l p (xs ++ x ∷ b ∷ ys)) (at : l.prev x ≡ some a) (before : l.next a ≡ some x)
    (distinct : IsDistinct (p ∷ (xs ++ x ∷ b ∷ ys))) where
  lift_entry_lem : lift_entry x l ≡ ok (join a (some b) l)
  unfolding lift_entry
  lift_entry_lem =
      rw
        (
          at,
          if_same (nat_eq a x) (l.next x),
          next-first l x (b ∷ ys) (Listed-split l p xs x (b ∷ ys) h),
        )
        refl

  unlift_entry_lem : unlift_entry x (join a (some b) l) ≡ ok l
  unfolding unlift_entry
  unlift_entry_lem =
      rw
        (
          prev_kept l p xs x (b ∷ ys) a h at before distinct,
          next_kept l p xs x (b ∷ ys) a h at before distinct,
        )
        (ap ok (restored l p xs x (b ∷ ys) a h at before distinct))

-- Some node stands first where there is a node at all.
split_first :
    (mid : List ℕ) (m : ℕ) (after : List ℕ) → (b : ℕ) × (ys : List ℕ) × (mid ++ m ∷ after ≡ b ∷ ys)
split_first [] m after = (m, after, refl)
split_first (b ∷ mid) m after = (b, mid ++ m ∷ after, refl)

-- lift takes a call and its return, which stands behind it, out of the list. unlift undoes that: it
-- gives back the very links that there were. The nodes of the list are distinct.
pub lift_lem :
    (l : Links) (p : ℕ) (before : List ℕ) (x : ℕ) (mid : List ℕ) (m : ℕ) (after : List ℕ)
    → Listed l p (before ++ x ∷ (mid ++ m ∷ after))
    → IsDistinct (p ∷ (before ++ x ∷ (mid ++ m ∷ after)))
    → (l' : Links) × (lift x m l ≡ ok l')
      × (unlift x m l' ≡ ok l)
      × Listed l' p ((before ++ mid) ++ after)
unfolding lift unlift
lift_lem l p before x mid m after h distinct =
    let (b, ys, e) = split_first mid m after in
    let h' : Listed l p (before ++ x ∷ b ∷ ys) = subst (λ q. Listed l p (before ++ x ∷ q)) e h in
    let distinct' : IsDistinct (p ∷ (before ++ x ∷ b ∷ ys)) =
      subst (λ q. IsDistinct (p ∷ (before ++ x ∷ q))) e distinct in
    let (a, at, to) = neighbour l p before x (b ∷ ys) h' in
    let l1 = join a (some b) l in
    let listed : Listed l1 p (before ++ b ∷ ys) =
      Listed-join l p before x (b ∷ ys) a h' at distinct' in
    let regroup : before ++ b ∷ ys ≡ (before ++ mid) ++ m ∷ after =
      ap (λ q. before ++ q) (sym e) ∙ sym (append_assoc before mid (m ∷ after)) in
    let k : Listed l1 p ((before ++ mid) ++ m ∷ after) = subst (Listed l1 p) regroup listed in
    let dk : IsDistinct (p ∷ ((before ++ mid) ++ m ∷ after)) =
      subst (λ q. IsDistinct (p ∷ q)) regroup
        (IsDistinct-without (p ∷ before) x (b ∷ ys) distinct') in
    let (c, at', to') = neighbour l1 p (before ++ mid) m after k in
    (
      join c (first after) l1,
      rw (lift_entry_lem l p before x b ys a h' at to distinct')
          (lift_match_lem l1 p (before ++ mid) m after c k at' dk),
      rw (unlift_match_lem l1 p (before ++ mid) m after c k at' to' dk)
          (unlift_entry_lem l p before x b ys a h' at to distinct'),
      Listed-join l1 p (before ++ mid) m after c k at' dk,
    )
