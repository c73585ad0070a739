-- ===== src/Porcupine/Links/Listed.antt =====
-- Which nodes the links of Lab 2/src/porcupine/checker.go string together, and what taking one out
-- leaves.
use mathlib.Core.Path.{subst}
use tda596_labs.Base.{
  ℕ, ◌≡◌, ◌≢◌, refl, sym, ◌∙◌, arith, Option, none, some, List, [], ◌∷◌, ◌++◌, nat_eq_iff, All,
}
use tda596_labs.Porcupine.Links.{Links, update, set_next, set_prev, set_prev_of}

abbrev pub Absent : ℕ → List ℕ → Type 0
Absent x = All (λ y. x ≢ y)

abbrev pub IsDistinct : List ℕ → Type 0
IsDistinct [] = Unit
IsDistinct (x ∷ xs) = Absent x xs × IsDistinct xs

-- Behind node p the nodes xs follow, and then nil.
abbrev pub Listed : Links → ℕ → List ℕ → Type 0
Listed l p [] = l.next p ≡ none
Listed l p (x ∷ xs) = (l.next p ≡ some x) × (l.prev x ≡ some p) × Listed l x xs

abbrev pub first : List ℕ → Option ℕ
first [] = none
first (x ∷ xs) = some x

pub next-first : (l : Links) (p : ℕ) (xs : List ℕ) → Listed l p xs → l.next p ≡ first xs
next-first l p [] h = h
next-first l p (x ∷ xs) h = h.0

pub Listed-split :
    (l : Links) (p : ℕ) (xs : List ℕ) (x : ℕ) (ys : List ℕ)
    → Listed l p (xs ++ x ∷ ys)
    → Listed l x ys
Listed-split l p [] x ys h = h.2
Listed-split l p (w ∷ xs) x ys h = Listed-split l w xs x ys h.2

-- A node in the list has a neighbour before it that points to it.
pub neighbour :
    (l : Links) (p : ℕ) (xs : List ℕ) (x : ℕ) (ys : List ℕ)
    → Listed l p (xs ++ x ∷ ys)
    → (a : ℕ) × (l.prev x ≡ some a) × (l.next a ≡ some x)
neighbour l p [] x ys h = (p, h.1, h.0)
neighbour l p (w ∷ xs) x ys h = neighbour l w xs x ys h.2

pub update-ne : (f : ℕ → Option ℕ) (p q : ℕ) (v : Option ℕ) → p ≢ q → update f p v q ≡ f q
update-ne f p q v ne = ground (arith, nat_eq_iff p q, ne)

pub update_self : (f : ℕ → Option ℕ) (p : ℕ) (v : Option ℕ) → update f p v p ≡ v
update_self f p v = ground arith

-- The list depends on next at its nodes but the last, and on prev at its nodes.
pub Listed-frame :
    (l m : Links) (p : ℕ) (xs : List ℕ)
    → m.next p ≡ l.next p
    → All (λ x. (m.next x ≡ l.next x) × (m.prev x ≡ l.prev x)) xs
    → Listed l p xs
    → Listed m p xs
Listed-frame l m p [] e same h = e ∙ h
Listed-frame l m p (x ∷ xs) e same h =
    (e ∙ h.0, same.0.1 ∙ h.1, Listed-frame l m x xs same.0.0 same.1 h.2)

All-same :
    (l : Links) (a : ℕ) (v : Option ℕ) (xs : List ℕ)
    → Absent a xs
    → All (λ x. (update l.next a v x ≡ l.next x) × (l.prev x ≡ l.prev x)) xs
All-same l a v [] h = tt
All-same l a v (x ∷ xs) h = ((update-ne l.next a x v h.0, refl), All-same l a v xs h.1)

-- Node a gets the successor n: `a.next = n`, and `n.prev = a` if n is not nil.
abbrev pub join : ℕ → Option ℕ → Links → Links
join a n l = set_prev_of n (some a) (set_next a n l)

pub All-same_out :
    (l : Links) (a b : ℕ) (xs : List ℕ)
    → Absent a xs
    → Absent b xs
    → All
        (λ x. (update l.next a (some b) x ≡ l.next x) × (update l.prev b (some a) x ≡ l.prev x))
        xs
All-same_out l a b [] h k = tt
All-same_out l a b (x ∷ xs) h k = (
  (update-ne l.next a x (some b) h.0, update-ne l.prev b x (some a) k.0),
  All-same_out l a b xs h.1 k.1,
)

-- What stands behind x then stands behind a.
after_join :
    (l : Links) (a x : ℕ) (ys : List ℕ)
    → Listed l x ys
    → Absent a ys
    → IsDistinct ys
    → Listed (join a (first ys) l) a ys
after_join l a x [] h out distinct = update_self l.next a none
after_join l a x (b ∷ ys) h out distinct = (
  update_self l.next a (some b),
  update_self l.prev b (some a),
  Listed-frame l (set_prev b (some a) (set_next a (some b) l)) b ys
      (update-ne l.next a b (some b) out.0) (All-same_out l a b ys out.1 distinct.0) h.2,
)

pub next-join :
    (l : Links) (a p : ℕ) (ys : List ℕ) → a ≢ p → (join a (first ys) l).next p ≡ l.next p
next-join l a p [] ne = update-ne l.next a p none ne
next-join l a p (y ∷ ys) ne = update-ne l.next a p (some y) ne

pub prev-join :
    (l : Links) (a w : ℕ) (ys : List ℕ) → Absent w ys → (join a (first ys) l).prev w ≡ l.prev w
prev-join l a w [] out = refl
prev-join l a w (y ∷ ys) out = update-ne l.prev y w (some a) (λ e. out.0 (sym e))

pub some_eq {ℓ} : {A : Type ℓ} {m n : A} → some m ≡ some n → m ≡ n
some_eq e = cc

pub Absent-append : (q : ℕ) (xs ys : List ℕ) → Absent q (xs ++ ys) → Absent q xs × Absent q ys
Absent-append q [] ys h = (tt, h)
Absent-append q (x ∷ xs) ys h =
    let (left, right) = Absent-append q xs ys h.1 in ((h.0, left), right)

pub Absent-join : (q : ℕ) (xs ys : List ℕ) → Absent q xs → Absent q ys → Absent q (xs ++ ys)
Absent-join q [] ys h k = k
Absent-join q (x ∷ xs) ys h k = (h.0, Absent-join q xs ys h.1 k)

-- A node that is none of the list is not the neighbour before one of the list's later nodes.
ne-neighbour :
    (l : Links) (q w : ℕ) (xs : List ℕ) (x : ℕ) (ys : List ℕ) (a : ℕ)
    → Listed l w (xs ++ x ∷ ys)
    → l.prev x ≡ some a
    → Absent q (w ∷ xs)
    → a ≢ q
ne-neighbour l q w [] x ys a h at out = λ e. out.0 (sym e ∙ some_eq (sym at ∙ h.1))
ne-neighbour l q w (v ∷ xs) x ys a h at out = ne-neighbour l q v xs x ys a h.2 at out.1

-- Taking a node out of a list of distinct nodes leaves the list of the others.
pub Listed-join :
    (l : Links) (p : ℕ) (xs : List ℕ) (x : ℕ) (ys : List ℕ) (a : ℕ)
    → Listed l p (xs ++ x ∷ ys)
    → l.prev x ≡ some a
    → IsDistinct (p ∷ (xs ++ x ∷ ys))
    → Listed (join a (first ys) l) p (xs ++ ys)
Listed-join l p [] x ys a h at distinct =
    let pa : p ≡ a = some_eq (sym h.1 ∙ at) in
    subst (λ q. Listed (join q (first ys) l) p ys) pa
      (after_join l p x ys h.2 distinct.0.1 distinct.1.1)
Listed-join l p (w ∷ xs) x ys a h at distinct =
    let (fresh, behind) = Absent-append w xs (x ∷ ys) distinct.1.0 in
    (
      next-join l a p ys (
            ne-neighbour l p w xs x ys a h.2 at
              (distinct.0.0, (Absent-append p xs (x ∷ ys) distinct.0.1).0))
          ∙ h.0,
      prev-join l a w ys behind.1 ∙ h.1,
      Listed-join l w xs x ys a h.2 at distinct.1,
    )

pub IsDistinct-without :
    (xs : List ℕ) (x : ℕ) (ys : List ℕ) → IsDistinct (xs ++ x ∷ ys) → IsDistinct (xs ++ ys)
IsDistinct-without [] x ys h = h.1
IsDistinct-without (w ∷ xs) x ys h =
    let (left, right) = Absent-append w xs (x ∷ ys) h.0 in
    (Absent-join w xs ys left right.1, IsDistinct-without xs x ys h.1)

pub neighbour-ne :
    (l : Links) (p : ℕ) (xs : List ℕ) (x : ℕ) (ys : List ℕ) (a : ℕ)
    → Listed l p (xs ++ x ∷ ys)
    → l.prev x ≡ some a
    → IsDistinct (p ∷ (xs ++ x ∷ ys))
    → a ≢ x
neighbour-ne l p [] x ys a h at distinct = λ e. distinct.0.0 (some_eq (sym h.1 ∙ at) ∙ e)
neighbour-ne l p (w ∷ xs) x ys a h at distinct = neighbour-ne l w xs x ys a h.2 at distinct.1

-- What follows a node of the list does not have it again.
pub Absent-behind : (xs : List ℕ) (x : ℕ) (ys : List ℕ) → IsDistinct (xs ++ x ∷ ys) → Absent x ys
Absent-behind [] x ys h = h.0
Absent-behind (w ∷ xs) x ys h = Absent-behind xs x ys h.1
