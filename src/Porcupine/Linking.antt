-- ===== src/Porcupine/Linking.antt =====
-- makeLinkedEntries of Lab 2/src/porcupine/checker.go makes a list of the entries in their order, and
-- matches each call with the next return of its operation.
pub mod Nodes
use mathlib.Core.Path.{subst}
use tda596_labs.Base.{
  GoEq-nat, ℕ, zero, suc, ◌+◌, ◌≤◌, ◌<◌, ◌≡◌, ◌≢◌, refl, sym, ap, ◌∙◌, ◌⊎◌, inl, inr, arith, Option,
  none, some, List, [], ◌∷◌, ◌++◌, map, length, length-append, get_elem?, All, nat_eq, nat_eq_iff,
  Bool, true, false, if◌then◌else◌, Bool-cases,
}
use tda596_labs.Porcupine.Entry.{Entry}
use tda596_labs.Porcupine.Links.{Links, insert_before, update, count_from}
use tda596_labs.Porcupine.Links.Listed.{
  Absent, IsDistinct, Listed, Listed-frame, All-same_out, first, update-ne, update_self,
}
use tda596_labs.Porcupine.Tags.{Tagged, addresses, entries}

-- The nodes are made from the last entry to the first.
abbrev pub tagged : {V : Type 0} → List (Entry V) → Tagged V
tagged [] = []
tagged (e ∷ es) = (length es, e) ∷ tagged es

pub entries-tagged : {V : Type 0} (es : List (Entry V)) → entries (tagged es) ≡ es
entries-tagged [] = refl
entries-tagged (e ∷ es) = ap (λ q. e ∷ q) (entries-tagged es)

-- The links string the numbers together, which are below n; nothing is linked to the numbers from n on.
abbrev pub Strung : Links → List ℕ → Type 0
Strung l [] = Unit
Strung l (x ∷ xs) = (l.prev x ≡ none) × Listed l x xs

pub record IsStrung (n : ℕ) (l : Links) (xs : List ℕ) : Type 0 where
  pub strung : Strung l xs
  pub free : (q : ℕ) → n ≤ q → (l.next q ≡ none) × (l.prev q ≡ none)
  pub distinct : IsDistinct xs
  pub below : All (λ x. x < n) xs

Absent-below : (n : ℕ) (xs : List ℕ) → All (λ x. x < n) xs → Absent n xs
Absent-below n [] h = tt
Absent-below n (x ∷ xs) h = (λ same. absurd (omega arith), Absent-below n xs h.1)

All-below : (n : ℕ) (xs : List ℕ) → All (λ x. x < n) xs → All (λ x. x < suc n) xs
All-below n [] h = tt
All-below n (x ∷ xs) h = (omega arith, All-below n xs h.1)

abbrev in_front : ℕ → ℕ → Links → Links
in_front n x l = record { next = update l.next n (some x); prev = update l.prev x (some n) }

-- insertBefore at the first node puts a new node in front.
insert_before-first :
    (n x : ℕ) (l : Links) → l.prev x ≡ none → insert_before n (some x) l ≡ in_front n x l
unfolding insert_before
insert_before-first n x l h = rw (h) refl

insert_before-Strung :
    (n : ℕ) (l : Links) (xs : List ℕ)
    → IsStrung n l xs
    → Strung (insert_before n (first xs) l) (n ∷ xs)
unfolding insert_before
insert_before-Strung n l [] h = let (next, prev) = h.free n (omega arith) in (prev, next)
insert_before-Strung n l (x ∷ xs) h =
    let out : Absent n (x ∷ xs) = Absent-below n (x ∷ xs) h.below in
    subst (λ k. Strung k (n ∷ x ∷ xs)) (sym (insert_before-first n x l h.strung.0))
      (
        update-ne l.prev x n (some n) (λ e. out.0 (sym e)) ∙ (h.free n (omega arith)).1,
        (
          update_self l.next n (some x),
          update_self l.prev x (some n),
          Listed-frame l (in_front n x l) x xs (update-ne l.next n x (some x) out.0)
              (All-same_out l n x xs out.1 h.distinct.0) h.strung.1,
        ),
      )

insert_before-free :
    (n : ℕ) (l : Links) (xs : List ℕ) (q : ℕ)
    → IsStrung n l xs
    → suc n ≤ q
    → ((insert_before n (first xs) l).next q ≡ none)
      × ((insert_before n (first xs) l).prev q ≡ none)
unfolding insert_before
insert_before-free n l [] q h above = h.free q (omega arith)
insert_before-free n l (x ∷ xs) q h above =
    let under : x < n = h.below.0 in
    rw (h.strung.0) (
      update-ne l.next n q (some x) (λ e. absurd (omega arith)) ∙ (h.free q (omega arith)).0,
      update-ne l.prev x q (some n) (λ e. absurd (omega arith)) ∙ (h.free q (omega arith)).1,
    )

pub insert_before-IsStrung :
    (n : ℕ) (l : Links) (xs : List ℕ)
    → IsStrung n l xs
    → IsStrung (suc n) (insert_before n (first xs) l) (n ∷ xs)
insert_before-IsStrung n l xs h = record {
  strung = insert_before-Strung n l xs h;
  free = λ q above. insert_before-free n l xs q h above;
  distinct = (Absent-below n xs h.below, h.distinct);
  below = (omega arith, All-below n xs h.below);
}

-- length counts the nodes.
count-Listed :
    (fuel p : ℕ) (l : Links) (xs : List ℕ)
    → Listed l p xs
    → length xs ≤ fuel
    → count_from fuel (l.next p) l ≡ length xs
unfolding count_from
count-Listed zero p l [] h enough = refl
count-Listed (suc fuel) p l [] h enough = rw (h) refl
count-Listed zero p l (x ∷ xs) h enough = absurd (omega arith)
count-Listed (suc fuel) p l (x ∷ xs) h enough =
    rw (h.0) (ap suc (count-Listed fuel x l xs h.2 (omega arith)))

pub count-Strung :
    (fuel : ℕ) (l : Links) (xs : List ℕ)
    → Strung l xs
    → length xs ≤ fuel
    → count_from fuel (first xs) l ≡ length xs
unfolding count_from
count-Strung zero l [] h enough = refl
count-Strung (suc fuel) l [] h enough = refl
count-Strung zero l (x ∷ xs) h enough = absurd (omega arith)
count-Strung (suc fuel) l (x ∷ xs) h enough = ap suc (count-Listed fuel x l xs h.1 (omega arith))
