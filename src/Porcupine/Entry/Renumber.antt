-- ===== src/Porcupine/Entry/Renumber.antt =====
-- renumber of Lab 2/src/porcupine/checker.go.
use tda596_labs.Base.{
  GoEq-nat, ℕ, suc, ◌<◌, ◌≡◌, ◌↔◌, refl, sym, ap, ◌∙◌, ◌⊎◌, inl, inr, arith, Option, none, some,
  List, [], ◌∷◌, All, nat_eq, nat_eq_iff, if◌then◌else◌, Bool-cases, Option-cases,
}
use tda596_labs.Base.Dict.{lookup, insert, lookup-insert}
use tda596_labs.Porcupine.Model.{Event}
use tda596_labs.Porcupine.Entry.{renumber_from, renumber}
use tda596_labs.Porcupine.Links.Listed.{some_eq}

abbrev Numbering : Type 0
Numbering = List (ℕ × ℕ)

-- Different numbers get different new numbers, which are below the next one.
record IsNumbering (m : Numbering) (id : ℕ) : Type 0 where
  one : (a b r : ℕ) → lookup a m ≡ some r → lookup b m ≡ some r → a ≡ b
  below : (a r : ℕ) → lookup a m ≡ some r → r < id

abbrev Extends : Numbering → Numbering → Type 0
Extends m m' = (a r : ℕ) → lookup a m ≡ some r → lookup a m' ≡ some r

-- What a new number leaves at a number.
insert-cases :
    (own id a r : ℕ) (m : Numbering)
    → lookup a (insert own id m) ≡ some r
    → ((own ≡ a) × (id ≡ r)) ⊎ (lookup a m ≡ some r)
insert-cases own id a r m e =
    let e' : (if nat_eq own a then some id else lookup a m) ≡ some r =
      sym (lookup-insert own a id m) ∙ e in
    elim (Bool-cases (nat_eq own a)) [
      | inl same ↦ inl (
        (nat_eq_iff own a).0 same,
        some_eq (sym (ap (λ q. if q then some id else lookup a m) same) ∙ e'),
      )
      | inr other ↦ inr (sym (ap (λ q. if q then some id else lookup a m) other) ∙ e')
    ]

insert-own : (own id : ℕ) (m : Numbering) → lookup own (insert own id m) ≡ some id
insert-own own id m =
    lookup-insert own own id m
    ∙ ap (λ q. if q then some id else lookup own m) ((nat_eq_iff own own).1 refl)

insert-Extends : (own id : ℕ) (m : Numbering) → lookup own m ≡ none → Extends m (insert own id m)
insert-Extends own id m fresh a r e = elim (Bool-cases (nat_eq own a)) [
  | inl same ↦
      let gone : lookup a m ≡ none =
        sym (ap (λ q. lookup q m) ((nat_eq_iff own a).0 same)) ∙ fresh in
      absurd (cc)
  | inr other ↦ lookup-insert own a id m ∙ ap (λ q. if q then some id else lookup a m) other ∙ e
]

insert-IsNumbering :
    (own id : ℕ) (m : Numbering)
    → lookup own m ≡ none
    → IsNumbering m id
    → IsNumbering (insert own id m) (suc id)
insert-IsNumbering own id m fresh h = record {
  one = λ a b r at_a at_b. elim (insert-cases own id a r m at_a) [
    | inl (same_a, new_a) ↦ elim (insert-cases own id b r m at_b) [
      | inl (same_b, new_b) ↦ sym same_a ∙ same_b
      | inr old_b ↦ let low = h.below b r old_b in absurd (omega arith)
    ]
    | inr old_a ↦ elim (insert-cases own id b r m at_b) [
      | inl (same_b, new_b) ↦ let low = h.below a r old_a in absurd (omega arith)
      | inr old_b ↦ h.one a b r old_a old_b
    ]
  ];
  below = λ a r at. elim (insert-cases own id a r m at) [
    | inl (same, new) ↦ omega arith
    | inr old ↦ let low = h.below a r old in omega arith
  ];
}

abbrev or_zero : Option ℕ → ℕ
or_zero none = 0
or_zero (some r) = r

abbrev new_id : Numbering → ℕ → ℕ
new_id m a = or_zero (lookup a m)

same_id :
    (m : Numbering)
    → ((a b r : ℕ) → lookup a m ≡ some r → lookup b m ≡ some r → a ≡ b)
    → (a b r q : ℕ) → lookup a m ≡ some r
    → lookup b m ≡ some q
    → (new_id m a ≡ new_id m b) ↔ (a ≡ b)
same_id m one a b r q at_a at_b = (
  λ same. one a b r at_a (at_b ∙ ap some (sym (ap or_zero at_b) ∙ sym same ∙ ap or_zero at_a)),
  λ same. ap (new_id m) same,
)

module _ {V : Type 0} where
  abbrev pub with_ids : (ℕ → ℕ) → List (Event V) → List (Event V)
  with_ids f [] = []
  with_ids f (v ∷ events) = record v { id = f v.id } ∷ with_ids f events

  renumber_from_lem :
      (m : Numbering) (id : ℕ) (events : List (Event V))
      → IsNumbering m id
      → (m' : Numbering) × (renumber_from m id events
          ≡ with_ids (λ a. or_zero (lookup a m')) events)
        × Extends m m'
        × ((a b r : ℕ) → lookup a m' ≡ some r → lookup b m' ≡ some r → a ≡ b)
        × All (λ v. (r : ℕ) × (lookup v.id m' ≡ some r)) events
  unfolding renumber_from
  renumber_from_lem m id [] h = (m, refl, λ a r e. e, h.one, tt)
  renumber_from_lem m id (v ∷ events) h = elim (Option-cases (lookup v.id m)) [
    | inl fresh ↦
        let (m', eq, kept, one, all) =
          renumber_from_lem (insert v.id id m) (suc id) events
            (insert-IsNumbering v.id id m fresh h) in
        let at : lookup v.id m' ≡ some id = kept v.id id (insert-own v.id id m) in
        (
          m',
          rw (fresh, renumber_from) (λ k. record v { id = or_zero (sym at k) } ∷ eq k),
          λ a r e. kept a r (insert-Extends v.id id m fresh a r e),
          one,
          ((id, at), all),
        )
    | inr (r, there) ↦
        let (m', eq, kept, one, all) = renumber_from_lem m id events h in
        let at : lookup v.id m' ≡ some r = kept v.id r there in
        (
          m',
          rw (there, renumber_from) (λ k. record v { id = or_zero (sym at k) } ∷ eq k),
          kept,
          one,
          ((r, at), all),
        )
  ]

  module _ (m : Numbering)
      (one : (a b r : ℕ) → lookup a m ≡ some r → lookup b m ≡ some r → a ≡ b) where
    same_ids :
        (v : Event V) (r : ℕ) (events : List (Event V))
        → lookup v.id m ≡ some r
        → All (λ w. (q : ℕ) × (lookup w.id m ≡ some q)) events
        → All (λ w. (new_id m v.id ≡ new_id m w.id) ↔ (v.id ≡ w.id)) events
    same_ids v r [] at all = tt
    same_ids v r (w ∷ events) at all =
        (same_id m one v.id w.id r all.0.0 at all.0.1, same_ids v r events at all.1)

    All-same_ids :
        (vs events : List (Event V))
        → All (λ w. (q : ℕ) × (lookup w.id m ≡ some q)) vs
        → All (λ w. (q : ℕ) × (lookup w.id m ≡ some q)) events
        → All (λ v. All (λ w. (new_id m v.id ≡ new_id m w.id) ↔ (v.id ≡ w.id)) events) vs
    All-same_ids [] events all_v all = tt
    All-same_ids (v ∷ vs) events all_v all =
        (same_ids v all_v.0.0 events all_v.0.1 all, All-same_ids vs events all_v.1 all)

  -- renumber replaces the numbers of the events and nothing else. Two events get the same number exactly
  -- if they had the same number.
  pub renumber_lem :
      (events : List (Event V))
      → (f : ℕ → ℕ) × (renumber events ≡ with_ids f events)
        × All (λ v. All (λ w. (f v.id ≡ f w.id) ↔ (v.id ≡ w.id)) events) events
  unfolding renumber lookup
  renumber_lem events =
      let (m, eq, kept, one, all) =
        renumber_from_lem [] 0 events
          (record { one = λ a b r e e'. absurd (cc); below = λ a r e. absurd (cc) }) in
      ((λ a. or_zero (lookup a m)), eq, All-same_ids m one events events all all)
