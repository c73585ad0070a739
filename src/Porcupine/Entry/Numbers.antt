-- ===== src/Porcupine/Entry/Numbers.antt =====
-- The entries that makeEntries of Lab 2/src/porcupine/checker.go makes, in any order.
use mathlib.Core.Path.{subst}
use mathlib.Core.List.{Permᴰ}
use tda596_labs.Base.{
  ℕ, suc, ◌+◌, ◌*◌, ◌≤◌, ◌<◌, ◌≡◌, ◌≢◌, refl, sym, ap, ◌∙◌, arith, List, [], ◌∷◌, All, length,
}
use tda596_labs.Porcupine.Model.{Operation}
use tda596_labs.Porcupine.Entry.{Entry, call_entry, return_entry, entries_from}
use tda596_labs.Porcupine.Spec.{IsCall, IsCalledOnce}

pub All-Perm : {A : Type 0} (P : A → Type 0) {xs ys : List A} → Permᴰ xs ys → All P ys → All P xs
All-Perm P Permᴰ.nil h = tt
All-Perm P (Permᴰ.cons same p) h = (subst P (sym same) h.0, All-Perm P p h.1)
All-Perm P (Permᴰ.swap a b) h = (subst P (sym a) h.1.0, (subst P (sym b) h.0, h.1.1))
All-Perm P (Permᴰ.trans p q) h = All-Perm P p (All-Perm P q h)

pub length-Perm : {A : Type 0} {xs ys : List A} → Permᴰ xs ys → length xs ≡ length ys
length-Perm Permᴰ.nil = refl
length-Perm (Permᴰ.cons same p) = ap suc (length-Perm p)
length-Perm (Permᴰ.swap a b) = refl
length-Perm (Permᴰ.trans p q) = length-Perm p ∙ length-Perm q

module _ {V : Type 0} where
  abbrev IsOther : Entry V → Entry V → Type 0
  IsOther e f = IsCall e → IsCall f → f.id ≢ e.id

  -- The order of the entries does not matter for the numbers of the calls.
  pub IsCalledOnce-Perm : {xs ys : List (Entry V)} → Permᴰ xs ys → IsCalledOnce ys → IsCalledOnce xs
  IsCalledOnce-Perm Permᴰ.nil h = tt
  IsCalledOnce-Perm (Permᴰ.cons {a = a} {b = b} {l₁ = l} {l₂ = l'} same p) h = (
    All-Perm (IsOther a) p (subst (λ e. All (IsOther e) l') (sym same) h.0),
    IsCalledOnce-Perm p h.1,
  )
  IsCalledOnce-Perm (Permᴰ.swap {a = a} {b = b} {l = l} same same') h = (
    (
      λ is_a is_b e.
          h.0.0 (subst IsCall same' is_b) (subst IsCall same is_a)
            (ap (λ q. q.id) (sym same) ∙ sym e ∙ ap (λ q. q.id) same'),
      subst (λ e. All (IsOther e) l) (sym same) h.1.0,
    ),
    (subst (λ e. All (IsOther e) l) (sym same') h.0.1, h.1.1),
  )
  IsCalledOnce-Perm (Permᴰ.trans p q) h = IsCalledOnce-Perm p (IsCalledOnce-Perm q h)

  abbrev call_of : ℕ → Operation V → Entry V
  call_of id v = record {
    kind = call_entry;
    value = v.input;
    id = id;
    time = v.call;
    client_id = v.client_id;
  }

  abbrev return_of : ℕ → Operation V → Entry V
  return_of id v = record {
    kind = return_entry;
    value = v.output;
    id = id;
    time = v.return;
    client_id = v.client_id;
  }

  -- The entries of makeEntries before they are sorted: their numbers count the operations.
  pub entries_from-bounds :
      (id : ℕ) (part : List (Operation V))
      → All (λ e. (id ≤ e.id) × (e.id < id + length part)) (entries_from id part)
  unfolding entries_from
  entries_from-bounds id [] = tt
  entries_from-bounds id (v ∷ part) = (
    (omega arith, omega arith),
    (
      (omega arith, omega arith),
      shift (entries_from (suc id) part) (entries_from-bounds (suc id) part),
    ),
  )
    where
      shift :
          (es : List (Entry V))
          → All (λ e. (suc id ≤ e.id) × (e.id < suc id + length part)) es
          → All (λ e. (id ≤ e.id) × (e.id < id + suc (length part))) es
      shift [] h = tt
      shift (e ∷ es) h = ((omega (arith, h.0.0), omega (arith, h.0.1)), shift es h.1)

  later_ids :
      (id n : ℕ) (own : Entry V) (es : List (Entry V))
      → own.id ≡ id
      → All (λ e. (suc id ≤ e.id) × (e.id < n)) es
      → All (IsOther own) es
  later_ids id n own [] same h = tt
  later_ids id n own (e ∷ es) same h =
      (λ x y equal. let low = h.0.0 in absurd (omega arith), later_ids id n own es same h.1)

  pub entries_from-IsCalledOnce :
      (id : ℕ) (part : List (Operation V)) → IsCalledOnce (entries_from id part)
  unfolding entries_from
  entries_from-IsCalledOnce id [] = tt
  entries_from-IsCalledOnce id (v ∷ part) =
      let later = entries_from-bounds (suc id) part in
      (
        (
          λ x y. absurd (cc),
          later_ids id (suc id + length part) (call_of id v) (entries_from (suc id) part) refl
              later,
        ),
        (
          later_ids id (suc id + length part) (return_of id v) (entries_from (suc id) part) refl
              later,
          entries_from-IsCalledOnce (suc id) part,
        ),
      )

  pub length-entries_from :
      (id : ℕ) (part : List (Operation V)) → length (entries_from id part) ≡ 2 * length part
  unfolding entries_from
  length-entries_from id [] = omega arith
  length-entries_from id (v ∷ part) = omega (arith, length-entries_from (suc id) part)

  module _ (IsInput IsOutput : V → Type 0) where
    -- An entry with a value of the right type.
    abbrev pub IsTyped : Entry V → Type 0
    IsTyped e = elim e.kind [ call_entry ↦ IsInput e.value | return_entry ↦ IsOutput e.value ]

    abbrev pub IsTypedOperation : Operation V → Type 0
    IsTypedOperation v = IsInput v.input × IsOutput v.output

    pub entries_from-IsTyped :
        (id : ℕ) (part : List (Operation V))
        → All IsTypedOperation part
        → All IsTyped (entries_from id part)
    unfolding entries_from
    entries_from-IsTyped id [] h = tt
    entries_from-IsTyped id (v ∷ part) h = (h.0.0, (h.0.1, entries_from-IsTyped (suc id) part h.1))

  pub zero_low :
      (n : ℕ) (es : List (Entry V))
      → All (λ e. (0 ≤ e.id) × (e.id < 0 + n)) es
      → All (λ e. e.id < n) es
  zero_low n [] h = tt
  zero_low n (e ∷ es) h = (let low = h.0.1 in omega arith, zero_low n es h.1)
