-- ===== src/Mr/Worker/Groups.antt =====
-- A Go map from keys to values, as worker.go builds it and ranges over it.
use mathlib.Core.List.{Permᴰ}
use mathlib.Core.Path.{subst}
use tda596_labs.Base.{
  ◌≡◌, ◌≢◌, refl, sym, ◌∙◌, inl, inr, String, List, [], ◌∷◌, str_eq, str_eq_iff, GoEq-string, arith,
  All, Bool-cases,
}
use tda596_labs.Base.Dict.{lookup, insert}
use tda596_labs.Mr.Worker.{Groups}
use tda596_labs.Mr.Worker.Laws.{Without, IsOnce}

Without-insert :
    (own key : String) (new : List String) (groups : Groups)
    → own ≢ key
    → Without key groups
    → Without key (insert own new groups)
unfolding insert
Without-insert own key new [] ne a = (ne, tt)
Without-insert own key new ((k, vs) ∷ groups) ne a = elim (Bool-cases (str_eq own k)) [
  | inl same ↦ rw (same) a
  | inr other ↦ rw (other) (a.0, Without-insert own key new groups ne a.1)
]

pub IsOnce-insert :
    (own : String) (new : List String) (groups : Groups)
    → IsOnce groups
    → IsOnce (insert own new groups)
unfolding insert
IsOnce-insert own new [] once = (tt, tt)
IsOnce-insert own new ((k, vs) ∷ groups) once = elim (Bool-cases (str_eq own k)) [
  | inl same ↦ rw (same) once
  | inr other ↦ rw (other) (
    Without-insert own k new groups (λ e. absurd (grind (arith, str_eq_iff own k, e, other)))
        once.0,
    IsOnce-insert own new groups once.1,
  )
]

All-Perm : (P : String × List String → Type 0) {xs ys : Groups} → Permᴰ xs ys → All P xs → All P ys
All-Perm P Permᴰ.nil a = tt
All-Perm P (Permᴰ.cons e p) a = (subst P e a.0, All-Perm P p a.1)
All-Perm P (Permᴰ.swap e e') a = (subst P e' a.1.0, (subst P e a.0, a.1.1))
All-Perm P (Permᴰ.trans p q) a = All-Perm P q (All-Perm P p a)

-- Another order of the groups.
pub IsOnce-Perm : {xs ys : Groups} → Permᴰ xs ys → IsOnce xs → IsOnce ys
IsOnce-Perm Permᴰ.nil once = tt
IsOnce-Perm (Permᴰ.cons {a = a} {l₂ = ys} e p) once =
    subst (λ g. IsOnce (g ∷ ys)) e (All-Perm (λ g. g.0 ≢ a.0) p once.0, IsOnce-Perm p once.1)
IsOnce-Perm (Permᴰ.swap {a = a} {b = b} {a' = a'} {l = l} e e') once =
    subst (λ g. IsOnce (a' ∷ g ∷ l)) e
      (subst (λ g. IsOnce (g ∷ a ∷ l)) e'
        (((λ same. once.0.0 (sym same)), once.1.0), (once.0.1, once.1.1)))
IsOnce-Perm (Permᴰ.trans p q) once = IsOnce-Perm q (IsOnce-Perm p once)

lookup-swap :
    (key : String) (a b : String × List String) (l : Groups)
    → b.0 ≢ a.0
    → lookup key (a ∷ b ∷ l) ≡ lookup key (b ∷ a ∷ l)
unfolding lookup
lookup-swap key a b l ne = elim (Bool-cases (str_eq a.0 key)) [
  | inl same ↦ elim (Bool-cases (str_eq b.0 key)) [
    | inl same' ↦ absurd (ne ((str_eq_iff b.0 key).0 same' ∙ sym ((str_eq_iff a.0 key).0 same)))
    | inr other' ↦ rw (same, other') refl
  ]
  | inr other ↦ rw (other) refl
]

pub lookup-Perm :
    (key : String) {xs ys : Groups} → Permᴰ xs ys → IsOnce xs → lookup key ys ≡ lookup key xs
unfolding lookup
lookup-Perm key Permᴰ.nil once = refl
lookup-Perm key (Permᴰ.cons {a = a} {l₁ = xs} {l₂ = ys} e p) once =
    subst (λ g. lookup key (g ∷ ys) ≡ lookup key (a ∷ xs)) e (rw (lookup-Perm key p once.1) refl)
lookup-Perm key (Permᴰ.swap {a = a} {b = b} {a' = a'} {l = l} e e') once =
    subst (λ g. lookup key (a' ∷ g ∷ l) ≡ lookup key (a ∷ b ∷ l)) e
      (subst (λ g. lookup key (g ∷ a ∷ l) ≡ lookup key (a ∷ b ∷ l)) e'
        (sym (lookup-swap key a b l once.0.0)))
lookup-Perm key (Permᴰ.trans p q) once =
    lookup-Perm key q (IsOnce-Perm p once) ∙ lookup-Perm key p once
