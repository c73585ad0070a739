-- ===== src/Base/Dict.antt =====
-- A Go map as an association list: one entry for each key, new keys behind the old ones.
use mathlib.Core.Path.{◌≡◌, refl}
use mathlib.Core.List.{List, [], ◌∷◌}
use mathlib.Core.Option.{Option, none, some}
use native.Mathlib.Omega.{arith}
use tda596_labs.Base.Tests.{if◌then◌else◌, GoEq, ◌==◌}

module _ {ℓ κ} {K : Type ℓ} {V : Type κ} ⦃e : GoEq K⦄ where
  -- `entries[key] = new`
  unfoldable pub insert : K → V → List (K × V) → List (K × V)
  insert key new [] = (key, new) ∷ []
  insert key new ((own, old) ∷ entries) =
      if key == own then (own, new) ∷ entries else (own, old) ∷ insert key new entries

  -- `entries[key]`, with `none` for a missing key.
  unfoldable pub lookup : K → List (K × V) → Option V
  lookup key [] = none
  lookup key ((own, value) ∷ entries) = if own == key then some value else lookup key entries

  pub lookup-insert :
      (key asked : K) (new : V) (entries : List (K × V))
      → lookup asked (insert key new entries)
        ≡ (if key == asked then some new else lookup asked entries)
  unfolding insert lookup
  lookup-insert key asked new [] = refl
  lookup-insert key asked new ((own, old) ∷ entries) = ground (
    arith,
    lookup-insert key asked new entries,
    e.equal_iff key asked,
    e.equal_iff key own,
    e.equal_iff own asked,
  )
