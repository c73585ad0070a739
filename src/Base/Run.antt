-- ===== src/Base/Run.antt =====
-- The outcome of Go code that may panic or stop the process.
use mathlib.Core.Path.{◌≡◌, refl, subst}
use mathlib.Core.Option.{Option, none, some}

pub data Run {ℓ} (A : Type ℓ) : Type ℓ where
  ok : A → Run A
  -- a run-time panic, or `log.Fatal`
  panic : Run A

infixl 5 ◌>>=◌ ◌>>◌
abbrev pub ◌>>=◌ {ℓ κ} : {A : Type ℓ} {B : Type κ} → Run A → (A → Run B) → Run B
ok a >>= f = f a
panic >>= f = panic

abbrev pub ◌>>◌ {ℓ} : {B : Type ℓ} → Run (Unit {0}) → Run B → Run B
m >> k = m >>= λ _. k

-- A value that must be there: an index in range, an error that is nil.
abbrev pub expect {ℓ} : {A : Type ℓ} → Option A → Run A
expect none = panic
expect (some a) = ok a

-- The run ends well, with a result that satisfies P.
abbrev pub Returns {ℓ} : {A : Type ℓ} → (A → Type 0) → Run A → Type 0
Returns P (ok a) = P a
Returns P panic = ⊥

pub of_Returns {ℓ} :
    {A : Type ℓ} (P : A → Type 0) {r : Run A} {a : A} → Returns P r → r ≡ ok a → P a
of_Returns P h e = subst (Returns P) e h

pub Returns-mono {ℓ} :
    {A : Type ℓ} (P Q : A → Type 0) (r : Run A) → Returns P r → ((a : A) → P a → Q a) → Returns Q r
Returns-mono P Q (ok a) h weaken = weaken a h
Returns-mono P Q panic h weaken = h

pub Returns-bind {ℓ κ} :
    {A : Type ℓ} {B : Type κ} (P : A → Type 0) (Q : B → Type 0) (r : Run A) (f : A → Run B)
    → Returns P r
    → ((a : A) → P a → Returns Q (f a))
    → Returns Q (r >>= f)
Returns-bind P Q (ok a) f h then_next = then_next a h
Returns-bind P Q panic f h then_next = h

-- If the run ends well, its result satisfies P.
abbrev pub Allows {ℓ} : {A : Type ℓ} → (A → Type 0) → Run A → Type 0
Allows P (ok a) = P a
Allows P panic = Unit

pub of_Allows {ℓ} : {A : Type ℓ} (P : A → Type 0) {r : Run A} {a : A} → Allows P r → r ≡ ok a → P a
of_Allows P h e = subst (Allows P) e h

pub Allows-bind {ℓ κ} :
    {A : Type ℓ} {B : Type κ} (P : A → Type 0) (Q : B → Type 0) (r : Run A) (f : A → Run B)
    → Allows P r
    → ((a : A) → P a → Allows Q (f a))
    → Allows Q (r >>= f)
Allows-bind P Q (ok a) f h then_next = then_next a h
Allows-bind P Q panic f h then_next = tt

pub Allows-all {ℓ} : {A : Type ℓ} (P : A → Type 0) (r : Run A) → ((a : A) → P a) → Allows P r
Allows-all P (ok a) h = h a
Allows-all P panic h = tt

pub Returns-cases {ℓ} :
    {A : Type ℓ} (P : A → Type 0) (r : Run A) → Returns P r → (a : A) × (r ≡ ok a) × P a
Returns-cases P (ok a) h = (a, refl, h)
Returns-cases P panic h = absurd h
