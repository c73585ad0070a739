-- ===== src/Base/Bits.antt =====
-- Bit operations at variables: a law for the lowest digit of each, and laws of a single bit.
use Prim.Native.Nat.{
  ℕ, zero, suc, ◌+◌, ◌*◌, ◌/◌, ◌%◌, ◌^◌, ◌≤◌, ◌<◌, min, max, bit_and, bit_or, bit_xor, digits,
  bitwise, differ, bit_and-bitwise, bit_or-bitwise, bit_xor-bitwise,
}
use mathlib.Core.Path.{◌≡◌, refl, sym, ap, ◌∙◌}
use mathlib.Core.Bool.{false}
use native.Mathlib.Nat.{pow-suc}
use native.Mathlib.Omega.{arith}
use tda596_labs.Base.Tests.{nat_eq, if◌then◌else◌}

-- What holds of 0, and of a number if it holds of its half, holds of all numbers.
by_halves : (P : ℕ → Type 0) → P 0 → ((a : ℕ) → P (suc a / 2) → P (suc a)) → (a : ℕ) → P a
by_halves P start next a = up_to a a (omega arith)
  where
    up_to : (bound a : ℕ) → a ≤ bound → P a
    up_to bound zero h = start
    up_to zero (suc a) h = absurd (omega arith)
    up_to (suc bound) (suc a) h = next a (up_to bound (suc a / 2) (omega arith))

module _ (z : ℕ → ℕ) (f : ℕ → ℕ → ℕ) (law : (b : ℕ) → z b ≡ z (b / 2) * 2 + f 0 (b % 2)) where
  -- Any count of digits to go serves that is as large as the number.
  digits_enough : (bound n a b : ℕ) → n ≤ bound → a ≤ n → digits z f n a b ≡ bitwise z f a b
  digits_enough bound zero zero b below enough = refl
  digits_enough bound (suc n) zero b below enough = refl
  digits_enough bound zero (suc a) b below enough = absurd (omega arith)
  digits_enough zero (suc n) (suc a) b below enough = absurd (omega arith)
  digits_enough (suc bound) (suc n) (suc a) b below enough =
      let own = digits_enough bound n (suc a / 2) (b / 2) (omega arith) (omega arith) in
      let least = digits_enough bound a (suc a / 2) (b / 2) (omega arith) (omega arith) in
      ap (λ (q : ℕ). q * 2 + f (suc a % 2) (b % 2)) (own ∙ sym least)

  bitwise_step : (a b : ℕ) → bitwise z f a b ≡ bitwise z f (a / 2) (b / 2) * 2 + f (a % 2) (b % 2)
  bitwise_step zero b = law b
  bitwise_step (suc a) b =
      ap (λ (q : ℕ). q * 2 + f (suc a % 2) (b % 2))
        (digits_enough a a (suc a / 2) (b / 2) (omega arith) (omega arith))

pub bit_and_step : (a b : ℕ) → bit_and a b ≡ bit_and (a / 2) (b / 2) * 2 + min (a % 2) (b % 2)
bit_and_step a b =
    rw (bit_and-bitwise a b, bit_and-bitwise (a / 2) (b / 2))
      (bitwise_step (λ b. zero) min (λ b. omega arith) a b)

pub bit_or_step : (a b : ℕ) → bit_or a b ≡ bit_or (a / 2) (b / 2) * 2 + max (a % 2) (b % 2)
bit_or_step a b =
    rw (bit_or-bitwise a b, bit_or-bitwise (a / 2) (b / 2))
      (bitwise_step (λ b. b) max (λ b. omega arith) a b)

pub bit_xor_step : (a b : ℕ) → bit_xor a b ≡ bit_xor (a / 2) (b / 2) * 2 + differ (a % 2) (b % 2)
bit_xor_step a b =
    rw (bit_xor-bitwise a b, bit_xor-bitwise (a / 2) (b / 2))
      (bitwise_step (λ b. b) differ (λ b. omega arith) a b)

bit_or-zero : (a : ℕ) → bit_or a 0 ≡ a
bit_or-zero =
    by_halves (λ a. bit_or a 0 ≡ a) (omega (arith, bit_or_step 0 0))
      (λ a half. omega (arith, bit_or_step (suc a) 0, half))

bit_and-zero : (a : ℕ) → bit_and a 0 ≡ 0
bit_and-zero =
    by_halves (λ a. bit_and a 0 ≡ 0) (omega (arith, bit_and_step 0 0))
      (λ a half. omega (arith, bit_and_step (suc a) 0, half))

differ-zero : (x : ℕ) → differ x 0 ≡ x
differ-zero zero = refl
differ-zero (suc x) = refl

bit_xor-zero : (a : ℕ) → bit_xor a 0 ≡ a
bit_xor-zero =
    by_halves (λ a. bit_xor a 0 ≡ a) (ground (arith, bit_xor_step 0 0))
      (λ a half. omega (arith, bit_xor_step (suc a) 0, differ-zero (suc a % 2), half))

-- The i-th digit.
unfoldable pub digit : ℕ → ℕ → ℕ
digit zero a = a % 2
digit (suc i) a = digit i (a / 2)

pub digit-lt : (i a : ℕ) → digit i a < 2
unfolding digit
digit-lt zero a = omega arith
digit-lt (suc i) a = digit-lt i (a / 2)

pub digit-of_zero : (i : ℕ) → digit i 0 ≡ 0
unfolding digit
digit-of_zero zero = refl
digit-of_zero (suc i) = digit-of_zero i

pow_half : (i : ℕ) → 2 ^ suc i / 2 ≡ 2 ^ i
pow_half i = omega (arith, pow-suc 2 i)

pow_even : (i : ℕ) → 2 ^ suc i % 2 ≡ 0
pow_even i = omega (arith, pow-suc 2 i)

differ-lt : (x y : ℕ) → x < 2 → y < 2 → differ x y < 2
differ-lt zero y h k = k
differ-lt (suc zero) zero h k = omega arith
differ-lt (suc zero) (suc zero) h k = omega arith
differ-lt (suc zero) (suc (suc y)) h k = absurd (omega arith)
differ-lt (suc (suc x)) y h k = absurd (omega arith)

half_or :
    (a b : ℕ) → (bit_or a b / 2 ≡ bit_or (a / 2) (b / 2)) × (bit_or a b % 2 ≡ max (a % 2) (b % 2))
half_or a b = omega (arith, bit_or_step a b)

half_and :
    (a b : ℕ)
    → (bit_and a b / 2 ≡ bit_and (a / 2) (b / 2)) × (bit_and a b % 2 ≡ min (a % 2) (b % 2))
half_and a b = omega (arith, bit_and_step a b)

half_xor :
    (a b : ℕ)
    → (bit_xor a b / 2 ≡ bit_xor (a / 2) (b / 2)) × (bit_xor a b % 2 ≡ differ (a % 2) (b % 2))
half_xor a b = omega (arith, bit_xor_step a b, differ-lt (a % 2) (b % 2))

nat_eq-zero-suc : (i : ℕ) → nat_eq 0 (suc i) ≡ false
nat_eq-zero-suc i = ground arith

nat_eq-suc-zero : (j : ℕ) → nat_eq (suc j) 0 ≡ false
nat_eq-suc-zero j = ground arith

nat_eq-suc-suc : (j i : ℕ) → nat_eq (suc j) (suc i) ≡ nat_eq j i
nat_eq-suc-suc j i = ground arith

differ-min : (x : ℕ) → x < 2 → differ x (min x 1) ≡ 0
differ-min zero h = refl
differ-min (suc zero) h = refl
differ-min (suc (suc x)) h = absurd (omega arith)

differ-zero_min : (x : ℕ) → differ x (min x 0) ≡ x
differ-zero_min x = ap (differ x) (omega arith) ∙ differ-zero x

pub digit_of_or : (j i a : ℕ) → digit j (bit_or a (2 ^ i)) ≡ (if nat_eq j i then 1 else digit j a)
unfolding digit
digit_of_or zero zero a = omega (arith, half_or a 1)
digit_of_or zero (suc i) a =
    rw (nat_eq-zero-suc i) (omega (arith, half_or a (2 ^ suc i), pow_even i))
digit_of_or (suc j) zero a =
    rw (nat_eq-suc-zero j) (ap (digit j) ((half_or a 1).0 ∙ bit_or-zero (a / 2)))
digit_of_or (suc j) (suc i) a = rw (nat_eq-suc-suc j i) (
    ap (digit j) ((half_or a (2 ^ suc i)).0 ∙ ap (bit_or (a / 2)) (pow_half i))
    ∙ digit_of_or j i (a / 2))

pub bit_and-eq-digit : (i a : ℕ) → bit_and a (2 ^ i) ≡ digit i a * 2 ^ i
unfolding digit
bit_and-eq-digit zero a = omega (arith, bit_and_step a 1, bit_and-zero (a / 2))
bit_and-eq-digit (suc i) a = omega (
  arith,
  bit_and_step a (2 ^ suc i),
  ap (bit_and (a / 2)) (pow_half i),
  pow_even i,
  bit_and-eq-digit i (a / 2),
  ap (λ (t : ℕ). digit i (a / 2) * t) (pow-suc 2 i),
)

-- `a &^ b`
abbrev pub and_not : ℕ → ℕ → ℕ
and_not a b = bit_xor a (bit_and a b)

half_and_not :
    (a b : ℕ)
    → (and_not a b / 2 ≡ and_not (a / 2) (b / 2))
      × (and_not a b % 2 ≡ differ (a % 2) (min (a % 2) (b % 2)))
half_and_not a b = (
  (half_xor a (bit_and a b)).0 ∙ ap (bit_xor (a / 2)) (half_and a b).0,
  (half_xor a (bit_and a b)).1 ∙ ap (differ (a % 2)) (half_and a b).1,
)

pub digit_of_and_not :
    (j i a : ℕ) → digit j (and_not a (2 ^ i)) ≡ (if nat_eq j i then 0 else digit j a)
unfolding digit
digit_of_and_not zero zero a = (half_and_not a 1).1 ∙ differ-min (a % 2) (omega arith)
digit_of_and_not zero (suc i) a = rw (nat_eq-zero-suc i) (
    (half_and_not a (2 ^ suc i)).1
    ∙ ap (λ (t : ℕ). differ (a % 2) (min (a % 2) t)) (pow_even i)
    ∙ differ-zero_min (a % 2))
digit_of_and_not (suc j) zero a = rw (nat_eq-suc-zero j) (
    ap (digit j)
      ((half_and_not a 1).0 ∙ ap (bit_xor (a / 2)) (bit_and-zero (a / 2)) ∙ bit_xor-zero (a / 2)))
digit_of_and_not (suc j) (suc i) a = rw (nat_eq-suc-suc j i) (
    ap (digit j) ((half_and_not a (2 ^ suc i)).0 ∙ ap (and_not (a / 2)) (pow_half i))
    ∙ digit_of_and_not j i (a / 2))
