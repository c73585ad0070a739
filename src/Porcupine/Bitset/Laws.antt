-- ===== src/Porcupine/Bitset/Laws.antt =====
-- The bit set of Lab 2/src/porcupine/bitset.go as a set of positions.
use Prim.Native.Nat.{bit_and, bit_or}
use mathlib.Core.Path.{subst}
use native.Mathlib.Nat.{one-le-pow}
use tda596_labs.Base.{
  ℕ, ◌+◌, ◌*◌, ◌/◌, ◌%◌, ◌^◌, ◌≤◌, ◌<◌, ◌≡◌, ◌≢◌, ◌↔◌, ◌⊎◌, inl, inr, refl, ap, ◌∙◌, arith, Bool,
  true, false, not, some, [], ◌∷◌, nat_eq, nat_eq_iff, if◌then◌else◌, length, get_elem?, set,
  replicate, Bool-cases, get_elem?-set_self, get_elem?-set_ne, get_elem?-of_lt, length-set,
  get_elem?-replicate, length-replicate,
}
use tda596_labs.Base.Bits.{
  digit, digit-lt, digit-of_zero, digit_of_or, digit_of_and_not, bit_and-eq-digit, and_not,
}
use tda596_labs.Base.Run.{ok, ◌>>=◌, Returns}
use tda596_labs.Porcupine.Bitset.{
  Bitset, new_bitset, set_bit, clear_bit, get_bit, same_words, equals,
}

-- The position is one of the words' bits.
abbrev pub InRange : ℕ → Bitset → Type 0
InRange pos b = pos < length b * 64

-- The test `word & (1 << i) != 0`.
abbrev one_at : ℕ → ℕ → Bool
one_at word i = not (nat_eq (bit_and word (2 ^ i)) 0)

digit-cases : (i word : ℕ) → (digit i word ≡ 0) ⊎ (digit i word ≡ 1)
digit-cases i word = elim (Bool-cases (nat_eq (digit i word) 0)) [
  | inl e ↦ inl ((nat_eq_iff (digit i word) 0).0 e)
  | inr e ↦ inr (grind (arith, digit-lt i word, e))
]

digit-one_at : (word i : ℕ) → one_at word i ≡ nat_eq (digit i word) 1
digit-one_at word i = elim (digit-cases i word) [
  | inl e ↦ rw (bit_and-eq-digit i word, e) (ground arith)
  | inr e ↦ rw (bit_and-eq-digit i word, e) (ground (arith, one-le-pow i 2))
]

word_at : (b : Bitset) (pos : ℕ) → InRange pos b → (word : ℕ) × (get_elem? b (pos / 64) ≡ some word)
word_at b pos h = get_elem?-of_lt b (pos / 64) (omega arith)

-- get answers by the digit of the word.
get_bit_lem :
    (b : Bitset) (pos : ℕ) {word : ℕ}
    → get_elem? b (pos / 64) ≡ some word
    → get_bit b pos ≡ ok (nat_eq (digit (pos % 64) word) 1)
unfolding get_bit
get_bit_lem b pos {word} e = rw (e) (ap ok (digit-one_at word (pos % 64)))

equal_place : (p q : ℕ) → p / 64 ≡ q / 64 → q % 64 ≡ p % 64 → nat_eq p q ≡ true
equal_place p q h k = (nat_eq_iff p q).1 (omega arith)

nat_eq-ne : (p q : ℕ) → p ≢ q → nat_eq p q ≡ false
nat_eq-ne p q h = ground (arith, nat_eq_iff p q)

other_minor : (p q : ℕ) → nat_eq (q % 64) (p % 64) ≡ false → nat_eq p q ≡ false
other_minor p q h =
    nat_eq-ne p q
      (λ e. absurd (grind (arith, nat_eq_iff (q % 64) (p % 64), h, ap (λ (t : ℕ). t % 64) e)))

other_major : (p q : ℕ) → p / 64 ≢ q / 64 → nat_eq p q ≡ false
other_major p q h = nat_eq-ne p q (λ e. h (ap (λ (t : ℕ). t / 64) e))

module _ (f : ℕ → ℕ → ℕ) (new : ℕ)
    (law : (j i word : ℕ)
      → digit j (f word (2 ^ i)) ≡ (if nat_eq j i then new else digit j word)) where
  -- A write of one digit of one word, as get sees it.
  get-write :
      (b : Bitset) (p q : ℕ) {word : ℕ}
      → InRange p b
      → InRange q b
      → get_elem? b (p / 64) ≡ some word
      → get_bit (set b (p / 64) (f word (2 ^ (p % 64)))) q
        ≡ (if nat_eq p q then ok (nat_eq new 1) else get_bit b q)
  get-write b p q {word} hp hq e = elim (Bool-cases (nat_eq (p / 64) (q / 64))) [
    | inl same ↦
        let major : p / 64 ≡ q / 64 = (nat_eq_iff (p / 64) (q / 64)).0 same in
        let mine = get_elem?-set_self b (p / 64) (f word (2 ^ (p % 64))) (omega arith) in
        let at_q : get_elem? (set b (p / 64) (f word (2 ^ (p % 64)))) (q / 64)
            ≡ some (f word (2 ^ (p % 64))) =
          subst
            (λ k.
              get_elem? (set b (p / 64) (f word (2 ^ (p % 64)))) k ≡ some (f word (2 ^ (p % 64))))
            major mine in
        let old : get_elem? b (q / 64) ≡ some word =
          subst (λ k. get_elem? b k ≡ some word) major e in
        rw
          (
            get_bit_lem (set b (p / 64) (f word (2 ^ (p % 64)))) q at_q,
            law (q % 64) (p % 64) word,
            get_bit_lem b q old,
          )
          (elim (Bool-cases (nat_eq (q % 64) (p % 64))) [
            | inl equal ↦
                rw (equal, equal_place p q major ((nat_eq_iff (q % 64) (p % 64)).0 equal)) refl
            | inr other ↦ rw (other, other_minor p q other) refl
          ])
    | inr other ↦
        let ne : p / 64 ≢ q / 64 =
          λ same. absurd (grind (arith, nat_eq_iff (p / 64) (q / 64), same, other)) in
        let (old, at_q) = word_at b q hq in
        rw
          (
            get_bit_lem (set b (p / 64) (f word (2 ^ (p % 64)))) q
                (get_elem?-set_ne b (f word (2 ^ (p % 64))) ne ∙ at_q),
            get_bit_lem b q at_q,
            other_major p q ne,
          )
          refl
  ]

-- For two positions in range: after set of the first, get of the second answers true if they are the same
-- and what it answered before if not; after clear, it answers false or what it answered before.
pub bitset_lem :
    (b : Bitset) (p q : ℕ)
    → InRange p b
    → InRange q b
    → ((set_bit b p >>= λ b'. get_bit b' q) ≡ (if nat_eq p q then ok true else get_bit b q))
      × ((clear_bit b p >>= λ b'. get_bit b' q) ≡ (if nat_eq p q then ok false else get_bit b q))
unfolding set_bit clear_bit
bitset_lem b p q hp hq =
    let (word, e) = word_at b p hp in
    (
      rw (e) (get-write bit_or 1 digit_of_or b p q hp hq e),
      rw (e) (get-write and_not 0 digit_of_and_not b p q hp hq e),
    )

chunks : (n : ℕ) → n ≤ (n / 64 + (if not (nat_eq (n % 64) 0) then 1 else 0)) * 64
chunks n = ground arith

pub InRange-new_bitset : (n q : ℕ) → q < n → InRange q (new_bitset n)
unfolding new_bitset
InRange-new_bitset n q h = omega (
  arith,
  chunks n,
  length-replicate {A = ℕ} (n / 64 + (if not (nat_eq (n % 64) 0) then 1 else 0)) 0,
)

-- A new set is empty.
pub get-new_bitset : (n q : ℕ) → q < n → get_bit (new_bitset n) q ≡ ok false
unfolding new_bitset
get-new_bitset n q h =
    let size = n / 64 + (if not (nat_eq (n % 64) 0) then 1 else 0) in
    get_bit_lem (replicate size 0) q (get_elem?-replicate size (q / 64) 0 (omega (arith, chunks n)))
    ∙ rw (digit-of_zero (q % 64)) refl

some_eq : {m n : ℕ} → some m ≡ some n → m ≡ n
some_eq e = cc

first_eq : {v w : ℕ} {b b2 : Bitset} → v ∷ b ≡ w ∷ b2 → v ≡ w
first_eq e = cc

rest_eq : {v w : ℕ} {b b2 : Bitset} → v ∷ b ≡ w ∷ b2 → b ≡ b2
rest_eq e = cc

same_words_iff : (b b2 : Bitset) → length b ≡ length b2 → (same_words b b2 ≡ true) ↔ (b ≡ b2)
unfolding same_words
same_words_iff [] [] h = (λ e. refl, λ e. refl)
same_words_iff [] (w ∷ b2) h = absurd (omega arith)
same_words_iff (v ∷ b) [] h = absurd (omega arith)
same_words_iff (v ∷ b) (w ∷ b2) h =
    let ih = same_words_iff b b2 (omega arith) in
    elim (Bool-cases (nat_eq v w)) [
      | inl same ↦ rw (same) (λ e. cc ((nat_eq_iff v w).0 same, ih.0 e), λ e. ih.1 (rest_eq e))
      | inr other ↦ rw (other) (
        λ e. absurd (grind (arith, e)),
        λ e. absurd (grind (arith, nat_eq_iff v w, other, first_eq e)),
      )
    ]

-- equals answers true exactly if the two bit sets have the same words.
pub equals_iff : (b b2 : Bitset) → (equals b b2 ≡ true) ↔ (b ≡ b2)
unfolding equals
equals_iff b b2 = elim (Bool-cases (nat_eq (length b) (length b2))) [
  | inl same ↦ rw (same) (same_words_iff b b2 ((nat_eq_iff (length b) (length b2)).0 same))
  | inr other ↦ rw (other) (
    λ e. absurd (grind (arith, e)),
    λ e. absurd (grind (arith, nat_eq_iff (length b) (length b2), other, ap length e)),
  )
]

-- Set and clear end well within the words, and keep their number.
pub set_bit-length :
    (b : Bitset) (p : ℕ) → InRange p b → Returns (λ b'. length b' ≡ length b) (set_bit b p)
unfolding set_bit
set_bit-length b p hp = let (word, e) = word_at b p hp in rw (e) (length-set b (p / 64) _)

pub clear_bit-length :
    (b : Bitset) (p : ℕ) → InRange p b → Returns (λ b'. length b' ≡ length b) (clear_bit b p)
unfolding clear_bit
clear_bit-length b p hp = let (word, e) = word_at b p hp in rw (e) (length-set b (p / 64) _)
