-- ===== src/Porcupine/Bitset.antt =====
-- Lab 2/src/porcupine/bitset.go. A word is a number below 2 ^ 64. An index out of range panics; a
-- method that writes returns the new words.
pub mod Laws
mod Tests
use Prim.Native.Nat.{bit_and, bit_or, bit_xor}
use tda596_labs.Base.{
  ℕ, zero, suc, ◌+◌, ◌/◌, ◌%◌, ◌^◌, Bool, true, false, not, ◌&&◌, Option, none, some, List, [], ◌∷◌,
  nat_eq, if◌then◌else◌, length, get_elem?, set, replicate,
}
use tda596_labs.Base.Bits.{and_not}
use tda596_labs.Base.Run.{Run, ok, panic, ◌>>=◌, expect}

abbrev pub Bitset : Type 0
Bitset = List ℕ

unfoldable pub new_bitset : ℕ → Bitset
new_bitset bits =
    let extra = if not (nat_eq (bits % 64) 0) then 1 else 0 in replicate (bits / 64 + extra) 0

-- clone: Go copies the words, so that writes to one of the two leave the other alone. A value of
-- this model is never written in place, and so the clone is the value itself.
abbrev pub clone : Bitset → Bitset
clone b = b

abbrev pub bitset_index : ℕ → ℕ × ℕ
bitset_index pos = (pos / 64, pos % 64)

unfoldable pub set_bit : Bitset → ℕ → Run Bitset
set_bit b pos = do
  let (major, minor) = bitset_index pos
  word ← expect (get_elem? b major)
  ok (set b major (bit_or word (2 ^ minor)))

unfoldable pub clear_bit : Bitset → ℕ → Run Bitset
clear_bit b pos = do
  let (major, minor) = bitset_index pos
  word ← expect (get_elem? b major)
  ok (set b major (and_not word (2 ^ minor)))

unfoldable pub get_bit : Bitset → ℕ → Run Bool
get_bit b pos = do
  let (major, minor) = bitset_index pos
  word ← expect (get_elem? b major)
  ok (not (nat_eq (bit_and word (2 ^ minor)) 0))

-- bits.OnesCount64: the ones among the lowest n digits.
unfoldable pub ones_count : (n : ℕ) → ℕ → ℕ
ones_count zero word = 0
ones_count (suc n) word = word % 2 + ones_count n (word / 2)

unfoldable pub popcnt : Bitset → ℕ
popcnt [] = 0
popcnt (word ∷ b) = ones_count 64 word + popcnt b

-- The loop of hash.
unfoldable pub xor_all : ℕ → Bitset → ℕ
xor_all hash [] = hash
xor_all hash (word ∷ b) = xor_all (bit_xor hash word) b

unfoldable pub hash : Bitset → ℕ
hash b = xor_all (popcnt b) b

-- The loop of equals, on words of as many.
unfoldable pub same_words : Bitset → Bitset → Bool
same_words [] b2 = true
same_words (v ∷ b) [] = true
same_words (v ∷ b) (w ∷ b2) = if not (nat_eq v w) then false else same_words b b2

unfoldable pub equals : Bitset → Bitset → Bool
equals b b2 = if not (nat_eq (length b) (length b2)) then false else same_words b b2
