-- ===== src/Mr/Worker/Sample.antt =====
-- A host that meets the laws that worker.go relies on: numbers stand for bytes, a text is written
-- as its length and its code points, and the numbers in a name are unary.
use Prim.Native.Nat.{compare, Ordering}
use Prim.Native.Char.{Char, char, code, nul, IsLt, IsScalar}
use mathlib.Core.List.Permᴰ
use mathlib.Core.List.{append_assoc}
use tda596_labs.Base.{
  ℕ, zero, suc, ◌<◌, ◌≡◌, ◌≢◌, refl, ap, ◌∙◌, String, true, Option, none, some, List, [], ◌∷◌, ◌++◌,
  arith, length,
}
use tda596_labs.Mr.Worker.{KeyValue, Bytes, Host}
use tda596_labs.Mr.Worker.Laws.{HostLaws}
use tda596_labs.Mr.Worker.Sound.{IsInput}

-- The tests of `IsScalar`, which is private in its parts.
abbrev Both : Ordering → Ordering → Type 0
Both Ordering.lt o = IsLt o
Both Ordering.eq _ = ⊥
Both Ordering.gt _ = ⊥

abbrev Scalar : Ordering → Ordering → Ordering → Type 0
Scalar Ordering.lt _ _ = Unit
Scalar Ordering.eq o p = Both o p
Scalar Ordering.gt o p = Both o p

find_both : (o p : Ordering) → Option (Both o p)
find_both Ordering.lt Ordering.lt = some tt
find_both Ordering.lt Ordering.eq = none
find_both Ordering.lt Ordering.gt = none
find_both Ordering.eq _ = none
find_both Ordering.gt _ = none

find_scalar : (o p q : Ordering) → Option (Scalar o p q)
find_scalar Ordering.lt _ _ = some tt
find_scalar Ordering.eq p q = find_both p q
find_scalar Ordering.gt p q = find_both p q

find_both_lem : (o p : Ordering) (s : Both o p) → find_both o p ≡ some s
unfolding find_both
find_both_lem Ordering.lt Ordering.lt s = refl
find_both_lem Ordering.lt Ordering.eq s = absurd s
find_both_lem Ordering.lt Ordering.gt s = absurd s
find_both_lem Ordering.eq _ s = absurd s
find_both_lem Ordering.gt _ s = absurd s

find_scalar_lem : (o p q : Ordering) (s : Scalar o p q) → find_scalar o p q ≡ some s
unfolding find_scalar
find_scalar_lem Ordering.lt _ _ s = refl
find_scalar_lem Ordering.eq p q s = find_both_lem p q s
find_scalar_lem Ordering.gt p q s = find_both_lem p q s

found : (n : ℕ) → Option (IsScalar n) → Char
found n none = nul
found n (some s) = char n s

char_of : ℕ → Char
unfolding find_scalar find_both found
char_of n = found n (find_scalar (compare n 55296) (compare 57343 n) (compare n 1114112))

char_of-code : (c : Char) → char_of (code c) ≡ c
unfolding char_of
char_of-code (char n s) =
    ap (found n) (find_scalar_lem (compare n 55296) (compare 57343 n) (compare n 1114112) s)

codes : String → List ℕ
codes String.[] = []
codes (String.◌∷◌ c s) = code c ∷ codes s

-- A text of n characters, and what follows it.
read_text : ℕ → List ℕ → Option (String × List ℕ)
read_text zero bytes = some ("", bytes)
read_text (suc n) [] = none
read_text (suc n) (b ∷ bytes) = elim (read_text n bytes) [
  | none ↦ none
  | some (s, rest) ↦ some (String.◌∷◌ (char_of b) s, rest)
]

read_text-codes :
    (s : String) (rest : List ℕ) → read_text (length (codes s)) (codes s ++ rest) ≡ some (s, rest)
unfolding read_text codes
read_text-codes String.[] rest = refl
read_text-codes (String.◌∷◌ c s) rest = rw (read_text-codes s rest, read_text, char_of-code c)

write_text : String → List ℕ
write_text s = length (codes s) ∷ codes s

read : List ℕ → Option (String × List ℕ)
unfolding read_text char_of
read [] = none
read (n ∷ bytes) = read_text n bytes

sample_decode : Bytes → Option (KeyValue × Bytes)
sample_decode bytes = elim (read bytes) [
  | none ↦ none
  | some (k, rest) ↦ elim (read rest) [
    | none ↦ none
    | some (v, rest') ↦ some (record { key = k; value = v }, rest')
  ]
]

sample_encode : KeyValue → Bytes
unfolding write_text codes
sample_encode kv = write_text kv.key ++ write_text kv.value

read-write_text : (s : String) (rest : List ℕ) → read (write_text s ++ rest) ≡ some (s, rest)
unfolding read write_text
read-write_text s rest = read_text-codes s rest

sample_decode_parts :
    (bytes bytes' rest : Bytes) (k v : String)
    → read bytes ≡ some (k, bytes')
    → read bytes' ≡ some (v, rest)
    → sample_decode bytes ≡ some (record { key = k; value = v }, rest)
unfolding sample_decode
sample_decode_parts bytes bytes' rest k v e e' = rw (e, sample_decode) (rw (e', sample_decode))

sample_decode_two :
    (k v : String) (rest : Bytes)
    → sample_decode (write_text k ++ (write_text v ++ rest))
      ≡ some (record { key = k; value = v }, rest)
sample_decode_two k v rest =
    sample_decode_parts _ _ rest k v (read-write_text k (write_text v ++ rest))
      (read-write_text v rest)

sample_decode-encode :
    (kv : KeyValue) (rest : Bytes) → sample_decode (sample_encode kv ++ rest) ≡ some (kv, rest)
unfolding sample_encode
sample_decode-encode kv rest =
    ap sample_decode (append_assoc (write_text kv.key) (write_text kv.value) rest)
    ∙ sample_decode_two kv.key kv.value rest

pad : ℕ → String → String
pad zero s = s
pad (suc n) s = String.◌∷◌ "a" (pad n s)

abbrev head_code : String → ℕ
head_code String.[] = 0
head_code (String.◌∷◌ c s) = code c

abbrev tail : String → String
tail String.[] = ""
tail (String.◌∷◌ c s) = s

pad_inj :
    (i k : ℕ) (s t : String)
    → pad i (String.◌∷◌ "-" s) ≡ pad k (String.◌∷◌ "-" t)
    → (i ≡ k) × (s ≡ t)
unfolding pad
pad_inj zero zero s t e = (refl, ap tail e)
pad_inj zero (suc k) s t e = let h : ◌≡◌ {A = ℕ} 45 97 = ap head_code e in absurd (omega arith)
pad_inj (suc i) zero s t e = let h : ◌≡◌ {A = ℕ} 97 45 = ap head_code e in absurd (omega arith)
pad_inj (suc i) (suc k) s t e =
    let (same, rest) = pad_inj i k s t (ap tail e) in (ap suc same, rest)

abbrev sample_name : ℕ → ℕ → String
sample_name i j = pad i (String.◌∷◌ "-" (pad j "-"))

abbrev sample_output : ℕ → String
sample_output r = String.◌∷◌ "o" (pad r "-")

pad_head : (k i : ℕ) (s : String) → 97 < k → k ≢ head_code (pad i (String.◌∷◌ "-" s))
unfolding pad
pad_head k zero s lt = omega arith
pad_head k (suc i) s lt = omega arith

sample_count : String → List String → String
unfolding codes
sample_count k [] = "none"
sample_count k (v ∷ []) = "one"
sample_count k (v ∷ w ∷ vs) = "more"

-- The words of the sample are the characters of the input, one pair for each.
sample_map : String → String → List KeyValue
sample_map file String.[] = []
sample_map file (String.◌∷◌ c s) = record { key = String.◌∷◌ c ""; value = "1" } ∷ sample_map file s

all_text : List ℕ → String
all_text [] = ""
all_text (b ∷ bs) = String.◌∷◌ (char_of b) (all_text bs)

unfoldable pub sample : Host
unfolding sample_map sample_count all_text char_of sample_encode sample_decode pad read read_text
    write_text
sample = record {
  map_f = sample_map;
  reduce_f = sample_count;
  to_string = all_text;
  encode = sample_encode;
  decode = sample_decode;
  sum32 = λ k. length (codes k);
  intermediate_name = sample_name;
  output_name = sample_output;
  line = λ k v. codes k ++ b' ' ∷ codes v ++ 10 ∷ [];
  can_create = λ q. true;
  can_write = λ q. true;
  range_order = λ groups. groups;
}

pub sample-HostLaws : HostLaws sample
unfolding sample
sample-HostLaws = record {
  decode-encode = sample_decode-encode;
  decode-nil = refl;
  encode_pos = λ kv. omega arith;
  intermediate_name_inj = λ i j k l e.
      let (first, rest) = pad_inj i k (pad j "-") (pad l "-") e in
      (first, (pad_inj j l "" "" rest).0);
  output_name_inj = λ i j e. (pad_inj i j "" "" (ap tail e)).0;
  output-ne-intermediate = λ i j k e. pad_head 111 j (pad k "-") (omega arith) (ap head_code e);
  created = λ q. refl;
  written = λ q. refl;
  visits-Perm = λ groups. Permᴰ.refl groups;
}

-- A name that starts with "i" is none that the sample writes.
pub sample-IsInput : (s : String) → IsInput sample (String.◌∷◌ "i" s)
unfolding sample
sample-IsInput s = record {
  ne_intermediate = λ i b e. pad_head 105 i (pad b "-") (omega arith) (ap head_code e);
  ne_output = λ r e. let h : ◌≡◌ {A = ℕ} 105 111 = ap head_code e in absurd (omega arith);
}
