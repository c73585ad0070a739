-- ===== src/Porcupine/Bitset/Tests.antt =====
-- Concrete bit sets of Lab 2/src/porcupine/bitset.go.
use tda596_labs.Base.{◌≡◌, ◌↔◌, refl, arith, true, false, [], ◌∷◌, nat_eq, if◌then◌else◌}
use tda596_labs.Base.Run.{ok, ◌>>=◌}
use tda596_labs.Porcupine.Bitset.{Bitset, set_bit, clear_bit, get_bit, equals}
use tda596_labs.Porcupine.Bitset.Laws.{bitset_lem, equals_iff}

abbrev words : Bitset
words = 5 ∷ 1 ∷ []

set_then_get : (set_bit words 65 >>= λ b. get_bit b 65) ≡ ok true
unfolding set_bit get_bit
set_then_get = refl

bitset_lem_example :
    ((set_bit words 65 >>= λ b. get_bit b 2) ≡ (if nat_eq 65 2 then ok true else get_bit words 2))
    × ((clear_bit words 65 >>= λ b. get_bit b 2)
        ≡ (if nat_eq 65 2 then ok false else get_bit words 2))
bitset_lem_example = bitset_lem words 65 2 (omega arith) (omega arith)

equals_iff_example : (equals words (5 ∷ 2 ∷ []) ≡ true) ↔ (words ≡ 5 ∷ 2 ∷ [])
equals_iff_example = equals_iff words (5 ∷ 2 ∷ [])
