-- ===== src/Porcupine/Links/Tests.antt =====
-- Concrete linked lists of Lab 2/src/porcupine/checker.go.
use tda596_labs.Base.{◌≡◌, refl, arith, some, []}
use tda596_labs.Base.Run.{ok}
use tda596_labs.Porcupine.Links.{Links, update, no_links, lift, unlift}
use tda596_labs.Porcupine.Links.Listed.{Listed}
use tda596_labs.Porcupine.Links.Lift.{lift_lem}

-- The head is 2, then come the call 1 and its return 0.
abbrev call_and_return : Links
call_and_return = record {
  next = update (update no_links.next 2 (some 1)) 1 (some 0);
  prev = update (update no_links.prev 1 (some 2)) 0 (some 1);
}

lift_lem_example :
    (l' : Links) × (lift 1 0 call_and_return ≡ ok l')
    × (unlift 1 0 l' ≡ ok call_and_return)
    × Listed l' 2 []
lift_lem_example =
    lift_lem call_and_return 2 [] 1 [] 0 [] (refl, refl, (refl, refl, refl))
      (
        (λ e. absurd (omega arith), (λ e. absurd (omega arith), tt)),
        ((λ e. absurd (omega arith), tt), (tt, tt)),
      )
