-- ===== src/Http/Pool.antt =====
-- The main loops of Lab 1/server/http_server.go and Lab 1/proxy_server/proxy.go: a semaphore, a
-- channel of capacity 10, is filled before a handler starts and drained when it ends.
use mathlib.Core.Path.{subst}
use tda596_labs.Base.{
  ℕ, zero, suc, ◌≤◌, ◌<◌, ◌≡◌, inl, inr, Bool, true, false, Option, none, some, List, [], ◌∷◌, ltb,
  if◌then◌else◌, refl, ◌∙◌, arith, Option-cases,
}

abbrev pub max_concurrent_requests : ℕ
max_concurrent_requests = 10

pub record Pool : Type 0 where
  -- the main loop holds a connection for which it waits to get a token
  pub waiting : Bool
  -- the elements in the channel
  pub tokens : ℕ
  -- handlers before their `<-semaphore`
  pub working : ℕ
  -- handlers between `<-semaphore` and the end of conn.Close
  pub closing : ℕ

pub data Event : Type 0 where
  accept : Event
  start : Event
  release : Event
  close : Event

abbrev pub fresh : Pool
fresh = record { waiting = false; tokens = 0; working = 0; closing = 0 }

-- One step of the loop or of a handler; `none` where it blocks or there is nothing to do it.
unfoldable pub step : Event → Pool → Option Pool
step accept p = if p.waiting then none else some (record p { waiting = true })
step start p =
    if p.waiting
    then (if ltb p.tokens max_concurrent_requests
        then some (record p { waiting = false; tokens = suc p.tokens; working = suc p.working })
        else none)
    else none
step release p = elim p.working [
  | zero ↦ none
  | suc rest ↦ elim p.tokens [
    | zero ↦ none
    | suc left ↦ some (record p { tokens = left; working = rest; closing = suc p.closing })
  ]
]
step close p = elim p.closing [ zero ↦ none | suc rest ↦ some (record p { closing = rest }) ]

unfoldable pub steps : List Event → Pool → Option Pool
steps [] p = some p
steps (event ∷ events) p = elim (step event p) [ none ↦ none | some p' ↦ steps events p' ]

-- There is a token in the channel for each handler at work, and no more than it can hold.
pub record IsSound (p : Pool) : Type 0 where
  pub one_each : p.tokens ≡ p.working
  pub within : p.working ≤ max_concurrent_requests

fresh-IsSound : IsSound fresh
fresh-IsSound = record { one_each = refl; within = omega arith }

step-IsSound : (e : Event) (p : Pool) {q : Pool} → step e p ≡ some q → IsSound p → IsSound q
unfolding step
step-IsSound accept p {q} e h = record {
  one_each = grind (arith, h.one_each);
  within = grind (arith, h.within);
}
step-IsSound start p {q} e h = record {
  one_each = grind (arith, h.one_each);
  within = grind (arith, h.within, h.one_each);
}
step-IsSound release p {q} e h = record {
  one_each = grind (arith, h.one_each);
  within = grind (arith, h.within);
}
step-IsSound close p {q} e h = record {
  one_each = grind (arith, h.one_each);
  within = grind (arith, h.within);
}

some_eq : {p q : Pool} → some p ≡ some q → p ≡ q
some_eq e = cc

release-some :
    (p : Pool) (work left : ℕ)
    → p.working ≡ suc work
    → p.tokens ≡ suc left
    → (q : Pool) × (step release p ≡ some q)
unfolding step
release-some p work left e e' = (
  record p { tokens = left; working = work; closing = suc p.closing },
  rw (e, step) (rw (e', step) refl),
)

start-some :
    (p : Pool)
    → p.waiting ≡ true
    → p.tokens < max_concurrent_requests
    → (q : Pool) × (step start p ≡ some q)
unfolding step
start-some p waits room =
    (record p { waiting = false; tokens = suc p.tokens; working = suc p.working }, ground arith)

suc-of_pos : (n : ℕ) → 0 < n → (m : ℕ) × (n ≡ suc m)
suc-of_pos zero h = elim h [ ]
suc-of_pos (suc n) h = (n, refl)

steps-IsSound :
    (events : List Event) (p : Pool) {q : Pool} → steps events p ≡ some q → IsSound p → IsSound q
unfolding steps
steps-IsSound [] p e h = subst IsSound (some_eq e) h
steps-IsSound (event ∷ events) p e h = elim (Option-cases (step event p)) [
  | inl stuck ↦ absurd (grind (arith, e, stuck))
  | inr (p', done) ↦ steps-IsSound events p' (grind (arith, e, done)) (step-IsSound event p done h)
]

-- Whatever the order in which connections come and handlers end: at most ten handlers are at work,
-- a handler that ends never blocks on the channel, and a connection that waits can be given to a
-- handler as soon as fewer than ten are at work.
pub handlers_bounded :
    (events : List Event) {p : Pool}
    → steps events fresh ≡ some p
    → (p.working ≤ max_concurrent_requests)
      × (0 < p.working → (q : Pool) × (step release p ≡ some q))
      × (p.waiting ≡ true
          → p.working < max_concurrent_requests
          → (q : Pool) × (step start p ≡ some q))
unfolding step
handlers_bounded events {p} e =
    let h : IsSound p = steps-IsSound events fresh e fresh-IsSound in
    (
      h.within,
      λ some_work.
          let (work, e) = suc-of_pos p.working some_work in
          release-some p work work e (h.one_each ∙ e),
      λ waits room. start-some p waits (omega (arith, room, h.one_each)),
    )
