-- ===== src/Porcupine/Links.antt =====
-- Lab 2/src/porcupine/checker.go: the doubly linked list of nodes. A pointer is the number of a node, in
-- the order in which the nodes were made, and `none` is nil. What a node holds for ever is in the list
-- `nodes`; the fields next and prev, which lift and unlift write, are functions.
pub mod Listed
pub mod Lift
mod Tests
use tda596_labs.Base.{
  GoEq-nat, ℕ, zero, suc, ◌+◌, Bool, true, false, Option, none, some, List, [], ◌∷◌, ◌++◌, nat_eq,
  if◌then◌else◌, length, get_elem?,
}
use tda596_labs.Base.Dict.{lookup, insert}
use tda596_labs.Base.Run.{Run, ok, panic, ◌>>=◌, expect}
use tda596_labs.Porcupine.Entry.{Entry, EntryKind, call_entry, return_entry}

pub record Node (V : Type 0) : Type 0 where
  pub value : V
  pub match : Option ℕ
  pub id : ℕ

pub record Links : Type 0 where
  pub next : ℕ → Option ℕ
  pub prev : ℕ → Option ℕ

abbrev pub update : (ℕ → Option ℕ) → ℕ → Option ℕ → ℕ → Option ℕ
update f p v q = if nat_eq p q then v else f q

abbrev pub set_next : ℕ → Option ℕ → Links → Links
set_next p v l = record l { next = update l.next p v }

abbrev pub set_prev : ℕ → Option ℕ → Links → Links
set_prev p v l = record l { prev = update l.prev p v }

-- The two writes at the neighbour before the mark, if there is one.
abbrev pub link_before : ℕ → Option ℕ → Links → Links
link_before n none l = l
link_before n (some before) l = set_next before (some n) (set_prev n (some before) l)

unfoldable pub insert_before : ℕ → Option ℕ → Links → Links
insert_before n none l = l
insert_before n (some mark) l =
    link_before n (l.prev mark) (set_next n (some mark) (set_prev mark (some n) l))

-- The loop of length, on fuel.
unfoldable pub count_from : (fuel : ℕ) → Option ℕ → Links → ℕ
count_from zero n l = 0
count_from (suc fuel) none l = 0
count_from (suc fuel) (some n) l = suc (count_from fuel (l.next n) l)

-- `if match.next != nil`
abbrev pub set_prev_of : Option ℕ → Option ℕ → Links → Links
set_prev_of none v l = l
set_prev_of (some n) v l = set_prev n v l

-- The first two lines of lift: entry.prev and entry.next must be there.
unfoldable pub lift_entry : ℕ → Links → Run Links
lift_entry entry l = do
  before ← expect (l.prev entry)
  let l' = set_next before (l.next entry) l
  after ← expect (l'.next entry)
  ok (set_prev after (l'.prev entry) l')

-- Its other lines; the node after the match may be missing.
unfoldable pub lift_match : ℕ → Links → Run Links
lift_match match l = do
  before ← expect (l.prev match)
  let l' = set_next before (l.next match) l
  ok (set_prev_of (l'.next match) (l'.prev match) l')

unfoldable pub lift : ℕ → ℕ → Links → Run Links
lift entry match l = lift_entry entry l >>= lift_match match

unfoldable pub unlift_match : ℕ → Links → Run Links
unlift_match match l = do
  before ← expect (l.prev match)
  let l' = set_next before (some match) l
  ok (set_prev_of (l'.next match) (some match) l')

unfoldable pub unlift_entry : ℕ → Links → Run Links
unlift_entry entry l = do
  before ← expect (l.prev entry)
  let l' = set_next before (some entry) l
  after ← expect (l'.next entry)
  ok (set_prev after (some entry) l')

unfoldable pub unlift : ℕ → ℕ → Links → Run Links
unlift entry match l = unlift_match match l >>= unlift_entry entry

abbrev pub no_links : Links
no_links = record { next = λ q. none; prev = λ q. none }

-- The variables of the loop of makeLinkedEntries.
pub record Linking (V : Type 0) : Type 0 where
  pub root : Option ℕ
  pub matches : List (ℕ × ℕ)
  pub nodes : List (Node V)
  pub links : Links

module _ {V : Type 0} where
  unfoldable pub link_entry : Entry V → Linking V → Linking V
  link_entry elem k =
      let entry = length k.nodes in
      let links' = insert_before entry k.root k.links in
      elim elem.kind [
        | return_entry ↦ record {
          root = some entry;
          matches = insert elem.id entry k.matches;
          nodes = k.nodes ++ record { value = elem.value; match = none; id = elem.id } ∷ [];
          links = links';
        }
        | call_entry ↦ record {
          root = some entry;
          matches = k.matches;
          nodes =
              k.nodes
              ++ record { value = elem.value; match = lookup elem.id k.matches; id = elem.id } ∷ [];
          links = links';
        }
      ]

  -- The last entry is linked first.
  unfoldable pub make_linked_entries : List (Entry V) → Linking V
  make_linked_entries [] = record { root = none; matches = []; nodes = []; links = no_links }
  make_linked_entries (elem ∷ entries) = link_entry elem (make_linked_entries entries)
