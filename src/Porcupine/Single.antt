-- ===== src/Porcupine/Single.antt =====
-- Lab 2/src/porcupine/checker.go: checkSingle, a depth-first search that takes calls out of the linked
-- list and puts them back. Its loop is on fuel. `calls` has the last call first. The flag `kill` is read
-- once in each round: `kill f` is its value when f rounds are left.
pub mod Budget
pub mod Taken
pub mod Searching
pub mod Noting
pub mod Rounds
pub mod Start
pub mod Sound
pub mod Ends
use tda596_labs.Base.{
  GoEq-nat, ℕ, zero, suc, ◌+◌, ◌/◌, Bool, true, false, ◌&&◌, ◌||◌, not, Option, none, some, List,
  [], ◌∷◌, ◌++◌, map, nat_eq, ltb, if◌then◌else◌, length, get_elem?, set, replicate,
}
use tda596_labs.Base.Dict.{lookup, insert}
use tda596_labs.Base.Run.{Run, ok, panic, ◌>>=◌, expect}
use tda596_labs.Porcupine.Bitset.{Bitset, new_bitset, clone, set_bit, clear_bit, hash, equals}
use tda596_labs.Porcupine.Model.{Filled}
use tda596_labs.Porcupine.Entry.{Entry}
use tda596_labs.Porcupine.Links.{
  Node, Links, insert_before, lift, unlift, count_from, make_linked_entries,
}

pub record CacheEntry (S : Type 0) : Type 0 where
  pub linearized : Bitset
  pub state : S

abbrev pub Cache : Type 0 → Type 0
Cache S = List (ℕ × List (CacheEntry S))

abbrev pub or_nil : {A : Type 0} → Option (List A) → List A
or_nil none = []
or_nil (some l) = l

-- longest[id]: the numbers of a sequence of calls, or nil
abbrev pub Longest : Type 0
Longest = List (Option (List ℕ))

pub record Search (S : Type 0) : Type 0 where
  pub links : Links
  pub entry : Option ℕ
  pub state : S
  pub linearized : Bitset
  pub cache : Cache S
  pub calls : List (ℕ × S)
  pub longest : Longest

pub data Verdict : Type 0 where
  answer : Bool → Longest → Verdict
  out_of_fuel : Verdict

module _ {S V : Type 0} (model : Filled S V) where
  unfoldable pub same_entry : CacheEntry S → CacheEntry S → Bool
  same_entry entry elem =
      equals entry.linearized elem.linearized && model.equal entry.state elem.state

  -- The loop of cacheContains.
  unfoldable pub contains : CacheEntry S → List (CacheEntry S) → Bool
  contains entry [] = false
  contains entry (elem ∷ elems) = if same_entry entry elem then true else contains entry elems

  unfoldable pub cache_contains : Cache S → CacheEntry S → Bool
  cache_contains cache entry = contains entry (or_nil (lookup (hash entry.linearized) cache))

  unfoldable pub cache_add : CacheEntry S → Cache S → Cache S
  cache_add entry cache =
      insert (hash entry.linearized) (or_nil (lookup (hash entry.linearized) cache) ++ entry ∷ [])
        cache

  module _ (nodes : List (Node V)) (head : ℕ) where
    -- A call that fits: it is taken out of the list, and the search starts again from the list's head.
    unfoldable pub take_call : ℕ → ℕ → ℕ → S → Search S → Run (Search S)
    take_call entry match id new_state s = do
      new_linearized ← set_bit (clone s.linearized) id
      let new_entry : CacheEntry S = record { linearized = new_linearized; state = new_state }
      elim (cache_contains s.cache new_entry) [
        | true ↦ ok (record s { entry = s.links.next entry })
        | false ↦ do
          linearized ← set_bit s.linearized id
          links ← lift entry match s.links
          ok (record s {
            links = links;
            entry = links.next head;
            state = new_state;
            linearized = linearized;
            cache = cache_add new_entry s.cache;
            calls = (entry, s.state) ∷ s.calls;
          })
      ]

    -- The entry is a call with this matching return.
    unfoldable pub try_call : ℕ → Node V → ℕ → Search S → Run (Search S)
    try_call entry node match s = do
      matching ← expect (get_elem? nodes match)
      (fits, new_state) ← model.step s.state node.value matching.value
      if fits
          then take_call entry match node.id new_state s
          else ok (record s { entry = s.links.next entry })

    -- `v.entry.id` for each call, the first call first
    unfoldable pub ids_of : List (ℕ × S) → Run (List ℕ)
    ids_of [] = ok []
    ids_of ((entry, state) ∷ calls) = do
      seq ← ids_of calls
      node ← expect (get_elem? nodes entry)
      ok (seq ++ node.id ∷ [])

    abbrev pub is_longer : ℕ → Option (List ℕ) → Bool
    is_longer calls_len none = true
    is_longer calls_len (some old) = ltb (length old) calls_len

    -- The loop over the calls of a prefix that cannot be continued.
    unfoldable pub note_longest : List ℕ → List ℕ → Longest → Run Longest
    note_longest seq [] longest = ok longest
    note_longest seq (id ∷ ids) longest = do
      old ← expect (get_elem? longest id)
      note_longest seq ids
          (if is_longer (length seq) old then set longest id (some seq) else longest)

    unfoldable pub note_partial : Bool → Search S → Run (Search S)
    note_partial false s = ok s
    note_partial true s = do
      seq ← ids_of s.calls
      longest ← note_longest seq seq s.longest
      ok (record s { longest = longest })

    -- A return stands before any call that fits: the last call is put back, and the search goes on
    -- behind it. `none` if there is no call to put back.
    unfoldable pub put_back : List (ℕ × S) → Search S → Run (Option (Search S))
    put_back [] s = ok none
    put_back ((entry, state) ∷ calls) s = do
      node ← expect (get_elem? nodes entry)
      linearized ← clear_bit s.linearized node.id
      match ← expect node.match
      links ← unlift entry match s.links
      ok (
          some (record s {
            links = links;
            entry = links.next entry;
            state = state;
            linearized = linearized;
            calls = calls;
          }))

    unfoldable pub backtrack : Bool → Search S → Run (Option (Search S))
    backtrack compute_partial s = elim s.calls [
      | [] ↦ ok none
      | call ∷ calls ↦ do s' ← note_partial compute_partial s; put_back (call ∷ calls) s'
    ]

    -- One round of the loop; `none` where it returns false.
    unfoldable pub round : Bool → Search S → Run (Option (Search S))
    round compute_partial s = do
      entry ← expect s.entry
      node ← expect (get_elem? nodes entry)
      elim node.match [
        | some match ↦ do s' ← try_call entry node match s; ok (some s')
        | none ↦ backtrack compute_partial s
      ]

    unfoldable pub search_loop : (fuel : ℕ) → Bool → (ℕ → Bool) → Search S → Run Verdict
    search_loop zero compute_partial kill s = ok out_of_fuel
    search_loop (suc fuel) compute_partial kill s = elim (s.links.next head) [
      | none ↦ do seq ← ids_of s.calls; ok (answer true (replicate (length s.longest) (some seq)))
      | some first ↦ elim (kill fuel) [
        | true ↦ ok (answer false s.longest)
        | false ↦ do
          next ← round compute_partial s
          elim next [
            | none ↦ ok (answer false s.longest)
            | some s' ↦ search_loop fuel compute_partial kill s'
          ]
      ]
    ]

  unfoldable pub check_single : (fuel : ℕ) → List (Entry V) → Bool → (ℕ → Bool) → Run Verdict
  check_single fuel history compute_partial kill =
      let k = make_linked_entries history in
      let head = length k.nodes in
      let n = count_from (length k.nodes) k.root k.links / 2 in
      search_loop k.nodes head fuel compute_partial kill (record {
        links = insert_before head k.root k.links;
        entry = k.root;
        state = model.init;
        linearized = new_bitset n;
        cache = [];
        calls = [];
        longest = replicate n none;
      })
