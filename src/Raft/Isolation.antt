-- ===== src/Raft/Isolation.antt =====
-- That what Lab 2/src/raft/persister.go holds is its own.
use tda596_labs.Base.{
  ℕ, zero, suc, ◌<◌, ◌≡◌, ◌≢◌, refl, ap, ◌∙◌, arith, none, some, List, [], ◌∷◌, ◌++◌, All, length,
  get_elem?, set, get_elem?-set_ne, length-append,
}
use tda596_labs.Raft.Persister.{
  Bytes, Heap, Slice, or_empty, contents, Persister, clone, read_raft_state, raft_state_size, save,
  read_snapshot, snapshot_size,
}

-- The slice is nil or its array is on the heap.
abbrev pub IsValid : Slice → Heap → Type 0
IsValid none heap = Unit
IsValid (some a) heap = a < length heap

-- Writes of others through slices that they have.
unfoldable pub write_all : List (ℕ × Bytes) → Heap → Heap
write_all [] heap = heap
write_all ((a, bytes) ∷ writes) heap = write_all writes (set heap a bytes)

get_elem?-append_left :
    (xs ys : Heap) (a : ℕ) → a < length xs → get_elem? (xs ++ ys) a ≡ get_elem? xs a
get_elem?-append_left [] ys a h = elim h [ ]
get_elem?-append_left (x ∷ xs) ys zero h = refl
get_elem?-append_left (x ∷ xs) ys (suc a) h = get_elem?-append_left xs ys a (omega (arith, h))

get_elem?-append_last :
    (xs : Heap) (bytes : Bytes) → get_elem? (xs ++ bytes ∷ []) (length xs) ≡ some bytes
get_elem?-append_last [] bytes = refl
get_elem?-append_last (x ∷ xs) bytes = get_elem?-append_last xs bytes

contents-append :
    (s : Slice) (heap : Heap) (bytes : Bytes)
    → IsValid s heap
    → contents s (heap ++ bytes ∷ []) ≡ contents s heap
contents-append none heap bytes h = refl
contents-append (some a) heap bytes h = ap or_empty (get_elem?-append_left heap (bytes ∷ []) a h)

contents-write_all :
    (writes : List (ℕ × Bytes)) (heap : Heap) (a : ℕ)
    → All (λ w. w.0 ≢ a) writes
    → contents (some a) (write_all writes heap) ≡ contents (some a) heap
unfolding write_all
contents-write_all [] heap a h = refl
contents-write_all ((b, bytes) ∷ writes) heap a h =
    contents-write_all writes (set heap b bytes) a h.1
    ∙ ap or_empty (get_elem?-set_ne heap bytes h.0)

contents-clone :
    (s : Slice) (heap : Heap) → contents (clone s heap).0 (clone s heap).1 ≡ contents s heap
unfolding clone
contents-clone s heap = ap or_empty (get_elem?-append_last heap (contents s heap))

-- Writes that stay below a bound miss what lies at it or above.
missed :
    (writes : List (ℕ × Bytes)) (n a : ℕ)
    → All (λ w. w.0 < n) writes
    → n < suc a
    → All (λ w. w.0 ≢ a) writes
missed [] n a h le = tt
missed ((b, bytes) ∷ writes) n a h le =
    (λ e. let lt : b < n = h.0 in absurd (omega (arith, lt, le, e)), missed writes n a h.1 le)

-- What the readers of the persister are given.
abbrev pub Holds : Persister → Heap → Bytes → Bytes → Type 0
Holds ps heap state snap =
    (contents (read_raft_state ps heap).0 (read_raft_state ps heap).1 ≡ state)
    × (contents (read_snapshot ps heap).0 (read_snapshot ps heap).1 ≡ snap)
    × (raft_state_size ps heap ≡ length state)
    × (snapshot_size ps heap ≡ length snap)

-- After Save of two slices (the snapshot's array being on the heap), whatever its callers and anyone
-- else write through the slices that they had before, ReadRaftState and ReadSnapshot return slices
-- with the bytes that were saved, and the two sizes are the lengths of these.
pub save_isolated :
    (raftstate snapshot : Slice) (ps : Persister) (heap : Heap) (writes : List (ℕ × Bytes))
    → IsValid snapshot heap
    → All (λ w. w.0 < length heap) writes
    → Holds
        (save raftstate snapshot ps heap).0
        (write_all writes (save raftstate snapshot ps heap).1)
        (contents raftstate heap)
        (contents snapshot heap)
unfolding save read_raft_state read_snapshot raft_state_size snapshot_size clone
save_isolated raftstate snapshot ps heap writes valid below =
    let first = heap ++ contents raftstate heap ∷ [] in
    let second = first ++ contents snapshot first ∷ [] in
    let later = write_all writes second in
    let size : length first ≡ suc (length heap) =
      omega (arith, length-append heap (contents raftstate heap ∷ [])) in
    let r : contents (some (length heap)) later ≡ contents raftstate heap =
      contents-write_all writes second (length heap)
        (missed writes (length heap) (length heap) below (omega arith))
      ∙ contents-append (some (length heap)) first (contents snapshot first) (omega (arith, size))
      ∙ ap or_empty (get_elem?-append_last heap (contents raftstate heap)) in
    let s : contents (some (length first)) later ≡ contents snapshot heap =
      contents-write_all writes second (length first)
        (missed writes (length heap) (length first) below (omega (arith, size)))
      ∙ ap or_empty (get_elem?-append_last first (contents snapshot first))
      ∙ contents-append snapshot heap (contents raftstate heap) valid in
    (
      contents-clone (some (length heap)) later ∙ r,
      contents-clone (some (length first)) later ∙ s,
      ap length r,
      ap length s,
    )
