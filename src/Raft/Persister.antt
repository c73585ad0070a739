-- ===== src/Raft/Persister.antt =====
-- Lab 2/src/raft/persister.go, over a heap of byte arrays. A slice is the index of its array, and
-- `none` is the nil slice. Each method holds the mutex throughout, so it is one step.
use tda596_labs.Base.{ℕ, Option, none, some, List, [], ◌∷◌, ◌++◌, length, get_elem?}

abbrev pub Bytes : Type 0
Bytes = List ℕ

abbrev pub Heap : Type 0
Heap = List Bytes

abbrev pub Slice : Type 0
Slice = Option ℕ

abbrev pub or_empty : Option Bytes → Bytes
or_empty none = []
or_empty (some bytes) = bytes

abbrev pub contents : Slice → Heap → Bytes
contents none heap = []
contents (some a) heap = or_empty (get_elem? heap a)

pub record Persister : Type 0 where
  pub raftstate : Slice
  pub snapshot : Slice

abbrev pub make_persister : Persister
make_persister = record { raftstate = none; snapshot = none }

unfoldable pub clone : Slice → Heap → Slice × Heap
clone orig heap = (some (length heap), heap ++ contents orig heap ∷ [])

-- Copy: the two slices themselves, not their contents.
unfoldable pub copy : Persister → Persister
copy ps = record make_persister { raftstate = ps.raftstate; snapshot = ps.snapshot }

unfoldable pub read_raft_state : Persister → Heap → Slice × Heap
read_raft_state ps heap = clone ps.raftstate heap

unfoldable pub raft_state_size : Persister → Heap → ℕ
raft_state_size ps heap = length (contents ps.raftstate heap)

unfoldable pub save : Slice → Slice → Persister → Heap → Persister × Heap
save raftstate snapshot ps heap =
    let (r, first) = clone raftstate heap in
    let (s, second) = clone snapshot first in (record ps { raftstate = r; snapshot = s }, second)

unfoldable pub read_snapshot : Persister → Heap → Slice × Heap
read_snapshot ps heap = clone ps.snapshot heap

unfoldable pub snapshot_size : Persister → Heap → ℕ
snapshot_size ps heap = length (contents ps.snapshot heap)
