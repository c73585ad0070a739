-- ===== src/Mr/Coordinator/Preserve.antt =====
-- Every operation of coordinator.go keeps its invariant, and none panics in a job.
use tda596_labs.Base.{
  ℕ, zero, suc, ◌+◌, ◌≡◌, refl, sym, ap, ◌∙◌, inl, inr, Bool, true, false, ◌&&◌, some, List, [],
  ◌∷◌, String, arith, length, get_elem?, modify, all, all-modify, Bool-cases, str_eq, ◌<◌,
  replicate, length-replicate, get_elem?-eq-some-lt,
}
use mathlib.Core.Path.{subst}
use tda596_labs.Base.Run.{Run, Returns}
use tda596_labs.Mr.Rpc.{Task, TaskStatus, empty_status}
use tda596_labs.Mr.Coordinator.{
  Coordinator, is_idle, mark_assigned, mark_done, all_map_tasks_done, all_reduce_tasks_done,
  check_task_timeouts, done, make_coordinator, make_map_tasks, make_reduce_tasks,
}
use tda596_labs.Mr.Coordinator.Assign.{Outcome, map_task, reduce_task, exit, wait_map, wait_reduce}
use tda596_labs.Mr.Coordinator.Report.{
  Reported, map_done, map_missing, reduce_done, reduce_missing, ignored,
}
use tda596_labs.Mr.Coordinator.Growth.{all-reassign}
use tda596_labs.Mr.Coordinator.Later.{
  Later, Later-refl, all_map_tasks_done-Later, Later-assign_task, Later-report_task_done,
  Later-check_task_timeouts,
}
use tda596_labs.Mr.Coordinator.Invariant.{
  is_settled, WellFormed, Handed, map_handed, reduce_handed, exit_handed, wait_handed,
  WellFormed-Later, barrier_same,
}

-- A test that a change at an idle index keeps.
all-modify_at :
    (p : TaskStatus → Bool) (ss : List TaskStatus) (i : ℕ) (f : TaskStatus → TaskStatus)
    (s : TaskStatus)
    → get_elem? ss i ≡ some s
    → p (f s) ≡ true
    → all p ss ≡ true
    → all p (modify ss i f) ≡ true
all-modify_at p [] i f s at h a = refl
all-modify_at p (t ∷ ss) zero f s at h a = ground arith
all-modify_at p (t ∷ ss) (suc i) f s at h a = ground (arith, all-modify_at p ss i f s)

-- After an answer the coordinator is well formed, and the answer is as Handed says.
pub assign_task-WellFormed :
    (now : ℕ) (c : Coordinator) (reply : Task) {r : Run (Coordinator × Task)}
    → WellFormed c
    → Outcome now c reply r
    → Returns (λ (d, t). WellFormed d × Later c d × Handed d t) r
unfolding is_idle all_map_tasks_done
assign_task-WellFormed now c reply w (map_task i t ((s, at_s, idle), before) at) =
    let l = Later-assign_task c now reply (map_task i t ((s, at_s, idle), before) at) in
    let (id, phase) = w.map_shape i t at in
    (
      WellFormed-Later w l
          (all-modify_at is_settled c.map_task_status i (mark_assigned now) s at_s (ground arith)
            w.map_settled)
          w.reduce_settled (barrier_same w l refl) (λ h. h),
      l,
      map_handed phase (subst (λ k. get_elem? c.map_tasks k ≡ some t) (sym id) at),
    )
assign_task-WellFormed now c reply w (reduce_task i t none_idle maps ((s, at_s, idle), before) at) =
    let l =
      Later-assign_task c now reply (reduce_task i t none_idle maps ((s, at_s, idle), before) at) in
    let (id, phase) = w.reduce_shape i t at in
    (
      WellFormed-Later w l w.map_settled
          (all-modify_at is_settled c.reduce_task_status i (mark_assigned now) s at_s (ground arith)
            w.reduce_settled)
          (inr maps) (λ h. h),
      l,
      reduce_handed phase (subst (λ k. get_elem? c.reduce_tasks k ≡ some t) (sym id) at) maps,
    )
assign_task-WellFormed now c reply w (exit maps reduces) =
    (w, Later-refl c, exit_handed refl maps reduces)
assign_task-WellFormed now c reply w (wait_map idle busy) = (w, Later-refl c, wait_handed refl)
assign_task-WellFormed now c reply w (wait_reduce idle maps idle' busy) =
    (w, Later-refl c, wait_handed refl)

pub other_phase : {s : String} (a b : String) → s ≡ a → str_eq a b ≡ false → str_eq s b ≡ true → ⊥
other_phase a b e no_match h =
    let same : str_eq a b ≡ true = subst (λ x. str_eq x b ≡ true) e h in cc (sym same ∙ no_match)

-- The phase of an answer decides which list its index is good for.
module _ (c : Coordinator) (t : Task) (w : WellFormed c) where
  Handed-map_lt : Handed c t → str_eq t.task_type "map" ≡ true → t.id < length c.map_task_status
  Handed-map_lt (map_handed e at) is_map =
      omega (arith, w.map_length, get_elem?-eq-some-lt c.map_tasks t.id at)
  Handed-map_lt (reduce_handed e at maps) is_map = absurd (other_phase "reduce" "map" e refl is_map)
  Handed-map_lt (exit_handed e maps reduces) is_map =
      absurd (other_phase "exit" "map" e refl is_map)
  Handed-map_lt (wait_handed e) is_map = absurd (other_phase "wait" "map" e refl is_map)

  Handed-reduce_lt :
      Handed c t
      → str_eq t.task_type "reduce" ≡ true
      → (t.id < length c.reduce_task_status) × (all_map_tasks_done c ≡ true)
  Handed-reduce_lt (map_handed e at) is_reduce =
      absurd (other_phase "map" "reduce" e refl is_reduce)
  Handed-reduce_lt (reduce_handed e at maps) is_reduce =
      (omega (arith, w.reduce_length, get_elem?-eq-some-lt c.reduce_tasks t.id at), maps)
  Handed-reduce_lt (exit_handed e maps reduces) is_reduce =
      absurd (other_phase "exit" "reduce" e refl is_reduce)
  Handed-reduce_lt (wait_handed e) is_reduce = absurd (other_phase "wait" "reduce" e refl is_reduce)

-- A report of a task that was handed out is accepted.
pub report_task_done-WellFormed :
    (c : Coordinator) (t : Task) {r : Run Coordinator}
    → WellFormed c
    → Handed c t
    → Reported c t r
    → Returns (λ d. WellFormed d × Later c d) r
report_task_done-WellFormed c t w h (map_done is_map lt) =
    let l = Later-report_task_done c t (map_done is_map lt) (λ e. cc) in
    (
      WellFormed-Later w l
          (all-modify is_settled c.map_task_status t.id mark_done (λ s q. refl) w.map_settled)
          w.reduce_settled (barrier_same w l refl) (λ e. e),
      l,
    )
report_task_done-WellFormed c t w h (map_missing is_map ge) =
    absurd (omega (arith, Handed-map_lt c t w h is_map))
report_task_done-WellFormed c t w h (reduce_done not_map is_reduce lt) =
    let l = Later-report_task_done c t (reduce_done not_map is_reduce lt) (λ e. cc) in
    (
      WellFormed-Later w l w.map_settled
          (all-modify is_settled c.reduce_task_status t.id mark_done (λ s q. refl) w.reduce_settled)
          (inr (all_map_tasks_done-Later l (Handed-reduce_lt c t w h is_reduce).1)) (λ e. e),
      l,
    )
report_task_done-WellFormed c t w h (reduce_missing not_map is_reduce ge) =
    absurd (omega (arith, (Handed-reduce_lt c t w h is_reduce).0))
report_task_done-WellFormed c t w h (ignored not_map neither) = (w, Later-refl c)

pub check_task_timeouts-WellFormed :
    (m r : ℕ → ℕ) (c : Coordinator) → WellFormed c → WellFormed (check_task_timeouts m r c)
unfolding check_task_timeouts
check_task_timeouts-WellFormed m r c w =
    WellFormed-Later w (Later-check_task_timeouts c m r)
      (all-reassign is_settled m 0 c.map_task_status (λ s q. ground arith) w.map_settled)
      (all-reassign is_settled r 0 c.reduce_task_status (λ s q. ground arith) w.reduce_settled)
      (elim w.barrier [
        | inl idle ↦ inl (
            all-reassign is_idle r 0 c.reduce_task_status (λ s q. unfold is_idle in ground arith)
              idle)
        | inr maps ↦ inr (all_map_tasks_done-Later (Later-check_task_timeouts c m r) maps)
      ])
      (λ e. e)

pub done-WellFormed : (c : Coordinator) → WellFormed c → WellFormed (done c).0
unfolding done
done-WellFormed c w = elim (Bool-cases (all_map_tasks_done c && all_reduce_tasks_done c)) [
  | inl all_done ↦ rw all_done (record {
    map_length = w.map_length;
    reduce_length = w.reduce_length;
    map_shape = w.map_shape;
    reduce_shape = w.reduce_shape;
    map_settled = w.map_settled;
    reduce_settled = w.reduce_settled;
    barrier = w.barrier;
    finished = λ e. ground arith;
  })
  | inr more ↦ rw more w
]

pub make_map_tasks-shape :
    (n i : ℕ) (fs : List String) (j : ℕ) (t : Task)
    → get_elem? (make_map_tasks n i fs) j ≡ some t
    → (t.id ≡ i + j) × (t.task_type ≡ "map")
unfolding make_map_tasks
make_map_tasks-shape n i [] j t e = absurd (cc)
make_map_tasks-shape n i (f ∷ fs) zero t e = ground arith
make_map_tasks-shape n i (f ∷ fs) (suc j) t e =
    let (id, phase) = make_map_tasks-shape n (suc i) fs j t e in (omega arith, phase)

make_reduce_tasks-shape :
    (n i k : ℕ) (j : ℕ) (t : Task)
    → get_elem? (make_reduce_tasks n i k) j ≡ some t
    → (t.id ≡ i + j) × (t.task_type ≡ "reduce")
unfolding make_reduce_tasks
make_reduce_tasks-shape n i zero j t e = absurd (cc)
make_reduce_tasks-shape n i (suc k) zero t e = ground arith
make_reduce_tasks-shape n i (suc k) (suc j) t e =
    let (id, phase) = make_reduce_tasks-shape n (suc i) k j t e in (omega arith, phase)

pub length-make_map_tasks :
    (n i : ℕ) (fs : List String) → length (make_map_tasks n i fs) ≡ length fs
unfolding make_map_tasks
length-make_map_tasks n i [] = refl
length-make_map_tasks n i (f ∷ fs) = ap suc (length-make_map_tasks n (suc i) fs)

pub length-make_reduce_tasks : (n i k : ℕ) → length (make_reduce_tasks n i k) ≡ k
unfolding make_reduce_tasks
length-make_reduce_tasks n i zero = refl
length-make_reduce_tasks n i (suc k) = ap suc (length-make_reduce_tasks n (suc i) k)

all-replicate :
    (p : TaskStatus → Bool) (n : ℕ) (s : TaskStatus) → p s ≡ true → all p (replicate n s) ≡ true
all-replicate p zero s h = refl
all-replicate p (suc n) s h = rw h (all-replicate p n s h)

pub make_coordinator-WellFormed :
    (files : List String) (n_reduce : ℕ) → WellFormed (make_coordinator files n_reduce)
unfolding make_coordinator is_idle
make_coordinator-WellFormed files n_reduce = record {
  map_length =
      length-make_map_tasks n_reduce 0 files ∙ sym (length-replicate (length files) empty_status);
  reduce_length =
      length-make_reduce_tasks (length files) 0 n_reduce
      ∙ sym (length-replicate n_reduce empty_status);
  map_shape = λ i t e.
      let (id, phase) = make_map_tasks-shape n_reduce 0 files i t e in (omega arith, phase);
  reduce_shape = λ i t e.
      let (id, phase) = make_reduce_tasks-shape (length files) 0 n_reduce i t e in
      (omega arith, phase);
  map_settled = all-replicate is_settled (length files) empty_status refl;
  reduce_settled = all-replicate is_settled n_reduce empty_status refl;
  barrier = inl (all-replicate is_idle n_reduce empty_status refl);
  finished = λ e. absurd (cc e);
}
