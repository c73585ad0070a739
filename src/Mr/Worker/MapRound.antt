-- ===== src/Mr/Worker/MapRound.antt =====
-- A round of worker.go's loop in which a map task is handed out, executed and reported.
use mathlib.Core.Path.{subst}
use tda596_labs.Base.{
  ℕ, suc, ◌<◌, ◌≡◌, ◌≢◌, sym, ◌∙◌, inl, inr, String, true, some, List, arith, length, get_elem?,
  modify, Bool-cases, length-modify, nat_eq, nat_eq_iff, str_eq, str_eq_iff, GoEq-string, ltb,
  get_elem?-eq-some-lt,
}
use tda596_labs.Base.Dict.{lookup}
use tda596_labs.Base.Run.{ok, Returns, of_Returns, Returns-bind}
use tda596_labs.Mr.Rpc.{Task, TaskStatus, empty_task}
use tda596_labs.Mr.Coordinator.{Coordinator, mark_assigned, report_task_done}
use tda596_labs.Mr.Coordinator.Status.{IdleAt}
use tda596_labs.Mr.Coordinator.Assign.{map_task}
use tda596_labs.Mr.Coordinator.Invariant.{WellFormed}
use tda596_labs.Mr.Coordinator.Later.{Later}
use tda596_labs.Mr.Coordinator.Report.{report_task_done-Reported}
use tda596_labs.Mr.Coordinator.Preserve.{assign_task-WellFormed, report_task_done-WellFormed}
use tda596_labs.Mr.Worker.{
  KeyValue, Store, Host, World, execute, execute_map_task, notify_task_done,
}
use tda596_labs.Mr.Worker.Laws.{HostLaws}
use tda596_labs.Mr.Worker.MapTask.{MapDone, Mapped, execute_map_task_lem}
use tda596_labs.Mr.Worker.Round.{served, undone-served, all_free-served, get_elem?-served_ne}
use tda596_labs.Mr.Worker.Sound.{Reads, Sound, remaining, Advanced}

module _ (h : Host) (laws : HostLaws h) (m n : ℕ) (emitted : ℕ → List KeyValue) (pos : 0 < n)
    (w : World) (s : Sound h m n emitted w) (now i : ℕ) (t : Task)
    (idle : IdleAt w.coordinator.map_task_status (some i))
    (at : get_elem? w.coordinator.map_tasks i ≡ some t) where
  -- The coordinator after the answer, and after the report.
  abbrev out : Coordinator
  out = record w.coordinator {
    map_task_status = modify w.coordinator.map_task_status i (mark_assigned now);
  }

  abbrev back : Coordinator
  back = record w.coordinator { map_task_status = served now i t.id w.coordinator.map_task_status }

  same_id : t.id ≡ i
  same_id = (s.well_formed.map_shape i t at).0

  is_map : str_eq t.task_type "map" ≡ true
  is_map = (str_eq_iff t.task_type "map").1 (s.well_formed.map_shape i t at).1

  report_out : report_task_done out t ≡ ok back
  unfolding report_task_done
  report_out =
      let lt = get_elem?-eq-some-lt w.coordinator.map_tasks i at in
      let in_range : ltb t.id (length out.map_task_status) ≡ true = ground (
        arith,
        same_id,
        s.well_formed.map_length,
        length-modify w.coordinator.map_task_status i (mark_assigned now),
      ) in
      rw (is_map, in_range)

  back-WellFormed : WellFormed back
  back-WellFormed =
      let (wf, later, handed) =
        assign_task-WellFormed now w.coordinator empty_task s.well_formed (map_task i t idle at) in
      (of_Returns (λ d. WellFormed d × Later out d)
        (report_task_done-WellFormed out t wf handed (report_task_done-Reported out t))
        report_out).0

  abbrev r : Reads h m n emitted w.store i t
  r = s.reads i t at

  module _ (store : Store) (done : Mapped h t r.content w.store store) where
    -- Files that the task does not write are as they were.
    kept :
        (q : String) → ((b : ℕ) → q ≢ h.intermediate_name i b) → lookup q store ≡ lookup q w.store
    kept q ne = done.1 q (λ b lt. subst (λ k. q ≢ h.intermediate_name k b) (sym same_id) (ne b))

    now_done : MapDone h i n (emitted i) store
    now_done =
        subst (λ k. MapDone h k n (emitted i) store) same_id
          (subst (λ k. MapDone h t.id k (emitted i) store) r.buckets
            (subst (λ kva. MapDone h t.id t.num_of_files kva store) r.emits done.0))

    mapped_back :
        (j : ℕ) (st : TaskStatus)
        → get_elem? back.map_task_status j ≡ some st
        → st.completed ≡ true
        → MapDone h j n (emitted j) store
    mapped_back j st at_j is_completed = elim (Bool-cases (nat_eq i j)) [
      | inl same ↦ subst (λ k. MapDone h k n (emitted k) store) ((nat_eq_iff i j).0 same) now_done
      | inr other ↦
          let ne : i ≢ j = ground arith in
          let unchanged =
            get_elem?-served_ne now i t.id w.coordinator.map_task_status same_id j ne in
          λ b lt.
            kept (h.intermediate_name j b)
              (λ c e. ne (sym (laws.intermediate_name_inj j b i c e).0))
            ∙ s.mapped j st (sym unchanged ∙ at_j) is_completed b lt
    ]

    back-Sound : Sound h m n emitted (record { coordinator = back; store = store })
    back-Sound = record {
      well_formed = back-WellFormed;
      map_free = all_free-served now i t.id w.coordinator.map_task_status same_id s.map_free;
      reduce_free = s.reduce_free;
      map_count = s.map_count;
      reduce_count = s.reduce_count;
      reads = λ j u at_j.
          let old = s.reads j u at_j in
          record {
            buckets = old.buckets;
            content = old.content;
            there = kept u.file (old.input.ne_intermediate i) ∙ old.there;
            emits = old.emits;
            input = old.input;
          };
      inputs = s.inputs;
      mapped = mapped_back;
      reduced_to = λ r' st at_r is_completed.
          kept (h.output_name r') (laws.output-ne-intermediate r' i)
          ∙ s.reduced_to r' st at_r is_completed;
    }

  -- The task is executed and reported without a failure, and one task fewer is left.
  pub execute-map :
      Returns
        (Advanced h m n emitted w)
        (execute h t (record { coordinator = out; store = w.store }))
  unfolding execute notify_task_done
  execute-map = rw is_map (
      Returns-bind (Mapped h t r.content w.store) (Advanced h m n emitted w)
        (execute_map_task h t w.store) _
        (execute_map_task_lem h laws t w.store r.content (omega (arith, r.buckets)) r.there)
        λ store done. rw report_out (back-Sound store done, fewer))
    where
      fewer : suc (remaining (record { coordinator = back; store = w.store })) ≡ remaining w
      fewer =
          let ((st, at_st, is_idle_st), before) = idle in
          omega
            (arith, undone-served now i t.id w.coordinator.map_task_status same_id at_st is_idle_st)
