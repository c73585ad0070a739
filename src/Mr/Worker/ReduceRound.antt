-- ===== src/Mr/Worker/ReduceRound.antt =====
-- A round of worker.go's loop in which a reduce task is handed out, executed and reported.
use mathlib.Core.Path.{subst}
use tda596_labs.Base.{
  ℕ, suc, ◌≡◌, ◌≢◌, refl, sym, ◌∙◌, inl, inr, String, true, false, none, some, List, arith, length,
  get_elem?, modify, Bool-cases, length-modify, nat_eq, nat_eq_iff, str_eq, str_eq_iff, GoEq-string,
  ltb, get_elem?-eq-some-lt,
}
use tda596_labs.Base.Dict.{lookup}
use tda596_labs.Base.Run.{ok, Returns, of_Returns, Returns-bind}
use tda596_labs.Mr.Rpc.{Task, TaskStatus, empty_task}
use tda596_labs.Mr.Coordinator.{Coordinator, all_map_tasks_done, mark_assigned, report_task_done}
use tda596_labs.Mr.Coordinator.Status.{IdleAt}
use tda596_labs.Mr.Coordinator.Assign.{reduce_task}
use tda596_labs.Mr.Coordinator.Invariant.{WellFormed}
use tda596_labs.Mr.Coordinator.Later.{Later}
use tda596_labs.Mr.Coordinator.Report.{report_task_done-Reported}
use tda596_labs.Mr.Coordinator.Preserve.{assign_task-WellFormed, report_task_done-WellFormed}
use tda596_labs.Mr.Worker.{
  KeyValue, Store, Host, World, execute, execute_reduce_task, notify_task_done,
}
use tda596_labs.Mr.Worker.Laws.{HostLaws}
use tda596_labs.Mr.Worker.ReduceTask.{reduced, execute_reduce_task_lem}
use tda596_labs.Mr.Worker.Round.{served, undone-served, all_free-served, get_elem?-served_ne}
use tda596_labs.Mr.Worker.Sound.{Sound, remaining, Advanced, all_mapped}

module _ (h : Host) (laws : HostLaws h) (m n : ℕ) (emitted : ℕ → List KeyValue) (w : World)
    (s : Sound h m n emitted w) (now i : ℕ) (t : Task)
    (none_idle : IdleAt w.coordinator.map_task_status none)
    (maps : all_map_tasks_done w.coordinator ≡ true)
    (idle : IdleAt w.coordinator.reduce_task_status (some i))
    (at : get_elem? w.coordinator.reduce_tasks i ≡ some t) where
  -- The coordinator after the answer, and after the report.
  abbrev out : Coordinator
  out = record w.coordinator {
    reduce_task_status = modify w.coordinator.reduce_task_status i (mark_assigned now);
  }

  abbrev back : Coordinator
  back = record w.coordinator {
    reduce_task_status = served now i t.id w.coordinator.reduce_task_status;
  }

  same_id : t.id ≡ i
  same_id = (s.well_formed.reduce_shape i t at).0

  is_reduce : str_eq t.task_type "reduce" ≡ true
  is_reduce = (str_eq_iff t.task_type "reduce").1 (s.well_formed.reduce_shape i t at).1

  not_map : str_eq t.task_type "map" ≡ false
  not_map = subst (λ x. str_eq x "map" ≡ false) (sym (s.well_formed.reduce_shape i t at).1) refl

  report_out : report_task_done out t ≡ ok back
  unfolding report_task_done
  report_out =
      let lt = get_elem?-eq-some-lt w.coordinator.reduce_tasks i at in
      let in_range : ltb t.id (length out.reduce_task_status) ≡ true = ground (
        arith,
        same_id,
        s.well_formed.reduce_length,
        length-modify w.coordinator.reduce_task_status i (mark_assigned now),
      ) in
      rw (not_map, is_reduce, in_range)

  back-WellFormed : WellFormed back
  back-WellFormed =
      let (wf, later, handed) =
        assign_task-WellFormed now w.coordinator empty_task s.well_formed
          (reduce_task i t none_idle maps idle at) in
      (of_Returns (λ d. WellFormed d × Later out d)
        (report_task_done-WellFormed out t wf handed (report_task_done-Reported out t))
        report_out).0

  -- What ExecuteReduceTask leaves.
  abbrev Reduced : Store → Type 0
  Reduced store =
      (lookup (h.output_name t.id) store ≡ some (reduced h t.num_of_files n t.id emitted))
      × ((q : String) → q ≢ h.output_name t.id → lookup q store ≡ lookup q w.store)

  module _ (store : Store) (done : Reduced store) where
    -- Files that the task does not write are as they were.
    kept : (q : String) → q ≢ h.output_name i → lookup q store ≡ lookup q w.store
    kept q ne = done.1 q (subst (λ k. q ≢ h.output_name k) (sym same_id) ne)

    now_done : lookup (h.output_name i) store ≡ some (reduced h m n i emitted)
    now_done =
        subst (λ k. lookup (h.output_name k) store ≡ some (reduced h m n k emitted)) same_id
          (subst (λ k. lookup (h.output_name t.id) store ≡ some (reduced h k n t.id emitted))
            (s.inputs i t at) done.0)

    reduced_back :
        (r : ℕ) (st : TaskStatus)
        → get_elem? back.reduce_task_status r ≡ some st
        → st.completed ≡ true
        → lookup (h.output_name r) store ≡ some (reduced h m n r emitted)
    reduced_back r st at_r is_completed = elim (Bool-cases (nat_eq i r)) [
      | inl same ↦
          subst (λ k. lookup (h.output_name k) store ≡ some (reduced h m n k emitted))
            ((nat_eq_iff i r).0 same) now_done
      | inr other ↦
          let ne : i ≢ r = ground arith in
          let unchanged =
            get_elem?-served_ne now i t.id w.coordinator.reduce_task_status same_id r ne in
          kept (h.output_name r) (λ e. ne (sym (laws.output_name_inj r i e)))
          ∙ s.reduced_to r st (sym unchanged ∙ at_r) is_completed
    ]

    back-Sound : Sound h m n emitted (record { coordinator = back; store = store })
    back-Sound = record {
      well_formed = back-WellFormed;
      map_free = s.map_free;
      reduce_free =
          all_free-served now i t.id w.coordinator.reduce_task_status same_id s.reduce_free;
      map_count = s.map_count;
      reduce_count = s.reduce_count;
      reads = λ j u at_j.
          let old = s.reads j u at_j in
          record {
            buckets = old.buckets;
            content = old.content;
            there = kept u.file (old.input.ne_output i) ∙ old.there;
            emits = old.emits;
            input = old.input;
          };
      inputs = s.inputs;
      mapped = λ j st at_j is_completed b lt.
          kept (h.intermediate_name j b) (λ e. laws.output-ne-intermediate i j b (sym e))
          ∙ s.mapped j st at_j is_completed b lt;
      reduced_to = reduced_back;
    }

  -- The task is executed and reported without a failure, and one task fewer is left.
  pub execute-reduce :
      Returns
        (Advanced h m n emitted w)
        (execute h t (record { coordinator = out; store = w.store }))
  unfolding execute notify_task_done
  execute-reduce =
      rw (not_map, is_reduce)
        (Returns-bind Reduced (Advanced h m n emitted w) (execute_reduce_task h t w.store) _
          (execute_reduce_task_lem h laws t n emitted w.store
            (omega (
              arith,
              same_id,
              s.reduce_count,
              get_elem?-eq-some-lt w.coordinator.reduce_tasks i at,
            ))
            (λ j lt. all_mapped h m n emitted w s maps j (omega (arith, s.inputs i t at))))
          λ store done. rw report_out (back-Sound store done, fewer))
    where
      fewer : suc (remaining (record { coordinator = back; store = w.store })) ≡ remaining w
      fewer =
          let ((st, at_st, is_idle_st), before) = idle in
          omega (
            arith,
            undone-served now i t.id w.coordinator.reduce_task_status same_id at_st is_idle_st,
          )
