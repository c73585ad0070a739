-- ===== src/Mr/Coordinator/Report.antt =====
-- Every branch of ReportTaskDone in coordinator.go.
use tda596_labs.Base.{
  ◌≡◌, inl, inr, true, false, arith, length, modify, Bool-cases, str_eq, ltb, ◌<◌, ◌≤◌,
}
use tda596_labs.Base.Run.{Run, ok, panic}
use tda596_labs.Mr.Rpc.{Task}
use tda596_labs.Mr.Coordinator.{Coordinator, mark_done, report_task_done}

pub data Reported (c : Coordinator) (t : Task) : Run Coordinator → Type 0 where
  map_done :
      str_eq t.task_type "map" ≡ true
      → t.id < length c.map_task_status
      → Reported c t (ok (record c { map_task_status = modify c.map_task_status t.id mark_done }))
  map_missing :
      str_eq t.task_type "map" ≡ true → length c.map_task_status ≤ t.id → Reported c t panic
  reduce_done :
      str_eq t.task_type "map" ≡ false
      → str_eq t.task_type "reduce" ≡ true
      → t.id < length c.reduce_task_status
      → Reported c t
          (ok (record c { reduce_task_status = modify c.reduce_task_status t.id mark_done }))
  reduce_missing :
      str_eq t.task_type "map" ≡ false
      → str_eq t.task_type "reduce" ≡ true
      → length c.reduce_task_status ≤ t.id
      → Reported c t panic
  ignored :
      str_eq t.task_type "map" ≡ false → str_eq t.task_type "reduce" ≡ false → Reported c t (ok c)

pub report_task_done-Reported : (c : Coordinator) (t : Task) → Reported c t (report_task_done c t)
unfolding report_task_done
report_task_done-Reported c t = elim (Bool-cases (str_eq t.task_type "map")) [
  | inl is_map ↦ elim (Bool-cases (ltb t.id (length c.map_task_status))) [
    | inl lt ↦ rw (is_map, lt) (map_done is_map (ground arith))
    | inr ge ↦ rw (is_map, ge) (map_missing is_map (ground arith))
  ]
  | inr not_map ↦ elim (Bool-cases (str_eq t.task_type "reduce")) [
    | inl is_reduce ↦ elim (Bool-cases (ltb t.id (length c.reduce_task_status))) [
      | inl lt ↦ rw (not_map, is_reduce, lt) (reduce_done not_map is_reduce (ground arith))
      | inr ge ↦ rw (not_map, is_reduce, ge) (reduce_missing not_map is_reduce (ground arith))
    ]
    | inr neither ↦ rw (not_map, neither) (ignored not_map neither)
  ]
]
