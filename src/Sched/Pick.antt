-- ===== src/Sched/Pick.antt =====
-- kernel/sched/sched.cpp: which ready task runs next, and the history of time slices. A task is its place
-- in `pcb_all`, the kernel's tasks first. Workloads and nice values are not negative, and the products of
-- the shares fit an int.
pub mod Least
pub mod First
pub mod History
pub mod Tests
use ucas_oslab.Base.{
  ℕ, zero, suc, ◌+◌, ◌*◌, ◌/◌, ◌%◌, ◌==◌, ltb, Bool, true, false, not, ◌&&◌, Option, none, some,
  List, [], ◌∷◌, if◌then◌else◌,
}
use ucas_oslab.Base.Int.{ℤ, pos, negsuc, sub_ℕ, ◌+ℤ◌, ◌-ℤ◌, ltb_ℤ}
use ucas_oslab.Base.Run.{Run, ok, halt}
use ucas_oslab.Base.Update.{update}
use ucas_oslab.Locking.Slots.{has_ref}
use ucas_oslab.Sched.{Tasks}

abbrev pub nr_cpus : ℕ
nr_cpus = 2

-- The part of pcb_t that the scheduler reads.
pub record Pcb : Type 0 where
  pub pid : ℕ
  pub wakeup_time : ℕ
  pub task_id : ℕ
  pub task_workload : ℕ
  pub slice_cnt : ℤ
  pub nice : ℕ
  pub affinity : ℕ

abbrev pub time_slice_history_size : ℕ
time_slice_history_size = 200

-- The tasks, and what the scheduler keeps of them. `running` is `current_running`.
pub record Scheduler : Type 0 where
  pub tasks : Tasks
  pub pcbs : ℕ → Pcb
  pub sleep_queue : List ℕ
  pub time_slice_history : ℕ → Option ℕ
  pub time_slice_history_index : ℕ
  pub running : ℕ

-- A product with a number, and the quotient of C, which cuts off towards 0.
abbrev pub mul_ℤ : ℤ → ℕ → ℤ
mul_ℤ (pos a) k = pos (a * k)
mul_ℤ (negsuc a) k = sub_ℕ 0 (suc a * k)

abbrev pub div_ℤ : ℤ → ℕ → ℤ
div_ℤ (pos a) k = pos (a / k)
div_ℤ (negsuc a) k = sub_ℕ 0 (suc a / k)

abbrev pub normalized_cnt : Pcb → ℤ
normalized_cnt proc =
    div_ℤ (mul_ℤ (div_ℤ proc.slice_cnt (proc.task_workload + 1)) (10 + proc.nice)) 10

-- `min_task_id` and `min_slice_cnt`.
pub record Minimum : Type 0 where
  pub min_task_id : ℕ
  pub min_slice_cnt : ℤ

abbrev pub update_by_consumption_init : Minimum
update_by_consumption_init = record { min_task_id = 0x7f7f7f7f; min_slice_cnt = pos 0x7f7f7f7f }

-- `update_by_consumption`: whether it takes the task, and the new minimum.
abbrev pub is_better : Minimum → Pcb → Bool
is_better m proc =
    if ltb proc.task_id m.min_task_id
    then true
    else proc.task_id == m.min_task_id && ltb_ℤ (normalized_cnt proc) m.min_slice_cnt

abbrev pub update_by_consumption : Minimum → Pcb → Minimum
update_by_consumption m proc =
    if is_better m proc
    then record { min_task_id = proc.task_id; min_slice_cnt = normalized_cnt proc }
    else m

-- On the processor `hart`.
abbrev pub filter_affinity : ℕ → Pcb → Bool
filter_affinity hart proc = has_ref proc.affinity hart

abbrev pub filterout_kernel : ℕ → Pcb → Bool
filterout_kernel hart proc = if ltb proc.pid nr_cpus then false else filter_affinity hart proc

-- `pick_process_impl` with `update_by_consumption`, and with `update_by_first`.
unfoldable pub pick_by_consumption : (ℕ → Pcb) → ℕ → Minimum → Option ℕ → List ℕ → Option ℕ
pick_by_consumption pcbs hart m selected [] = selected
pick_by_consumption pcbs hart m selected (p ∷ ps) =
    if filterout_kernel hart (pcbs p)
    then (if is_better m (pcbs p)
        then pick_by_consumption pcbs hart (update_by_consumption m (pcbs p)) (some p) ps
        else pick_by_consumption pcbs hart m selected ps)
    else pick_by_consumption pcbs hart m selected ps

abbrev update_by_first : Option ℕ → ℕ → Option ℕ
update_by_first none p = some p
update_by_first (some q) p = some q

unfoldable pub pick_by_first : (ℕ → Pcb) → ℕ → Option ℕ → List ℕ → Option ℕ
pick_by_first pcbs hart selected [] = selected
pick_by_first pcbs hart selected (p ∷ ps) =
    if filter_affinity hart (pcbs p)
    then pick_by_first pcbs hart (update_by_first selected p) ps
    else pick_by_first pcbs hart selected ps

abbrev pub add_slices : ℤ → (ℕ → Pcb) → ℕ → ℕ → Pcb
add_slices n pcbs p = update pcbs p (record (pcbs p) { slice_cnt = (pcbs p).slice_cnt +ℤ n })

-- The slice that leaves the history.
abbrev pub drop_slice : (ℕ → Pcb) → Option ℕ → ℕ → Pcb
drop_slice pcbs none = pcbs
drop_slice pcbs (some old) = add_slices (negsuc 0) pcbs old

unfoldable pub record_slice : Scheduler → ℕ → Scheduler
record_slice s proc =
    let i = s.time_slice_history_index in
    record s {
      pcbs = add_slices (pos 1) (drop_slice s.pcbs (s.time_slice_history i)) proc;
      time_slice_history = update s.time_slice_history i (some proc);
      time_slice_history_index = (i + 1) % time_slice_history_size;
    }

abbrev pub or_halt : Scheduler → Option ℕ → Run (ℕ × Scheduler)
or_halt s none = halt
or_halt s (some p) = ok (p, record_slice s p)

abbrev pub or_first : Scheduler → ℕ → Option ℕ → Run (ℕ × Scheduler)
or_first s hart (some p) = ok (p, record_slice s p)
or_first s hart none = or_halt s (pick_by_first s.pcbs hart none s.tasks.ready_queue)

unfoldable pub pick_process : Scheduler → ℕ → Run (ℕ × Scheduler)
pick_process s hart =
    or_first s hart
      (pick_by_consumption s.pcbs hart update_by_consumption_init none s.tasks.ready_queue)
