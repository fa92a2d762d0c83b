-- ===== src/Sched/Switch.antt =====
-- kernel/sched/sched.cpp and kernel/sched/time.c: waking the sleepers, the switch to the next task on one
-- processor, and the calls that end in it. `now` is what `get_timer` gives. The address space and the
-- registers of the next task are not part of the state.
pub mod Moves
pub mod Requeue
pub mod Total
mod Wake
mod Sleep
pub mod Tests
use ucas_oslab.Base.{
  ℕ, ◌+◌, ◌%◌, ◌^◌, ◌==◌, leb, ltb, Bool, true, false, List, [], ◌∷◌, if◌then◌else◌,
}
use ucas_oslab.Base.Run.{Run, ok, halt, ◌>>=◌}
use ucas_oslab.Base.Update.{update}
use ucas_oslab.Sched.{
  TaskStatus, blocked, running, ready, exited, killed, Tasks, list_append, do_block,
}
use ucas_oslab.Sched.Pick.{Pcb, Scheduler, pick_process}

-- A list without a node of it.
abbrev pub remove : ℕ → List ℕ → List ℕ
remove p [] = []
remove p (q ∷ qs) = if q == p then qs else q ∷ remove p qs

-- `list_delete` of a node, from the list that it is in.
abbrev pub list_delete : Tasks → List ℕ → ℕ → Run (Tasks × List ℕ)
list_delete ts list p =
    if ts.held p then ok (record ts { held = update ts.held p false }, remove p list) else halt

-- `list_append` to the ready queue.
unfoldable pub append_ready : Scheduler → ℕ → Scheduler
append_ready s p =
    let moved = list_append s.tasks s.tasks.ready_queue p in
    record s { tasks = record (moved.0) { ready_queue = moved.1 } }

-- A sleeper is taken out of the sleep queue. Its status stays as it is.
unfoldable pub wake_task : Scheduler → ℕ → Run Scheduler
wake_task s p = list_delete s.tasks s.sleep_queue p >>= λ (taken : Tasks × List ℕ).
    ok (append_ready (record s { tasks = taken.0; sleep_queue = taken.1 }) p)

unfoldable pub check_task : ℕ → Scheduler → ℕ → Run Scheduler
check_task now s p = if leb (s.pcbs p).wakeup_time now then wake_task s p else ok s

unfoldable pub check_tasks : ℕ → List ℕ → Scheduler → Run Scheduler
check_tasks now [] s = ok s
check_tasks now (p ∷ ps) s = check_task now s p >>= check_tasks now ps

abbrev pub check_sleeping : ℕ → Scheduler → Run Scheduler
check_sleeping now s = check_tasks now s.sleep_queue s

abbrev pub is_running : TaskStatus → Bool
is_running blocked = false
is_running running = true
is_running ready = false
is_running exited = false
is_running killed = false

abbrev pub set_status : Scheduler → ℕ → TaskStatus → Scheduler
set_status s p status = record s {
  tasks = record (s.tasks) { status = update s.tasks.status p status };
}

-- The task that ran until now goes back to the ready queue.
unfoldable pub requeue : Scheduler → Scheduler
requeue s =
    if is_running (s.tasks.status s.running)
    then append_ready (set_status s s.running ready) s.running
    else s

unfoldable pub run_task : Scheduler → ℕ → Run Scheduler
run_task s p = list_delete s.tasks s.tasks.ready_queue p >>= λ (taken : Tasks × List ℕ).
    ok
      (record (set_status (record s { tasks = record (taken.0) { ready_queue = taken.1 } }) p
        running) { running = p })

-- Up to `switch_to`.
unfoldable pub do_scheduler : Scheduler → ℕ → ℕ → Run Scheduler
do_scheduler s hart now = check_sleeping now s >>= λ (s1 : Scheduler).
    pick_process (requeue s1) hart >>= λ (picked : ℕ × Scheduler). run_task (picked.1) (picked.0)

abbrev pub set_wakeup_time : Scheduler → ℕ → ℕ → Scheduler
set_wakeup_time s p time = record s {
  pcbs = update s.pcbs p (record (s.pcbs p) { wakeup_time = time });
}

-- `now'` is the time when the scheduler looks at the sleepers.
unfoldable pub do_sleep : Scheduler → ℕ → ℕ → ℕ → ℕ → Run Scheduler
do_sleep s hart sleep_time now now' =
    let s1 = set_wakeup_time s s.running ((now + sleep_time) % 2 ^ 64) in
    do_block s1.tasks s1.running s1.sleep_queue >>= λ (asleep : Tasks × List ℕ).
    do_scheduler (record s1 { tasks = asleep.0; sleep_queue = asleep.1 }) hart now'

abbrev pub set_workload : Pcb → ℕ → Pcb
set_workload proc workload = record proc {
  task_id = if ltb proc.task_workload workload then proc.task_id + 1 else proc.task_id;
  task_workload = workload;
}

unfoldable pub set_process_workload : Scheduler → ℕ → Scheduler
set_process_workload s workload = record s {
  pcbs = update s.pcbs s.running (set_workload (s.pcbs s.running) workload);
}
