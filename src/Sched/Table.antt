-- ===== src/Sched/Table.antt =====
-- kernel/sched/sched.cpp and kernel/sched/task.c: the table of processes, and the tasks that wait for the
-- end of one. Task `p` is `pcb_all[p]`; the user processes follow the kernel's.
mod Find
mod Wait
mod Tests
use ucas_oslab.Base.{
  ℕ, ◌+◌, ◌%◌, ◌^◌, ◌==◌, leb, ltb, not, ◌&&◌, Bool, true, false, Option, none, some, List, [], ◌∷◌,
  if◌then◌else◌,
}
use ucas_oslab.Base.Int.{ℤ, pos, negsuc}
use ucas_oslab.Base.Run.{Run, ok, halt, asserts, ◌>>=◌, ◌>>◌}
use ucas_oslab.Base.Update.{update}
use ucas_oslab.Locking.Slots.{first}
use ucas_oslab.Sched.{
  TaskStatus, blocked, running, ready, exited, killed, Tasks, list_append, unblock_list,
}
use ucas_oslab.Sched.Pick.{Pcb, Scheduler, nr_cpus}
use ucas_oslab.Sched.Switch.{set_status, do_scheduler}

abbrev pub num_max_task : ℕ
num_max_task = 32

abbrev pub num_max_pcb : ℕ
num_max_pcb = num_max_task + nr_cpus

abbrev pub is_exited : TaskStatus → Bool
is_exited blocked = false
is_exited running = false
is_exited ready = false
is_exited exited = true
is_exited killed = false

-- The searches of `pcb_user`.
abbrev pub alloc_pcb : Scheduler → Option ℕ
alloc_pcb s = first (λ p. is_exited (s.tasks.status p)) num_max_task nr_cpus

abbrev pub has_pid : Scheduler → ℕ → ℕ → Bool
has_pid s pid p = (s.pcbs p).pid == pid && not (is_exited (s.tasks.status p))

abbrev pub find_pcb : Scheduler → ℤ → Run (Option ℕ)
find_pcb s (negsuc n) = ok none
find_pcb s (pos pid) =
    if ltb pid nr_cpus
    then asserts ((s.pcbs pid).pid == pid) >> ok (some pid)
    else ok (first (has_pid s pid) num_max_task nr_cpus)

abbrev found_index : Option ℕ → Run ℕ
found_index none = halt
found_index (some i) = ok i

abbrev index_of : Option ℕ → Run ℕ
index_of none = halt
index_of (some p) = found_index (first (λ i. i == p) num_max_pcb 0)

unfoldable pub get_pcb_index : Scheduler → ℤ → Run ℕ
get_pcb_index s pid = find_pcb s pid >>= index_of

abbrev pub free_pcb : Scheduler → Option ℕ → Run Scheduler
free_pcb s none = ok s
free_pcb s (some p) = asserts (leb nr_cpus (s.pcbs p).pid) >> ok (set_status s p exited)

-- What a call returns, and the state after it.
abbrev renice : Scheduler → ℕ → Option ℕ → Run (ℤ × Scheduler)
renice s nice none = ok (negsuc 0, s)
renice s nice (some p) =
    ok (pos 0, record s { pcbs = update s.pcbs p (record (s.pcbs p) { nice = nice }) })

abbrev set_process_nice : Scheduler → ℤ → ℤ → Run (ℤ × Scheduler)
set_process_nice s (negsuc n) pid = ok (negsuc 0, s)
set_process_nice s (pos nice) pid = find_pcb s pid >>= renice s nice

abbrev set_proc_affinity : Pcb → ℕ → ℕ × Pcb
set_proc_affinity proc affinity_mask =
    if affinity_mask % 2 ^ nr_cpus == 0
    then (1, proc)
    else (0, record proc { affinity = affinity_mask % 2 ^ nr_cpus })

-- The scheduler, and the `wait_list` of each process.
pub record Processes : Type 0 where
  pub scheduler : Scheduler
  pub wait_lists : ℕ → List ℕ

-- The running task joins the wait list of `p` and another one runs.
unfoldable pub wait_for : Processes → ℕ → ℕ → ℕ → Run Processes
wait_for w hart now p =
    let s = w.scheduler in
    let joined = list_append s.tasks (w.wait_lists p) s.running in
    do_scheduler (set_status (record s { tasks = joined.0 }) s.running blocked) hart now
    >>= λ (s' : Scheduler).
        ok (record { scheduler = s'; wait_lists = update w.wait_lists p (joined.1) })

abbrev waited : Processes → ℕ → ℕ → ℤ → Option ℕ → Run (ℤ × Processes)
waited w hart now pid none = ok (pos 0, w)
waited w hart now pid (some p) = wait_for w hart now p >>= λ (w' : Processes). ok (pid, w')

unfoldable pub do_waitpid : Processes → ℕ → ℕ → ℤ → Run (ℤ × Processes)
do_waitpid w hart now pid = find_pcb w.scheduler pid >>= waited w hart now pid

abbrev pub exit_wakeup : Processes → ℕ → Processes
exit_wakeup w p =
    let s = w.scheduler in
    record {
      scheduler = record s { tasks = unblock_list s.tasks (w.wait_lists p) };
      wait_lists = update w.wait_lists p [];
    }
