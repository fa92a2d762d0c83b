-- ===== src/Sched/Switch/Total.antt =====
-- The switch to the next task, whole: it is made whenever some task may run, and no task is lost.
use ucas_oslab.Base.{
  ℕ, ◌+◌, ◌<◌, ◌≡◌, ◌≢◌, refl, sym, ap, ◌∙◌, inl, inr, ◌==◌, true, false, Option, none, some, List,
  [], occurrences, arith, if◌then◌else◌, Bool-cases, ==_refl, ==_ne,
}
use native.Mathlib.Decide.{ℕ_discrete}
use mathlib.Core.Path.{subst}
use ucas_oslab.Base.Int.{ℤ, pos, negsuc}
use ucas_oslab.Base.Run.{Run, ok, halt}
use ucas_oslab.Sched.{TaskStatus, running}
use ucas_oslab.Sched.Pick.{Pcb, Scheduler, filter_affinity, record_slice, add_slices, drop_slice}
use ucas_oslab.Sched.Pick.First.{pick_process-ok}
use ucas_oslab.Sched.Switch.{append_ready, check_tasks, is_running, requeue, do_scheduler}
use ucas_oslab.Sched.Switch.Moves.{one, places, Linked, Woken, check_tasks-Woken}
use ucas_oslab.Sched.Switch.Wake.{not_due, check_sleeping-due}
use ucas_oslab.Sched.Switch.Requeue.{
  on_cpu, WellQueued, WellQueued-Woken, on_cpu-Woken, requeue-Requeued, Switched, run_task-Switched,
}

-- The slices that are counted are not of the queues.
Linked-record_slice : (s : Scheduler) (p : ℕ) → Linked s → Linked (record_slice s p)
unfolding record_slice places
Linked-record_slice s p l = record { linked = λ q. l.linked q }

places-record_slice : (s : Scheduler) (p q : ℕ) → places (record_slice s p) q ≡ places s q
unfolding record_slice places
places-record_slice s p q = refl

ready_queue-record_slice :
    (s : Scheduler) (p : ℕ) → (record_slice s p).tasks.ready_queue ≡ s.tasks.ready_queue
unfolding record_slice
ready_queue-record_slice s p = refl

check-Woken :
    (now : ℕ) (s : Scheduler)
    → Linked s
    → (s' : Scheduler) × (check_tasks now s.sleep_queue s ≡ ok s') × Woken s s'
check-Woken now s l = check_tasks-Woken now s.sleep_queue s l (λ q. omega arith)

-- The running task is made of the one that was picked: what is in the queues or runs is as before.
on_cpu-Switched : (s s' : Scheduler) (p q : ℕ) → Switched s p s' → on_cpu s' q ≡ one (p == q)
on_cpu-Switched s s' p q sw =
    ap (λ r. if is_running (s'.tasks.status r) then one (r == q) else 0) sw.now_runs
    ∙ ap (λ b. if is_running b then one (p == q) else 0) sw.status_set

left_of : Scheduler → Run Scheduler → List ℕ
left_of s r = elim r [ halt ↦ [] | ok t ↦ t.sleep_queue ]

check_due :
    (now : ℕ) (s : Scheduler)
    → Linked s
    → (s' : Scheduler) × (check_tasks now s.sleep_queue s ≡ ok s')
      × Woken s s'
      × (s'.sleep_queue ≡ not_due s.pcbs now s.sleep_queue)
unfolding left_of
check_due now s l =
    let (s1, wakes, woken) = check-Woken now s l in
    let (s2, wakes2, left, ready_now) = check_sleeping-due now s l in
    (s1, wakes, woken, ap (left_of s) (sym wakes ∙ wakes2) ∙ left)

sleep_queue-requeue : (s : Scheduler) → (requeue s).sleep_queue ≡ s.sleep_queue
unfolding requeue append_ready
sleep_queue-requeue s = elim (Bool-cases (is_running (s.tasks.status s.running))) [
  | inl on ↦ rw on refl
  | inr off ↦ rw off refl
]

status-requeue :
    (s : Scheduler) (r : ℕ)
    → is_running (s.tasks.status s.running) ≡ false
    → (requeue s).tasks.status r ≡ s.tasks.status r
unfolding requeue
status-requeue s r off = rw off refl

sleep_queue-record_slice : (s : Scheduler) (p : ℕ) → (record_slice s p).sleep_queue ≡ s.sleep_queue
unfolding record_slice
sleep_queue-record_slice s p = refl

status-record_slice : (s : Scheduler) (p : ℕ) → (record_slice s p).tasks.status ≡ s.tasks.status
unfolding record_slice
status-record_slice s p = refl

-- Counting a slice changes no wake-up time.
wakeup_time-add_slices :
    (n : ℤ) (pcbs : ℕ → Pcb) (p q : ℕ) → (add_slices n pcbs p q).wakeup_time ≡ (pcbs q).wakeup_time
wakeup_time-add_slices n pcbs p q = elim (ℕ_discrete p q) [
  | yes e ↦
      subst (λ x. (add_slices n pcbs p x).wakeup_time ≡ (pcbs x).wakeup_time) e
        (rw (==_refl p) refl)
  | no ne ↦ rw (==_ne p q ne) refl
]

wakeup_time-drop_slice :
    (pcbs : ℕ → Pcb) (old : Option ℕ) (q : ℕ)
    → (drop_slice pcbs old q).wakeup_time ≡ (pcbs q).wakeup_time
wakeup_time-drop_slice pcbs none q = refl
wakeup_time-drop_slice pcbs (some p) q = wakeup_time-add_slices (negsuc 0) pcbs p q

wakeup_time-record_slice :
    (s : Scheduler) (p q : ℕ) → ((record_slice s p).pcbs q).wakeup_time ≡ (s.pcbs q).wakeup_time
unfolding record_slice
wakeup_time-record_slice s p q =
    wakeup_time-add_slices (pos 1)
      (drop_slice s.pcbs (s.time_slice_history s.time_slice_history_index)) p q
    ∙ wakeup_time-drop_slice s.pcbs (s.time_slice_history s.time_slice_history_index) q

-- All that a switch does to the tasks.
pub record Scheduled (s : Scheduler) (hart now : ℕ) (s' : Scheduler) : Type 0 where
  pub queued : WellQueued s'
  pub allowed : filter_affinity hart (s.pcbs s'.running) ≡ true
  pub is_on : s'.tasks.status s'.running ≡ running
  pub same : (r : ℕ) → places s' r + on_cpu s' r ≡ places s r + on_cpu s r
  pub sleepers : s'.sleep_queue ≡ not_due s.pcbs now s.sleep_queue
  pub wakeups : (r : ℕ) → (s'.pcbs r).wakeup_time ≡ (s.pcbs r).wakeup_time
  pub statuses :
      (r : ℕ)
      → is_running (s.tasks.status s.running) ≡ false
      → s'.running ≢ r
      → s'.tasks.status r ≡ s.tasks.status r

still_off :
    (s s1 : Scheduler)
    → Woken s s1
    → is_running (s.tasks.status s.running) ≡ false
    → is_running (s1.tasks.status s1.running) ≡ false
still_off s s1 woken off =
    ap (λ r. is_running (s1.tasks.status r)) woken.running_same
    ∙ ap is_running (woken.status_same s.running)
    ∙ off

pub do_scheduler-Scheduled :
    (s : Scheduler) (hart now q : ℕ)
    → WellQueued s
    → 0 < occurrences s.tasks.ready_queue q + on_cpu s q
    → filter_affinity hart (s.pcbs q) ≡ true
    → (s' : Scheduler) × (do_scheduler s hart now ≡ ok s') × Scheduled s hart now s'
unfolding do_scheduler
do_scheduler-Scheduled s hart now q w some_in fits =
    let (s1, wakes, woken, left) = check_due now s w.queues in
    let put = requeue-Requeued s1 (WellQueued-Woken s s1 w woken) in
    let same_pcbs = put.pcbs_kept ∙ woken.pcbs_same in
    let (p, picks, in_ready, on) =
      pick_process-ok (requeue s1) hart q
        (omega (arith, put.ready_more q, woken.ready_grows q, on_cpu-Woken s s1 q woken, some_in))
        (subst (λ (f : ℕ → Pcb). filter_affinity hart (f q) ≡ true) (sym same_pcbs) fits) in
    let s3 = record_slice (requeue s1) p in
    let (s', runs, sw) =
      run_task-Switched s3 p (Linked-record_slice (requeue s1) p put.still_linked) (
        subst (λ xs. 0 < occurrences xs p) (sym (ready_queue-record_slice (requeue s1) p))
          in_ready) in
    (
      s',
      rw (wakes, picks) runs,
      record {
        queued = sw.queued;
        allowed =
            subst (λ r. filter_affinity hart (s.pcbs r) ≡ true) (sym sw.now_runs)
              (subst (λ (f : ℕ → Pcb). filter_affinity hart (f p) ≡ true) same_pcbs on);
        is_on = subst (λ r. s'.tasks.status r ≡ running) (sym sw.now_runs) sw.status_set;
        same = λ r. omega (
          arith,
          on_cpu-Switched s3 s' p r sw,
          sw.places_less r,
          places-record_slice (requeue s1) p r,
          put.places_more r,
          woken.places_same r,
          on_cpu-Woken s s1 r woken,
        );
        sleepers =
            sw.sleepers_kept
            ∙ sleep_queue-record_slice (requeue s1) p
            ∙ sleep_queue-requeue s1
            ∙ left;
        wakeups = λ r.
            ap (λ (f : ℕ → Pcb). (f r).wakeup_time) sw.pcbs_kept
            ∙ wakeup_time-record_slice (requeue s1) p r
            ∙ ap (λ (f : ℕ → Pcb). (f r).wakeup_time) same_pcbs;
        statuses = λ r off ne.
            sw.others r (λ e. ne (sw.now_runs ∙ e))
            ∙ ap (λ (f : ℕ → TaskStatus). f r) (status-record_slice (requeue s1) p)
            ∙ status-requeue s1 r (still_off s s1 woken off)
            ∙ woken.status_same r;
      },
    )

-- When the queues are well linked and a task that is ready, or the running one, may run on the processor,
-- `do_scheduler` does not halt: it switches to a task that may run there and has the status running, the
-- queues stay well linked, and every task stands in the two queues or on the processor as often as before.
pub do_scheduler-places :
    (s : Scheduler) (hart now q : ℕ)
    → WellQueued s
    → 0 < occurrences s.tasks.ready_queue q + on_cpu s q
    → filter_affinity hart (s.pcbs q) ≡ true
    → (s' : Scheduler) × (do_scheduler s hart now ≡ ok s')
      × WellQueued s'
      × (filter_affinity hart (s.pcbs s'.running) ≡ true)
      × (s'.tasks.status s'.running ≡ running)
      × ((r : ℕ) → places s' r + on_cpu s' r ≡ places s r + on_cpu s r)
do_scheduler-places s hart now q w some_in fits =
    let (s', runs, done) = do_scheduler-Scheduled s hart now q w some_in fits in
    (s', runs, done.queued, done.allowed, done.is_on, done.same)
