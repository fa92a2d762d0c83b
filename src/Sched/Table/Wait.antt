-- ===== src/Sched/Table/Wait.antt =====
-- A task that waits for the end of another.
use ucas_oslab.Base.{
  ℕ, ◌+◌, ◌≤◌, ◌<◌, ◌≡◌, ◌≢◌, ==_refl, refl, ap, ◌∙◌, ◌==◌, Bool, true, false, List, [], ◌∷◌, ◌++◌,
  occurrences, arith, if◌then◌else◌, ==_ne,
}
use native.Mathlib.Decide.{ℕ_discrete}
use ucas_oslab.Base.Int.{pos}
use ucas_oslab.Base.Run.{ok}
use ucas_oslab.Base.Update.{update, update_self}
use ucas_oslab.Sched.{running, blocked, list_append}
use ucas_oslab.Sched.Pick.{Scheduler, filter_affinity}
use ucas_oslab.Sched.Switch.{set_status, is_running}
use ucas_oslab.Sched.Switch.Moves.{one, places}
use ucas_oslab.Sched.Switch.Requeue.{on_cpu, WellQueued}
use ucas_oslab.Sched.Switch.Total.{Scheduled, do_scheduler-Scheduled}
use ucas_oslab.Sched.Table.{Processes, wait_for, do_waitpid}
use ucas_oslab.Sched.Table.Find.{Lives, find_pcb-Lives}

-- The running task is blocked and in a list that is no queue of the scheduler.
abbrev waiting : Scheduler → Scheduler
waiting s =
    set_status (record s { tasks = record (s.tasks) { held = update s.tasks.held s.running true } })
      s.running blocked

list_append_free :
    (s : Scheduler) (xs : List ℕ)
    → s.tasks.held s.running ≡ false
    → list_append s.tasks xs s.running
      ≡ (record (s.tasks) { held = update s.tasks.held s.running true }, xs ++ (s.running ∷ []))
list_append_free s xs free = rw free refl

waiting-WellQueued :
    (s : Scheduler) → WellQueued s → s.tasks.held s.running ≡ false → WellQueued (waiting s)
unfolding places
waiting-WellQueued s w free = record {
  queues = record { linked = λ q. within q (places s q) (w.queues.linked q) };
  out = λ on. never (ap is_running (update_self s.tasks.status s.running blocked)) on;
}
  where
    never : {b : Bool} {P : Type 0} → b ≡ false → b ≡ true → P
    never off on = ground (arith, off, on)

    within : (q n : ℕ) → n ≤ one (s.tasks.held q) → n ≤ one (update s.tasks.held s.running true q)
    within q n h = elim (ℕ_discrete s.running q) [
      | yes same ↦ ground (arith, h, free, ap s.tasks.held same)
      | no ne ↦ rw (==_ne s.running q ne) h
    ]

waiting-places :
    (s : Scheduler) (q : ℕ)
    → s.tasks.status s.running ≡ running
    → places (waiting s) q + on_cpu (waiting s) q + one (s.running == q) ≡ places s q + on_cpu s q
unfolding places
waiting-places s q runs =
    let off : on_cpu (waiting s) q ≡ 0 =
      ap (λ b. if is_running b then one (s.running == q) else 0)
        (update_self s.tasks.status s.running blocked) in
    let on : on_cpu s q ≡ one (s.running == q) =
      ap (λ b. if is_running b then one (s.running == q) else 0) runs in
    omega (arith, off, on)

-- The caller is in no queue afterwards and does not run.
another_runs :
    (s s' : Scheduler) (hart now : ℕ)
    → WellQueued s
    → s.tasks.status s.running ≡ running
    → Scheduled (waiting s) hart now s'
    → s'.running ≢ s.running
unfolding places
another_runs s s' hart now well runs done = λ e.
    let on : on_cpu s' s.running ≡ 1 =
      ap (λ b. if is_running b then one (s'.running == s.running) else 0) done.is_on
      ∙ ap (λ x. one (x == s.running)) e
      ∙ rw (==_refl s.running) refl in
    let before = waiting-places s s.running runs in
    let on_before : on_cpu s s.running ≡ 1 =
      ap (λ b. if is_running b then one (s.running == s.running) else 0) runs
      ∙ rw (==_refl s.running) refl in
    let nowhere = well.queues.linked s.running in
    let free : one (s.tasks.held s.running) ≡ 0 = ap one (well.out (ap is_running runs)) in
    let itself : one (s.running == s.running) ≡ 1 = rw (==_refl s.running) refl in
    omega (arith, on, done.same s.running, before, on_before, nowhere, free, itself)

-- With well linked queues and a ready task that may run on the processor, `do_waitpid` of the running task
-- for a process that has not ended, and whose number no other has, does not halt and returns that number:
-- the caller is blocked, at the end of the wait list of the process and not in the queues; another task,
-- which may run on the processor, has the status running; the queues stay well linked, and every task but
-- the caller stands in them or on the processor as often as before.
pub do_waitpid-places :
    (w : Processes) (hart now p q : ℕ)
    → WellQueued w.scheduler
    → w.scheduler.tasks.status w.scheduler.running ≡ running
    → Lives w.scheduler p
    → 0 < occurrences w.scheduler.tasks.ready_queue q
    → filter_affinity hart (w.scheduler.pcbs q) ≡ true
    → (w' : Processes) × (do_waitpid w hart now (pos (w.scheduler.pcbs p).pid)
        ≡ ok (pos (w.scheduler.pcbs p).pid, w'))
      × WellQueued w'.scheduler
      × (w'.wait_lists p ≡ w.wait_lists p ++ (w.scheduler.running ∷ []))
      × (w'.scheduler.tasks.status w.scheduler.running ≡ blocked)
      × (w'.scheduler.running ≢ w.scheduler.running)
      × (filter_affinity hart (w.scheduler.pcbs w'.scheduler.running) ≡ true)
      × (w'.scheduler.tasks.status w'.scheduler.running ≡ running)
      × ((r : ℕ)
          → places w'.scheduler r + on_cpu w'.scheduler r + one (w.scheduler.running == r)
            ≡ places w.scheduler r + on_cpu w.scheduler r)
unfolding do_waitpid wait_for
do_waitpid-places w hart now p q well runs lives some_in fits =
    let s = w.scheduler in
    let free = well.out (ap is_running runs) in
    let (s', runs_on, done) =
      do_scheduler-Scheduled (waiting s) hart now q (waiting-WellQueued s well free)
        (omega (arith, some_in)) fits in
    let other = another_runs s s' hart now well runs done in
    let asleep = update_self s.tasks.status s.running blocked in
    (
      record {
        scheduler = s';
        wait_lists = update w.wait_lists p (w.wait_lists p ++ (s.running ∷ []));
      },
      rw (find_pcb-Lives s p lives, list_append_free s (w.wait_lists p) free, runs_on) refl,
      done.queued,
      update_self w.wait_lists p (w.wait_lists p ++ (s.running ∷ [])),
      done.statuses s.running (ap is_running asleep) other ∙ asleep,
      other,
      done.allowed,
      done.is_on,
      (λ r. ap (λ n. n + one (s.running == r)) (done.same r) ∙ waiting-places s r runs),
    )
