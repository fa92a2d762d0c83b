-- ===== src/Sched/Switch/Sleep.antt =====
-- A task that goes to sleep.
use ucas_oslab.Base.{
  ℕ, ◌+◌, ◌%◌, ◌^◌, ◌≤◌, ◌<◌, ◌≡◌, ◌⊎◌, inl, inr, List, refl, sym, ap, ◌∙◌, ◌==◌, Bool, true, false,
  [], ◌∷◌, ◌++◌, occurrences, arith, if◌then◌else◌, ==_refl, ==_ne,
}
use native.Mathlib.Decide.{ℕ_discrete}
use mathlib.Core.Path.{subst}
use ucas_oslab.Base.Run.{ok}
use ucas_oslab.Base.Update.{update, update_self}
use ucas_oslab.Sched.{running, blocked, do_block}
use ucas_oslab.Sched.Pick.{Pcb, Scheduler, filter_affinity}
use ucas_oslab.Sched.Switch.{set_wakeup_time, do_sleep, is_running}
use ucas_oslab.Sched.Switch.Moves.{one, occurrences-append, places}
use ucas_oslab.Sched.Switch.Requeue.{on_cpu, WellQueued}
use ucas_oslab.Sched.Switch.Wake.{not_due}
use ucas_oslab.Sched.Switch.Total.{Scheduled, do_scheduler-Scheduled}

-- The running task is blocked and at the end of the sleep queue.
abbrev asleep_at : Scheduler → ℕ → Scheduler
asleep_at s time =
    let s1 = set_wakeup_time s s.running time in
    record s1 {
      tasks = record (s1.tasks) {
        status = update s.tasks.status s.running blocked;
        held = update s.tasks.held s.running true;
      };
      sleep_queue = s.sleep_queue ++ (s.running ∷ []);
    }

do_block-asleep_at :
    (s : Scheduler)
    → s.tasks.status s.running ≡ running
    → s.tasks.held s.running ≡ false
    → do_block s.tasks s.running s.sleep_queue
      ≡ ok (
        record (s.tasks) {
          status = update s.tasks.status s.running blocked;
          held = update s.tasks.held s.running true;
        },
        s.sleep_queue ++ (s.running ∷ []),
      )
do_block-asleep_at s runs free = rw (runs, free) refl

filter_affinity-set_wakeup_time :
    (s : Scheduler) (hart p q time : ℕ)
    → filter_affinity hart ((set_wakeup_time s p time).pcbs q) ≡ filter_affinity hart (s.pcbs q)
filter_affinity-set_wakeup_time s hart p q time = elim (ℕ_discrete p q) [
  | yes e ↦
      subst
        (λ x.
          filter_affinity hart ((set_wakeup_time s p time).pcbs x)
          ≡ filter_affinity hart (s.pcbs x))
        e (rw (==_refl p) refl)
  | no ne ↦ rw (==_ne p q ne) refl
]

asleep_at-WellQueued :
    (s : Scheduler) (time : ℕ)
    → WellQueued s
    → s.tasks.status s.running ≡ running
    → s.tasks.held s.running ≡ false
    → WellQueued (asleep_at s time)
unfolding places
asleep_at-WellQueued s time w runs free = record {
  queues = record {
    linked = λ q.
        within q (occurrences s.tasks.ready_queue q) (occurrences s.sleep_queue q)
          (occurrences (s.sleep_queue ++ (s.running ∷ [])) q)
          (occurrences-append s.sleep_queue s.running q) (w.queues.linked q);
  };
  out = λ on. never (ap is_running (update_self s.tasks.status s.running blocked)) on;
}
  where
    never : {b : Bool} {P : Type 0} → b ≡ false → b ≡ true → P
    never off on = ground (arith, off, on)

    within :
        (q a b c : ℕ)
        → c ≡ b + one (s.running == q)
        → a + b ≤ one (s.tasks.held q)
        → a + c ≤ one (update s.tasks.held s.running true q)
    within q a b c e h = elim (ℕ_discrete s.running q) [
      | yes same ↦ ground (arith, e, h, free, ap s.tasks.held same)
      | no ne ↦ rw (==_ne s.running q ne) (ground (arith, e, h, ==_ne s.running q ne))
    ]

-- It is in a queue now, and not on the processor.
asleep_at-places :
    (s : Scheduler) (time q : ℕ)
    → s.tasks.status s.running ≡ running
    → places (asleep_at s time) q + on_cpu (asleep_at s time) q ≡ places s q + on_cpu s q
unfolding places
asleep_at-places s time q runs =
    let off : on_cpu (asleep_at s time) q ≡ 0 =
      ap (λ b. if is_running b then one (s.running == q) else 0)
        (update_self s.tasks.status s.running blocked) in
    let on : on_cpu s q ≡ one (s.running == q) =
      ap (λ b. if is_running b then one (s.running == q) else 0) runs in
    omega (arith, off, on, occurrences-append s.sleep_queue s.running q)

-- Which sleepers are due depends on their wake-up times alone.
not_due_wakeups :
    (f g : ℕ → Pcb) (now : ℕ) (ps : List ℕ)
    → ((p : ℕ) → (f p).wakeup_time ≡ (g p).wakeup_time)
    → not_due f now ps ≡ not_due g now ps
not_due_wakeups f g now [] same = refl
not_due_wakeups f g now (p ∷ ps) same = rw (same p, not_due_wakeups f g now ps same) refl

wakeup_time-asleep_at :
    (s : Scheduler) (time : ℕ) → ((asleep_at s time).pcbs s.running).wakeup_time ≡ time
wakeup_time-asleep_at s time = rw (==_refl s.running) refl

-- Only the task that runs now has another status than the sleeper was given.
status-asleep_at :
    (s s' : Scheduler) (time hart now : ℕ)
    → Scheduled (asleep_at s time) hart now s'
    → (s'.running ≡ s.running) ⊎ (s'.tasks.status s.running ≡ blocked)
status-asleep_at s s' time hart now done = elim (ℕ_discrete s'.running s.running) [
  | yes e ↦ inl e
  | no ne ↦
      let asleep = update_self s.tasks.status s.running blocked in
      inr (done.statuses s.running (ap is_running asleep) ne ∙ asleep)
]

-- With well linked queues and a ready task that may run on the processor, `do_sleep` of the running task
-- does not halt. The wake-up time of the caller is the sum of the time and the seconds, modulo 2^64;
-- the caller joins the sleep queue at its end, of which the tasks that are not due stay, in their order;
-- it is blocked unless it is the one that runs again. A task that may run on the processor has the
-- status running, the queues stay well linked, and no task is lost or doubled.
pub do_sleep-places :
    (s : Scheduler) (hart sleep_time now now' q : ℕ)
    → WellQueued s
    → s.tasks.status s.running ≡ running
    → 0 < occurrences s.tasks.ready_queue q
    → filter_affinity hart (s.pcbs q) ≡ true
    → (s' : Scheduler) × (do_sleep s hart sleep_time now now' ≡ ok s')
      × ((s'.pcbs s.running).wakeup_time ≡ (now + sleep_time) % 2 ^ 64)
      × (s'.sleep_queue ≡ not_due s'.pcbs now' (s.sleep_queue ++ (s.running ∷ [])))
      × ((s'.running ≡ s.running) ⊎ (s'.tasks.status s.running ≡ blocked))
      × WellQueued s'
      × (filter_affinity hart (s.pcbs s'.running) ≡ true)
      × (s'.tasks.status s'.running ≡ running)
      × ((r : ℕ) → places s' r + on_cpu s' r ≡ places s r + on_cpu s r)
unfolding do_sleep
do_sleep-places s hart sleep_time now now' q w runs some_in fits =
    let time = (now + sleep_time) % 2 ^ 64 in
    let free = w.out (ap is_running runs) in
    let (s', runs_on, done) =
      do_scheduler-Scheduled (asleep_at s time) hart now' q
        (asleep_at-WellQueued s time w runs free) (omega (arith, some_in))
        (filter_affinity-set_wakeup_time s hart s.running q time ∙ fits) in
    (
      s',
      rw (do_block-asleep_at s runs free) runs_on,
      done.wakeups s.running ∙ wakeup_time-asleep_at s time,
      done.sleepers
          ∙ sym (
              not_due_wakeups s'.pcbs (asleep_at s time).pcbs now'
                (s.sleep_queue ++ (s.running ∷ [])) done.wakeups),
      status-asleep_at s s' time hart now' done,
      done.queued,
      sym (filter_affinity-set_wakeup_time s hart s.running s'.running time) ∙ done.allowed,
      done.is_on,
      (λ r. done.same r ∙ asleep_at-places s time r runs),
    )
