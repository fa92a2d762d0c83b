-- ===== src/Sched/Switch/Requeue.antt =====
-- The parts of a switch: the running task is put back, and the next one is taken.
use ucas_oslab.Base.{
  ℕ, ◌+◌, ◌≤◌, ◌<◌, ◌≡◌, refl, sym, ap, ◌∙◌, inl, inr, ◌==◌, ◌≢◌, Bool, true, false, occurrences,
  arith, if◌then◌else◌, Bool-cases, ==_ne,
}
use native.Mathlib.Decide.{ℕ_discrete}
use mathlib.Core.Path.{subst}
use ucas_oslab.Base.Run.{ok}
use ucas_oslab.Base.Update.{update, update_self}
use ucas_oslab.Sched.{ready, running}
use ucas_oslab.Sched.Pick.{Scheduler}
use ucas_oslab.Sched.Switch.{remove, append_ready, is_running, set_status, requeue, run_task}
use ucas_oslab.Sched.Switch.Moves.{
  one, occurrences-append, occurrences-remove, places, Linked, Woken, Linked-Woken,
  places-append_ready, held-append_ready, ready_queue-append_ready,
}

-- One for the task that runs on the processor.
abbrev pub on_cpu : Scheduler → ℕ → ℕ
on_cpu s q = if is_running (s.tasks.status s.running) then one (s.running == q) else 0

-- The queues are well linked, and a task that runs is in none.
pub record WellQueued (s : Scheduler) : Type 0 where
  pub queues : Linked s
  pub out : is_running (s.tasks.status s.running) ≡ true → s.tasks.held s.running ≡ false

pub WellQueued-Woken : (s s' : Scheduler) → WellQueued s → Woken s s' → WellQueued s'
WellQueued-Woken s s' w moved = record {
  queues = Linked-Woken s s' w.queues moved;
  out = λ on.
      subst (λ r. s'.tasks.held r ≡ false) (sym moved.running_same)
        (moved.held_same s.running
          ∙ w.out (
              subst (λ b. is_running b ≡ true) (moved.status_same s.running)
                (subst (λ r. is_running (s'.tasks.status r) ≡ true) moved.running_same on)));
}

pub on_cpu-Woken : (s s' : Scheduler) (q : ℕ) → Woken s s' → on_cpu s' q ≡ on_cpu s q
on_cpu-Woken s s' q moved =
    ap (λ r. if is_running (s'.tasks.status r) then one (r == q) else 0) moved.running_same
    ∙ ap (λ b. if is_running b then one (s.running == q) else 0) (moved.status_same s.running)

-- The task that ran is put back.
pub record Requeued (s s' : Scheduler) : Type 0 where
  pub places_more : (q : ℕ) → places s' q ≡ places s q + on_cpu s q
  pub ready_more :
      (q : ℕ) → occurrences s'.tasks.ready_queue q ≡ occurrences s.tasks.ready_queue q + on_cpu s q
  pub pcbs_kept : s'.pcbs ≡ s.pcbs
  pub still_linked : Linked s'

requeue_off : (s : Scheduler) → is_running (s.tasks.status s.running) ≡ false → requeue s ≡ s
unfolding requeue
requeue_off s off = rw off refl

requeue_on :
    (s : Scheduler)
    → is_running (s.tasks.status s.running) ≡ true
    → requeue s ≡ append_ready (set_status s s.running ready) s.running
unfolding requeue
requeue_on s on = rw on refl

Requeued-same :
    (s : Scheduler) → Linked s → is_running (s.tasks.status s.running) ≡ false → Requeued s s
Requeued-same s l off = record {
  places_more = λ q. rw off (omega arith);
  ready_more = λ q. rw off (omega arith);
  pcbs_kept = refl;
  still_linked = l;
}

Requeued-append_ready :
    (s : Scheduler)
    → WellQueued s
    → is_running (s.tasks.status s.running) ≡ true
    → Requeued s (append_ready (set_status s s.running ready) s.running)
unfolding places append_ready
Requeued-append_ready s w on =
    let free = w.out on in
    let s1 = set_status s s.running ready in
    let counted = λ (q : ℕ). places-append_ready s1 s.running q free in
    record {
      places_more = λ q. rw on (counted q);
      ready_more = λ q. rw on (
          subst (λ xs. occurrences xs q ≡ occurrences s.tasks.ready_queue q + one (s.running == q))
            (sym (ready_queue-append_ready s1 s.running free))
            (occurrences-append s.tasks.ready_queue s.running q));
      pcbs_kept = refl;
      still_linked = record {
        linked = λ q.
            subst (λ (f : ℕ → Bool). places (append_ready s1 s.running) q ≤ one (f q))
              (sym (held-append_ready s1 s.running free))
              (within q free (counted q) (w.queues.linked q));
      };
    }
  where
    within :
        (q : ℕ) {n m : ℕ}
        → s.tasks.held s.running ≡ false
        → n ≡ m + one (s.running == q)
        → m ≤ one (s.tasks.held q)
        → n ≤ one (update s.tasks.held s.running true q)
    within q free e h = elim (ℕ_discrete s.running q) [
      | yes same ↦ ground (arith, e, h, free, ap s.tasks.held same)
      | no ne ↦ rw (==_ne s.running q ne) (ground (arith, e, h, ==_ne s.running q ne))
    ]

pub requeue-Requeued : (s : Scheduler) → WellQueued s → Requeued s (requeue s)
requeue-Requeued s w = elim (Bool-cases (is_running (s.tasks.status s.running))) [
  | inl on ↦ subst (Requeued s) (sym (requeue_on s on)) (Requeued-append_ready s w on)
  | inr off ↦ subst (Requeued s) (sym (requeue_off s off)) (Requeued-same s w.queues off)
]

-- The state after the next task is taken out of the ready queue and made the running one.
abbrev switched : Scheduler → ℕ → Scheduler
switched s p =
    let taken : Scheduler = record s {
      tasks = record (s.tasks) {
        held = update s.tasks.held p false;
        ready_queue = remove p s.tasks.ready_queue;
      };
    } in
    record (set_status taken p running) { running = p }

run_task_lem : (s : Scheduler) (p : ℕ) → s.tasks.held p ≡ true → run_task s p ≡ ok (switched s p)
unfolding run_task
run_task_lem s p is_held = rw is_held refl

-- The next task was taken from the ready queue.
pub record Switched (s : Scheduler) (p : ℕ) (s' : Scheduler) : Type 0 where
  pub now_runs : s'.running ≡ p
  pub status_set : s'.tasks.status p ≡ running
  pub queued : WellQueued s'
  pub places_less : (q : ℕ) → places s' q + one (p == q) ≡ places s q
  pub sleepers_kept : s'.sleep_queue ≡ s.sleep_queue
  pub pcbs_kept : s'.pcbs ≡ s.pcbs
  pub others : (r : ℕ) → p ≢ r → s'.tasks.status r ≡ s.tasks.status r

switched-Switched :
    (s : Scheduler) (p : ℕ)
    → Linked s
    → 0 < occurrences s.tasks.ready_queue p
    → Switched s p (switched s p)
unfolding places
switched-Switched s p l some_in = record {
  now_runs = refl;
  status_set = update_self s.tasks.status p running;
  queued = record {
    queues = record {
      linked = λ q.
          left q (occurrences (remove p s.tasks.ready_queue) q) (occurrences s.tasks.ready_queue q)
            (occurrences s.sleep_queue q) (l.linked q)
            (occurrences-remove s.tasks.ready_queue p q some_in);
    };
    out = λ on. update_self s.tasks.held p false;
  };
  places_less = λ q. omega (arith, occurrences-remove s.tasks.ready_queue p q some_in);
  sleepers_kept = refl;
  pcbs_kept = refl;
  others = λ r ne. rw (==_ne p r ne) refl;
}
  where
    left :
        (q m n k : ℕ)
        → n + k ≤ one (s.tasks.held q)
        → m + one (p == q) ≡ n
        → m + k ≤ one (update s.tasks.held p false q)
    left q m n k h e = elim (ℕ_discrete p q) [
      | yes same ↦ ground (arith, h, e, same)
      | no ne ↦ rw (==_ne p q ne) (ground (arith, h, e, ==_ne p q ne))
    ]

pub run_task-Switched :
    (s : Scheduler) (p : ℕ)
    → Linked s
    → 0 < occurrences s.tasks.ready_queue p
    → (s' : Scheduler) × (run_task s p ≡ ok s') × Switched s p s'
unfolding places
run_task-Switched s p l some_in = (
  switched s p,
  run_task_lem s p (ground (arith, l.linked p, some_in)),
  switched-Switched s p l some_in,
)
