-- ===== src/Sched/Switch/Moves.antt =====
-- A task stands in the ready queue and the sleep queue as often after a move between them as before.
use ucas_oslab.Base.{
  ℕ, ◌+◌, ◌≤◌, ◌<◌, ◌≡◌, refl, sym, ap, ◌∙◌, inl, inr, ◌==◌, leb, Bool, true, false, List, [], ◌∷◌,
  ◌++◌, occurrences, arith, if◌then◌else◌, Bool-cases, ==_refl, ==_ne,
}
use native.Mathlib.Decide.{ℕ_discrete}
use mathlib.Core.Path.{subst}
use ucas_oslab.Base.Run.{ok}
use ucas_oslab.Base.Update.{update}
use ucas_oslab.Sched.Pick.{Scheduler}
use ucas_oslab.Sched.Switch.{remove, append_ready, wake_task, check_task, check_tasks}

abbrev pub one : Bool → ℕ
one b = if b then 1 else 0

pub occurrences-append :
    (xs : List ℕ) (p q : ℕ) → occurrences (xs ++ (p ∷ [])) q ≡ occurrences xs q + one (p == q)
occurrences-append [] p q = omega arith
occurrences-append (x ∷ xs) p q = omega (arith, occurrences-append xs p q)

pub occurrences-remove :
    (xs : List ℕ) (p q : ℕ)
    → 0 < occurrences xs p
    → occurrences (remove p xs) q + one (p == q) ≡ occurrences xs q
occurrences-remove [] p q h = omega arith
occurrences-remove (x ∷ xs) p q h = elim (ℕ_discrete x p) [
  | yes e ↦
      subst (λ y. occurrences (remove p (y ∷ xs)) q + one (p == q) ≡ occurrences (y ∷ xs) q) (sym e)
        (rw (==_refl p) (omega arith))
  | no ne ↦
      let off = ==_ne x p ne in
      let rest = occurrences-remove xs p q (ground (arith, off, h)) in rw off (omega (arith, rest))
]

-- In both queues together.
unfoldable pub places : Scheduler → ℕ → ℕ
places s q = occurrences s.tasks.ready_queue q + occurrences s.sleep_queue q

-- A task stands in one of the queues at most once, and then its node is linked.
pub record Linked (s : Scheduler) : Type 0 where
  pub linked : (q : ℕ) → places s q ≤ one (s.tasks.held q)

-- Tasks were only moved from the sleep queue to the ready queue.
pub record Woken (s s' : Scheduler) : Type 0 where
  pub held_same : (q : ℕ) → s'.tasks.held q ≡ s.tasks.held q
  pub status_same : (q : ℕ) → s'.tasks.status q ≡ s.tasks.status q
  pub pcbs_same : s'.pcbs ≡ s.pcbs
  pub running_same : s'.running ≡ s.running
  pub places_same : (q : ℕ) → places s' q ≡ places s q
  pub ready_grows : (q : ℕ) → occurrences s.tasks.ready_queue q ≤ occurrences s'.tasks.ready_queue q

pub moved_nothing : (s : Scheduler) → Woken s s
moved_nothing s = record {
  held_same = λ q. refl;
  status_same = λ q. refl;
  pcbs_same = refl;
  running_same = refl;
  places_same = λ q. refl;
  ready_grows = λ q. omega arith;
}

moved_twice : (s s' s'' : Scheduler) → Woken s s' → Woken s' s'' → Woken s s''
moved_twice s s' s'' a b = record {
  held_same = λ q. b.held_same q ∙ a.held_same q;
  status_same = λ q. b.status_same q ∙ a.status_same q;
  pcbs_same = b.pcbs_same ∙ a.pcbs_same;
  running_same = b.running_same ∙ a.running_same;
  places_same = λ q. b.places_same q ∙ a.places_same q;
  ready_grows = λ q. omega (arith, a.ready_grows q, b.ready_grows q);
}

pub Linked-Woken : (s s' : Scheduler) → Linked s → Woken s s' → Linked s'
Linked-Woken s s' l w = record { linked = λ q. rw (w.places_same q, w.held_same q) (l.linked q) }

-- What the appended task is counted.
pub places-append_ready :
    (s : Scheduler) (p q : ℕ)
    → s.tasks.held p ≡ false
    → places (append_ready s p) q ≡ places s q + one (p == q)
unfolding append_ready places
places-append_ready s p q free = rw free (omega (arith, occurrences-append s.tasks.ready_queue p q))

pub held-append_ready :
    (s : Scheduler) (p : ℕ)
    → s.tasks.held p ≡ false
    → (append_ready s p).tasks.held ≡ update s.tasks.held p true
unfolding append_ready
held-append_ready s p free = rw free refl

pub ready_queue-append_ready :
    (s : Scheduler) (p : ℕ)
    → s.tasks.held p ≡ false
    → (append_ready s p).tasks.ready_queue ≡ s.tasks.ready_queue ++ (p ∷ [])
unfolding append_ready
ready_queue-append_ready s p free = rw free refl

-- The state after a sleeper's node is taken out of its list.
abbrev pub taken_out : Scheduler → ℕ → Scheduler
taken_out s p = record s {
  tasks = record (s.tasks) { held = update s.tasks.held p false };
  sleep_queue = remove p s.sleep_queue;
}

wake_task_lem :
    (s : Scheduler) (p : ℕ)
    → s.tasks.held p ≡ true
    → wake_task s p ≡ ok (append_ready (taken_out s p) p)
unfolding wake_task
wake_task_lem s p is_held = rw is_held refl

-- A sleeper that is taken out of the sleep queue, and put in the ready queue.
pub Woken-taken_out :
    (s : Scheduler) (p : ℕ)
    → Linked s
    → 0 < occurrences s.sleep_queue p
    → Woken s (append_ready (taken_out s p) p)
unfolding places append_ready
Woken-taken_out s p l asleep = record {
  held_same = held_same;
  status_same = λ q. rw (==_refl p) refl;
  pcbs_same = refl;
  running_same = refl;
  places_same = λ q. omega (
    arith,
    places-append_ready (taken_out s p) p q free,
    occurrences-remove s.sleep_queue p q asleep,
  );
  ready_grows = λ q.
      subst (λ xs. occurrences s.tasks.ready_queue q ≤ occurrences xs q)
        (sym (ready_queue-append_ready (taken_out s p) p free))
        (omega (arith, occurrences-append s.tasks.ready_queue p q));
}
  where
    is_held : s.tasks.held p ≡ true
    is_held = ground (arith, l.linked p, asleep)

    free : (taken_out s p).tasks.held p ≡ false
    free = rw (==_refl p) refl

    back : (q : ℕ) → update (update s.tasks.held p false) p true q ≡ s.tasks.held q
    back q = elim (ℕ_discrete p q) [
      | yes e ↦
          subst (λ x. update (update s.tasks.held p false) p true x ≡ s.tasks.held x) e
            (rw (==_refl p) (sym is_held))
      | no ne ↦ rw (==_ne p q ne) refl
    ]

    held_same : (q : ℕ) → (append_ready (taken_out s p) p).tasks.held q ≡ s.tasks.held q
    held_same q = ap (λ (f : ℕ → Bool). f q) (held-append_ready (taken_out s p) p free) ∙ back q

pub sleep_queue-append_ready :
    (s : Scheduler) (p : ℕ) → (append_ready s p).sleep_queue ≡ s.sleep_queue
unfolding append_ready
sleep_queue-append_ready s p = refl

pub check_task_due :
    (now : ℕ) (s : Scheduler) (p : ℕ)
    → Linked s
    → 0 < occurrences s.sleep_queue p
    → leb (s.pcbs p).wakeup_time now ≡ true
    → check_task now s p ≡ ok (append_ready (taken_out s p) p)
unfolding check_task places
check_task_due now s p l asleep due =
    rw due (wake_task_lem s p (ground (arith, l.linked p, asleep)))

pub check_task-Woken :
    (now : ℕ) (s : Scheduler) (p : ℕ)
    → Linked s
    → 0 < occurrences s.sleep_queue p
    → (s' : Scheduler) × (check_task now s p ≡ ok s')
      × Woken s s'
      × ((q : ℕ) → occurrences s.sleep_queue q ≤ occurrences s'.sleep_queue q + one (p == q))
unfolding check_task
check_task-Woken now s p l asleep = elim (Bool-cases (leb (s.pcbs p).wakeup_time now)) [
  | inl due ↦ (
    append_ready (taken_out s p) p,
    check_task_due now s p l asleep due,
    Woken-taken_out s p l asleep,
    (λ q.
        subst (λ xs. occurrences s.sleep_queue q ≤ occurrences xs q + one (p == q))
          (sym (sleep_queue-append_ready (taken_out s p) p))
          (omega (arith, occurrences-remove s.sleep_queue p q asleep))),
  )
  | inr early ↦ (s, rw early refl, moved_nothing s, (λ q. omega arith))
]

-- The sleepers `ps` of the sleep queue are looked at one after another.
pub check_tasks-Woken :
    (now : ℕ) (ps : List ℕ) (s : Scheduler)
    → Linked s
    → ((q : ℕ) → occurrences ps q ≤ occurrences s.sleep_queue q)
    → (s' : Scheduler) × (check_tasks now ps s ≡ ok s') × Woken s s'
unfolding check_tasks
check_tasks-Woken now [] s l inside = (s, refl, moved_nothing s)
check_tasks-Woken now (p ∷ ps) s l inside =
    let asleep : 0 < occurrences s.sleep_queue p = ground (arith, inside p, ==_refl p) in
    let (s', runs, woken, left) = check_task-Woken now s p l asleep in
    let (s'', rest, woken') =
      check_tasks-Woken now ps s' (Linked-Woken s s' l woken)
        (λ q. omega (arith, inside q, left q)) in
    (s'', rw runs rest, moved_twice s s' s'' woken woken')
