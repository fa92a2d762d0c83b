-- ===== src/Sched/Switch/Wake.antt =====
-- Which sleepers the scheduler wakes, and in what order.
use ucas_oslab.Base.{
  ℕ, ◌+◌, ◌<◌, ◌≡◌, refl, sym, ap, ◌∙◌, inl, inr, ◌==◌, leb, true, false, List, [], ◌∷◌, ◌++◌,
  occurrences, arith, if◌then◌else◌, Bool-cases, ==_refl,
}
use mathlib.Core.Path.{subst}
use mathlib.Core.List.{append_assoc, append-nil}
use ucas_oslab.Base.Run.{ok}
use ucas_oslab.Sched.Pick.{Pcb, Scheduler}
use ucas_oslab.Sched.Switch.{remove, append_ready, check_task, check_tasks, check_sleeping}
use ucas_oslab.Sched.Switch.Moves.{
  places, Linked, Linked-Woken, Woken-taken_out, check_task_due, taken_out,
  ready_queue-append_ready, sleep_queue-append_ready,
}

-- The sleepers of a list that are due, and those that are not.
abbrev pub due : (ℕ → Pcb) → ℕ → List ℕ → List ℕ
due pcbs now [] = []
due pcbs now (p ∷ ps) =
    if leb (pcbs p).wakeup_time now then p ∷ due pcbs now ps else due pcbs now ps

abbrev pub not_due : (ℕ → Pcb) → ℕ → List ℕ → List ℕ
not_due pcbs now [] = []
not_due pcbs now (p ∷ ps) =
    if leb (pcbs p).wakeup_time now then not_due pcbs now ps else p ∷ not_due pcbs now ps

occurrences_append :
    (xs ys : List ℕ) (q : ℕ) → occurrences (xs ++ ys) q ≡ occurrences xs q + occurrences ys q
occurrences_append [] ys q = omega arith
occurrences_append (x ∷ xs) ys q = omega (arith, occurrences_append xs ys q)

remove_append :
    (xs ys : List ℕ) (p : ℕ) → occurrences xs p ≡ 0 → remove p (xs ++ (p ∷ ys)) ≡ xs ++ ys
remove_append [] ys p none_in = rw (==_refl p) refl
remove_append (x ∷ xs) ys p none_in =
    let off : (x == p) ≡ false = ground (arith, none_in) in
    rw off (ap (λ l. x ∷ l) (remove_append xs ys p (omega (arith, none_in))))

check_task_early :
    (now : ℕ) (s : Scheduler) (p : ℕ)
    → leb (s.pcbs p).wakeup_time now ≡ false
    → check_task now s p ≡ ok s
unfolding check_task
check_task_early now s p early = rw early refl

-- Linked tasks stand in the sleep queue once.
first_of :
    (s : Scheduler) (p : ℕ) (kept ps : List ℕ)
    → Linked s
    → s.sleep_queue ≡ kept ++ (p ∷ ps)
    → occurrences kept p ≡ 0
unfolding places
first_of s p kept ps l e =
    let count : occurrences s.sleep_queue p ≡ occurrences kept p + occurrences (p ∷ ps) p =
      ap (λ xs. occurrences xs p) e ∙ occurrences_append kept (p ∷ ps) p in
    ground (arith, count, l.linked p, ==_refl p)

asleep_in :
    (s : Scheduler) (p : ℕ) (kept ps : List ℕ)
    → s.sleep_queue ≡ kept ++ (p ∷ ps)
    → 0 < occurrences s.sleep_queue p
asleep_in s p kept ps e =
    let count : occurrences s.sleep_queue p ≡ occurrences kept p + occurrences (p ∷ ps) p =
      ap (λ xs. occurrences xs p) e ∙ occurrences_append kept (p ∷ ps) p in
    ground (arith, count, ==_refl p)

-- The tasks `ps` are yet to be looked at, and `kept` stay.
check_tasks-due :
    (now : ℕ) (ps kept : List ℕ) (s : Scheduler)
    → Linked s
    → s.sleep_queue ≡ kept ++ ps
    → (s' : Scheduler) × (check_tasks now ps s ≡ ok s')
      × (s'.sleep_queue ≡ kept ++ not_due s.pcbs now ps)
      × (s'.tasks.ready_queue ≡ s.tasks.ready_queue ++ due s.pcbs now ps)
unfolding check_tasks
check_tasks-due now [] kept s l e = (s, refl, e, sym (append-nil s.tasks.ready_queue))
check_tasks-due now (p ∷ ps) kept s l e = elim (Bool-cases (leb (s.pcbs p).wakeup_time now)) [
  | inl on ↦
      let asleep = asleep_in s p kept ps e in
      let s1 = append_ready (taken_out s p) p in
      let woken = Woken-taken_out s p l asleep in
      let (s', runs, sleeping, woke) = check_tasks-due now ps kept s1 (Linked-Woken s s1 l woken) (
        sleep_queue-append_ready (taken_out s p) p
        ∙ ap (remove p) e
        ∙ remove_append kept ps p (first_of s p kept ps l e)) in
      (
        s',
        rw (check_task_due now s p l asleep on) runs,
        subst (λ (f : ℕ → Pcb). s'.sleep_queue ≡ kept ++ not_due f now (p ∷ ps)) woken.pcbs_same
            (sleeping
              ∙ ap (λ xs. kept ++ xs)
                  (sym (
                    not_due_on s1.pcbs now p ps (
                      subst (λ (f : ℕ → Pcb). leb (f p).wakeup_time now ≡ true)
                        (sym woken.pcbs_same) on)))),
        subst (λ (f : ℕ → Pcb). s'.tasks.ready_queue ≡ s.tasks.ready_queue ++ due f now (p ∷ ps))
            woken.pcbs_same
            (woke
              ∙ ap (λ xs. xs ++ due s1.pcbs now ps)
                  (ready_queue-append_ready (taken_out s p) p (taken_free s p))
              ∙ append_assoc s.tasks.ready_queue (p ∷ []) (due s1.pcbs now ps)
              ∙ ap (λ xs. s.tasks.ready_queue ++ xs)
                  (sym (
                    due_on s1.pcbs now p ps (
                      subst (λ (f : ℕ → Pcb). leb (f p).wakeup_time now ≡ true)
                        (sym woken.pcbs_same) on)))),
      )
  | inr early ↦
      let (s', runs, sleeping, woke) =
        check_tasks-due now ps (kept ++ (p ∷ [])) s l (e ∙ sym (append_assoc kept (p ∷ []) ps)) in
      (
        s',
        rw (check_task_early now s p early) runs,
        sleeping ∙ append_assoc kept (p ∷ []) (not_due s.pcbs now ps) ∙ rw early refl,
        woke ∙ rw early refl,
      )
]
  where
    taken_free : (s : Scheduler) (p : ℕ) → (taken_out s p).tasks.held p ≡ false
    taken_free s p = rw (==_refl p) refl

    due_on :
        (pcbs : ℕ → Pcb) (now p : ℕ) (ps : List ℕ)
        → leb (pcbs p).wakeup_time now ≡ true
        → due pcbs now (p ∷ ps) ≡ p ∷ due pcbs now ps
    due_on pcbs now p ps on = rw on refl

    not_due_on :
        (pcbs : ℕ → Pcb) (now p : ℕ) (ps : List ℕ)
        → leb (pcbs p).wakeup_time now ≡ true
        → not_due pcbs now (p ∷ ps) ≡ not_due pcbs now ps
    not_due_on pcbs now p ps on = rw on refl

-- With well linked queues, `check_sleeping` moves the sleepers whose time has come to the end of the
-- ready queue, in their order, and leaves the others in the sleep queue, in theirs.
pub check_sleeping-due :
    (now : ℕ) (s : Scheduler)
    → Linked s
    → (s' : Scheduler) × (check_sleeping now s ≡ ok s')
      × (s'.sleep_queue ≡ not_due s.pcbs now s.sleep_queue)
      × (s'.tasks.ready_queue ≡ s.tasks.ready_queue ++ due s.pcbs now s.sleep_queue)
check_sleeping-due now s l = check_tasks-due now s.sleep_queue [] s l refl
